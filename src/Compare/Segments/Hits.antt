-- ===== src/Compare/Segments/Hits.antt =====
-- services/comparison.py: the sessions that hit a line.
use codecov_api.Base.{
  List, Option, [], arith, if◌then◌else◌, length, ltb, none, refl, some, ℕ, ◌∷◌, ◌≡◌,
}
use mathlib.Core.Option
use codecov_api.Compare.Lines.{LineComparison}
use codecov_api.Compare.Segments.{
  LineType, ReportLine, count_hits, head_line_sessions, hit_count, hit_session_ids, hitting,
}

module _ {C : Type 0} (line_type : C → Option LineType) where
  count-hitting :
      (sessions : List (ℕ × C))
      → count_hits line_type sessions ≡ length (hitting line_type sessions)
  count-hitting [] = refl
  count-hitting ((id, c) ∷ sessions) = ground (arith, count-hitting sessions)

  counted :
      (n : ℕ) (ids : List ℕ)
      → n ≡ length ids
      → (if ltb 0 n then some n else none)
        ≡ Option.map length
            (elim ids as (λ _. Option (List ℕ)) [ [] ↦ none | id ∷ ids ↦ some (id ∷ ids) ])
  counted n [] e = ground arith
  counted n (id ∷ ids) e = ground arith

  counted_sessions :
      (s : Option (List (ℕ × C)))
      → (elim s as (λ _. Option ℕ) [
        | none ↦ none
        | some sessions ↦
            if ltb 0 (count_hits line_type sessions)
            then some (count_hits line_type sessions)
            else none
      ])
        ≡ Option.map length (elim s as (λ _. Option (List ℕ)) [
          | none ↦ none
          | some sessions ↦ elim (hitting line_type sessions) [
            | [] ↦ none
            | id ∷ ids ↦ some (id ∷ ids)
          ]
        ])
  counted_sessions none = refl
  counted_sessions (some sessions) =
      counted (count_hits line_type sessions) (hitting line_type sessions) (count-hitting sessions)

  -- The number of hits of a line is the number of the ids of the sessions that hit it, and there is
  -- neither where no session does.
  pub hit_count-hit_session_ids :
      (l : LineComparison (ReportLine C))
      → hit_count line_type l ≡ Option.map length (hit_session_ids line_type l)
  unfolding hit_count hit_session_ids
  hit_count-hit_session_ids l = counted_sessions (head_line_sessions line_type l)
