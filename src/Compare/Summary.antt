-- ===== src/Compare/Summary.antt =====
-- services/comparison.py: `CreateChangeSummaryVisitor`, which counts the lines whose coverage
-- changed although their code did not.
use codecov_api.Base.{List, Option, [], if◌then◌else◌, negsuc, none, pos, some, ℤ, ◌+ℤ◌, ◌||◌, ◌∷◌}
use codecov_api.Store.{Outcome, err, key_error, ok}
use codecov_api.Compare.{Visit, is_added, is_removed}
use codecov_api.Compare.Lines.{get_line}
use codecov_api.Compare.Segments.{LineType, ReportLine, hit, miss, partial, same_type}

-- The counter of the visitor. A key that is missing counts 0.
pub record Summary : Type 0 where
  pub hits : ℤ
  pub misses : ℤ
  pub partials : ℤ

abbrev pub empty_summary : Summary
empty_summary = record { hits = pos 0; misses = pos 0; partials = pos 0 }

-- summary[coverage_type_map[t]] += n
unfoldable pub bump : ℤ → LineType → Summary → Summary
bump n hit s = record s { hits = s.hits +ℤ n }
bump n miss s = record s { misses = s.misses +ℤ n }
bump n partial s = record s { partials = s.partials +ℤ n }

-- CreateChangeSummaryVisitor._update_summary: a line without a type has no key in
-- coverage_type_map.
unfoldable pub update_summary : Option LineType → Option LineType → Summary → Outcome Summary
unfolding bump
update_summary (some base) (some head) s = ok (bump (pos 1) head (bump (negsuc 0) base s))
update_summary _ _ s = err key_error

module _ {A C : Type 0} (decode : A → ReportLine C) (line_type : C → Option LineType)
    (base_file head_file : Option (List (Option A))) where
  -- CreateChangeSummaryVisitor.__call__
  unfoldable pub summarize_line : Summary → Visit → Outcome Summary
  unfolding update_summary
  summarize_line s v =
      if is_added v.value || is_removed v.value
      then ok s
      else (elim (get_line decode base_file v.base) [
        | none ↦ ok s
        | some base ↦ elim (get_line decode head_file v.head) [
          | none ↦ ok s
          | some head ↦
              if same_type (line_type base.coverage) (line_type head.coverage)
              then ok s
              else update_summary (line_type base.coverage) (line_type head.coverage) s
        ]
      ])

  -- The visitor's summary after the calls of a traversal.
  unfoldable pub summarize : Summary → List Visit → Outcome Summary
  unfolding summarize_line
  summarize s [] = ok s
  summarize s (v ∷ vs) = elim (summarize_line s v) [ err e ↦ err e | ok s' ↦ summarize s' vs ]
