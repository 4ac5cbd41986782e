-- ===== src/Compare/Segments.antt =====
-- services/comparison.py: the properties of `LineComparison`, and `Segment`, which groups the lines
-- of a file that changed and pads each group with the lines around it.
pub mod Windows
pub mod Hits
use codecov_api.Base.{
  Bool, List, Option, [], any, false, if◌then◌else◌, leb, length, ltb, min, none, not, some, suc,
  true, zero, ℕ, ◌&&◌, ◌++◌, ◌+◌, ◌-◌, ◌||◌, ◌∷◌,
}
use codecov_api.Compare.Lines.{LineComparison}

-- LineType of the package shared.
pub data LineType : Type 0 where
  hit miss partial : LineType

abbrev pub same_type : Option LineType → Option LineType → Bool
same_type none none = true
same_type (some hit) (some hit) = true
same_type (some miss) (some miss) = true
same_type (some partial) (some partial) = true
same_type _ _ = false

-- What the code reads of a line of a report: the coverage, and the coverage of each session.
pub record ReportLine (C : Type 0) : Type 0 where
  pub coverage : C
  pub sessions : Option (List (ℕ × C))

module _ {C : Type 0} (line_type : C → Option LineType) where
  -- LineComparison.coverage
  abbrev pub base_coverage : LineComparison (ReportLine C) → Option LineType
  base_coverage l =
      if l.added then none else elim l.base_line [ none ↦ none | some r ↦ line_type r.coverage ]

  abbrev pub head_coverage : LineComparison (ReportLine C) → Option LineType
  head_coverage l =
      if l.removed then none else elim l.head_line [ none ↦ none | some r ↦ line_type r.coverage ]

  -- LineComparison.head_line_sessions
  abbrev pub head_line_sessions : LineComparison (ReportLine C) → Option (List (ℕ × C))
  head_line_sessions l = elim l.head_line [ none ↦ none | some r ↦ r.sessions ]

  -- The ids of the sessions that hit the line.
  abbrev pub hitting : List (ℕ × C) → List ℕ
  hitting [] = []
  hitting ((id, c) ∷ sessions) =
      let rest = hitting sessions in if same_type (line_type c) (some hit) then id ∷ rest else rest

  -- LineComparison.hit_session_ids
  unfoldable pub hit_session_ids : LineComparison (ReportLine C) → Option (List ℕ)
  hit_session_ids l = elim (head_line_sessions l) [
    | none ↦ none
    | some sessions ↦ elim (hitting sessions) [ [] ↦ none | id ∷ ids ↦ some (id ∷ ids) ]
  ]

  -- The number of the sessions that hit the line.
  abbrev pub count_hits : List (ℕ × C) → ℕ
  count_hits [] = 0
  count_hits ((id, c) ∷ sessions) =
      (if same_type (line_type c) (some hit) then 1 else 0) + count_hits sessions

  -- LineComparison.hit_count
  unfoldable pub hit_count : LineComparison (ReportLine C) → Option ℕ
  hit_count l = elim (head_line_sessions l) [
    | none ↦ none
    | some sessions ↦ if ltb 0 (count_hits sessions) then some (count_hits sessions) else none
  ]

  -- The test of Segment.segments: the line's coverage or its code changed.
  unfoldable pub is_changed : LineComparison (ReportLine C) → Bool
  is_changed l = not (same_type (base_coverage l) (head_coverage l)) || (l.added || l.removed)

  -- The indices of the changed lines, from the index `i` on.
  abbrev pub line_numbers : ℕ → List (LineComparison (ReportLine C)) → List ℕ
  line_numbers i [] = []
  line_numbers i (l ∷ lines) =
      let rest = line_numbers (i + 1) lines in if is_changed l then i ∷ rest else rest

-- Segment.line_distance is 6. The groups that are finished, the group at work and its last number.
abbrev pub grow : List (List ℕ) → List ℕ → ℕ → List ℕ → List (List ℕ)
grow done group last [] = done ++ group ∷ []
grow done group last (n ∷ numbers) = elim (leb (n - last) 6) [
  | true ↦ grow done (group ++ n ∷ []) n numbers
  | false ↦ grow (done ++ group ∷ []) (n ∷ []) n numbers
]

-- segmented_lines
unfoldable pub segmented_lines : List ℕ → List (List ℕ)
segmented_lines [] = []
segmented_lines (n ∷ numbers) = grow [] (n ∷ []) n numbers

abbrev pub last_of : ℕ → List ℕ → ℕ
last_of n [] = n
last_of n (m ∷ ns) = last_of m ns

-- The first and the last line of a group with Segment.padding_lines, which is 3, in a file of
-- `count` lines.
abbrev pub window : ℕ → List ℕ → ℕ × ℕ
window count [] = (0, 0)
window count (n ∷ ns) = (n - 3, min (last_of n ns + 3) (count - 1))

abbrev pub windows : ℕ → List (List ℕ) → List (ℕ × ℕ)
windows count [] = []
windows count (g ∷ gs) = window count g ∷ windows count gs

-- lines[start : end + 1]
abbrev pub slice {ℓ} : {A : Type ℓ} → ℕ → ℕ → List A → List A
slice start n [] = []
slice (suc start) n (x ∷ xs) = slice start n xs
slice zero zero (x ∷ xs) = []
slice zero (suc n) (x ∷ xs) = x ∷ slice zero n xs

abbrev pub slices {ℓ} : {A : Type ℓ} → List A → List (ℕ × ℕ) → List (List A)
slices lines [] = []
slices lines ((start, end) ∷ ws) = slice start (end + 1 - start) lines ∷ slices lines ws

module _ {C : Type 0} (line_type : C → Option LineType) where
  -- The lines that the segments of a file take, as first and last index.
  unfoldable pub segment_windows : List (LineComparison (ReportLine C)) → List (ℕ × ℕ)
  unfolding segmented_lines
  segment_windows lines = windows (length lines) (segmented_lines (line_numbers line_type 0 lines))

  -- Segment.segments
  unfoldable pub segments :
      List (LineComparison (ReportLine C)) → List (List (LineComparison (ReportLine C)))
  unfolding segment_windows
  segments lines = slices lines (segment_windows lines)

  -- Segment.has_diff_changes
  unfoldable pub has_diff_changes : List (LineComparison (ReportLine C)) → Bool
  has_diff_changes lines = any (λ l. l.added || l.removed) lines

  -- Segment.has_unintended_changes
  unfoldable pub has_unintended_changes : List (LineComparison (ReportLine C)) → Bool
  has_unintended_changes lines =
      any
        (λ l.
          not l.added
          && (not l.removed
              && not (same_type (head_coverage line_type l) (base_coverage line_type l))))
        lines

-- Segment.header: the first line numbers of the two sides, 0 where there is none, and the counts.
pub record Header : Type 0 where
  pub base_first : Option ℕ
  pub head_first : Option ℕ
  pub removed_lines : ℕ
  pub added_lines : ℕ
  pub context_lines : ℕ

abbrev pub first_of : Option ℕ → Option ℕ → Option ℕ
first_of none n = n
first_of (some m) n = some m

abbrev pub or_zero : Option ℕ → ℕ
or_zero none = 0
or_zero (some n) = n

module _ {B : Type 0} where
  -- LineComparison.number
  abbrev pub base_shown : LineComparison B → Option ℕ
  base_shown l = if l.added then none else l.base_number

  abbrev pub head_shown : LineComparison B → Option ℕ
  head_shown l = if l.removed then none else l.head_number

  abbrev pub count_line : Header → LineComparison B → Header
  count_line h l =
      let seen : Header = record h {
        base_first = first_of h.base_first (base_shown l);
        head_first = first_of h.head_first (head_shown l);
      } in
      if l.added
      then record seen { added_lines = h.added_lines + 1 }
      else if l.removed
      then record seen { removed_lines = h.removed_lines + 1 }
      else record seen { context_lines = h.context_lines + 1 }

  abbrev pub count_lines : Header → List (LineComparison B) → Header
  count_lines h [] = h
  count_lines h (l ∷ lines) = count_lines (count_line h l) lines

  unfoldable pub header : List (LineComparison B) → ℕ × ℕ × ℕ × ℕ
  header lines =
      let h : Header =
        count_lines
          (record {
            base_first = none;
            head_first = none;
            removed_lines = 0;
            added_lines = 0;
            context_lines = 0;
          })
          lines in
      (
        or_zero h.base_first,
        h.context_lines + h.removed_lines,
        or_zero h.head_first,
        h.context_lines + h.added_lines,
      )
