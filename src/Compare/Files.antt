-- ===== src/Compare/Files.antt =====
-- services/comparison.py: `FileComparison`, which runs both visitors over a file.
use codecov_api.Base.{
  Bool, List, Option, [], false, if◌then◌else◌, is_some, length, ltb, none, not, opt_false, pos,
  some, true, zero, ℕ, ℤ, ◌&&◌, ◌+◌, ◌||◌, ◌∷◌,
}
use codecov_api.Store.{Outcome, err, ok, type_error}
use codecov_api.Compare.{File, Segment, Trace, apply, failed, finished, init, unfinished}
use codecov_api.Compare.Lines.{LineComparison, create_lines}
use codecov_api.Compare.Segments.{LineType, ReportLine, segments}
use codecov_api.Compare.Summary.{Summary, empty_summary, summarize}

abbrev pub is_zero : ℤ → Bool
is_zero (pos zero) = true
is_zero _ = false

-- What a comparison takes from the reports, the diff and the source of a file. The data of a diff
-- may have no segments.
pub record FileComparison (A : Type 0) : Type 0 where
  pub base_report : Option (List (Option A))
  pub head_report : Option (List (Option A))
  pub traversed : File
  pub diff_data : Option (Option (List Segment))
  pub bypass_max_diff : Bool
  pub should_search_for_changes : Option Bool

-- The lines of all segments of the diff.
abbrev pub count_diff : List Segment → ℕ
count_diff [] = 0
count_diff (s ∷ segments) = length s.lines + count_diff segments

module _ {A C : Type 0} (decode : A → ReportLine C) (line_type : C → Option LineType) (fuel : ℕ)
    (f : FileComparison A) where
  abbrev pub diff_segments : List Segment
  diff_segments = elim f.diff_data [ none ↦ [] | some none ↦ [] | some (some segments) ↦ segments ]

  -- total_diff_length
  abbrev pub total_diff_length : ℕ
  total_diff_length = count_diff diff_segments

  -- The test of _calculated_changes_and_lines.
  abbrev pub is_traversed : Bool
  is_traversed =
      is_some f.diff_data
      || (ltb 0 (length f.traversed.src) || not (opt_false f.should_search_for_changes))

  -- The traversal of _calculated_changes_and_lines.
  abbrev pub traversal : Trace
  traversal =
      if is_traversed
      then apply fuel f.traversed (init diff_segments)
      else record { visits = []; ending = finished }

  -- _calculated_changes_and_lines: the first exception of a visitor or of the traversal is raised.
  -- There is no result where the traversal does not end within the fuel.
  unfoldable pub calculated : Option (Outcome (Summary × List (LineComparison (ReportLine C))))
  unfolding summarize apply
  calculated =
      elim (summarize decode line_type f.base_report f.head_report empty_summary traversal.visits) [
        | err e ↦ some (err e)
        | ok s ↦ elim traversal.ending [
          | failed e ↦ some (err e)
          | unfinished ↦ none
          | finished ↦
              some (ok (s, create_lines decode f.base_report f.head_report [] traversal.visits))
        ]
      ]

  -- FileComparison.has_changes
  unfoldable pub has_changes : Option (Outcome Bool)
  unfolding calculated
  has_changes = elim calculated [
    | none ↦ none
    | some (err e) ↦ some (err e)
    | some (ok (s, lines)) ↦
        some (ok (not (is_zero s.hits) || (not (is_zero s.misses) || not (is_zero s.partials))))
  ]

  -- FileComparison.lines: MAX_DIFF_SIZE is 170.
  unfoldable pub lines_shown : Option (Outcome (Option (List (LineComparison (ReportLine C)))))
  unfolding calculated
  lines_shown =
      if ltb 170 total_diff_length && not f.bypass_max_diff
      then some (ok none)
      else elim calculated [
        | none ↦ none
        | some (err e) ↦ some (err e)
        | some (ok (s, lines)) ↦ some (ok (some lines))
      ]

  -- FileComparison.segments: a diff that is too long has no lines, and enumerate(None) raises.
  unfoldable pub file_segments : Option (Outcome (List (List (LineComparison (ReportLine C)))))
  unfolding lines_shown segments
  file_segments = elim lines_shown [
    | none ↦ none
    | some (err e) ↦ some (err e)
    | some (ok none) ↦ some (err type_error)
    | some (ok (some lines)) ↦ some (ok (segments line_type lines))
  ]
