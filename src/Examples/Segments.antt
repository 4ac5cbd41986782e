-- ===== src/Examples/Segments.antt =====
-- A file of eleven lines, of which the first was covered and is no more, and the last was added; and
-- a traversal that does not end.
use codecov_api.Base.{
  List, Option, [], false, negsuc, none, pos, refl, some, suc, true, zero, ℕ, ◌+ℤ◌, ◌∷◌, ◌≡◌,
}
use codecov_api.Store.{ok}
use codecov_api.Compare.{Visit, visit}
use codecov_api.Compare.Lines.{LineComparison}
use codecov_api.Compare.Segments.{
  LineType, ReportLine, hit, is_changed, miss, segment_windows, segmented_lines,
}
use codecov_api.Compare.Segments.Windows.{
  AreApart, holds-segment_windows, holds_index, segment_windows-AreApart,
}
use codecov_api.Compare.Summary.{bump, empty_summary, summarize, summarize_line, update_summary}

-- A coverage of 0 is a miss, all else a hit.
abbrev pub kind : ℕ → Option LineType
kind zero = some miss
kind (suc n) = some hit

abbrev seen : ℕ → ReportLine ℕ
seen c = record { coverage = c; sessions = some ((7, c) ∷ (8, 1) ∷ []) }

abbrev kept : ℕ → ℕ → LineComparison (ReportLine ℕ)
kept b h = record {
  base_line = some (seen b);
  head_line = some (seen h);
  base_number = some 1;
  head_number = some 1;
  line_value = " x";
  in_diff = false;
  added = false;
  removed = false;
}

abbrev fresh : LineComparison (ReportLine ℕ)
fresh = record {
  base_line = none;
  head_line = some (seen 1);
  base_number = none;
  head_number = some 11;
  line_value = "+y";
  in_diff = true;
  added = true;
  removed = false;
}

abbrev lines : List (LineComparison (ReportLine ℕ))
lines =
    kept 1 0
    ∷ kept 1 1
    ∷ kept 1 1
    ∷ kept 1 1
    ∷ kept 1 1
    ∷ kept 1 1
    ∷ kept 1 1
    ∷ kept 1 1
    ∷ kept 1 1
    ∷ kept 1 1
    ∷ fresh
    ∷ []

segment_windows_test : segment_windows kind lines ≡ (0, 3) ∷ (7, 10) ∷ []
unfolding segment_windows segmented_lines is_changed
segment_windows_test = refl

segment_windows-AreApart_example : AreApart 0 11 (segment_windows kind lines)
segment_windows-AreApart_example = segment_windows-AreApart kind lines

holds-segment_windows_example : holds_index 10 (segment_windows kind lines) ≡ true
holds-segment_windows_example =
    holds-segment_windows kind lines 10 fresh refl (unfold is_changed in refl)

-- A report in which the lines have these coverages.
abbrev report : List ℕ → Option (List (Option (ReportLine ℕ)))
report [] = some []
report (c ∷ cs) = elim (report cs) [ none ↦ none | some ls ↦ some (some (seen c) ∷ ls) ]

abbrev visits : List Visit
visits =
    visit 1 1 none false
    ∷ visit 2 2 (some "-old") true
    ∷ visit 3 2 (some "+new") true
    ∷ visit 3 3 (some "same") true
    ∷ []

-- The unchanged line, whose coverage got better, is counted once as a hit and taken off the misses.
summary_test :
    summarize (λ l. l) kind (report (0 ∷ 1 ∷ 1 ∷ [])) (report (1 ∷ 0 ∷ 1 ∷ [])) empty_summary visits
    ≡ ok (record { hits = pos 1; misses = negsuc 0; partials = pos 0 })
unfolding summarize summarize_line update_summary bump ◌+ℤ◌
summary_test = refl
