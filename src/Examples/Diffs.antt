-- ===== src/Examples/Diffs.antt =====
-- The traversal of a file whose second line was changed.
use codecov_api.Base.{List, Option, [], arith, false, inl, inr, none, refl, some, true, ℕ, ◌∷◌, ◌≡◌}
use codecov_api.Compare.{File, Segment, apply, finished, init, visit}
use codecov_api.Compare.Reference.{Laid, segments_of}
use codecov_api.Compare.Lines.{create_lines, create_lines-apply}
use codecov_api.Compare.Whole.{apply-expected}

abbrev pub file : File
file = record { head_file_eof = 5; base_file_eof = 5; src = [] }

abbrev pub edit : Segment
edit = record {
  base_start = 2;
  base_count = some 2;
  head_start = 2;
  head_count = some 2;
  lines = "-old" ∷ "+new" ∷ "same" ∷ [];
}

abbrev diff : List (ℕ × Segment)
diff = (1, edit) ∷ []

laid : Laid (init (segments_of diff)).base_ln (init (segments_of diff)).head_ln diff
unfolding init
laid = (
  λ e. absurd (ground arith),
  inl (omega arith),
  inl (omega arith),
  inr (omega arith, omega arith),
  inr (omega arith, omega arith),
  tt,
)

apply-expected_example : apply 9 file (init (edit ∷ [])) ≡ record {
  visits =
      visit 1 1 none false
      ∷ visit 2 2 (some "-old") true
      ∷ visit 3 2 (some "+new") true
      ∷ visit 3 3 (some "same") true
      ∷ visit 4 4 none false
      ∷ [];
  ending = finished;
}
unfolding init
apply-expected_example = apply-expected file refl diff 9 laid (unfold init in omega arith)

-- A report of the head file with one covered line.
abbrev head_report : Option (List (Option ℕ))
head_report = some (none ∷ some 1 ∷ [])

create_lines-apply_example :
    create_lines (λ n. n) none head_report [] (apply 9 file (init (segments_of diff))).visits
    ≡ record {
      base_line = none;
      head_line = none;
      base_number = some 2;
      head_number = none;
      line_value = "-old";
      in_diff = true;
      added = false;
      removed = true;
    }
      ∷ record {
        base_line = none;
        head_line = some 1;
        base_number = none;
        head_number = some 2;
        line_value = "+new";
        in_diff = true;
        added = true;
        removed = false;
      }
      ∷ record {
        base_line = none;
        head_line = none;
        base_number = some 3;
        head_number = some 3;
        line_value = "same";
        in_diff = true;
        added = false;
        removed = false;
      }
      ∷ []
unfolding init
create_lines-apply_example =
    create_lines-apply (λ n. n) none head_report file diff 9 refl laid (omega arith)
