-- ===== src/Compare/Lines.antt =====
-- services/comparison.py: `CreateLineComparisonVisitor`, and the lines that it makes of a diff.
use codecov_api.Base.{
  Bool, Bool-cases, List, Option, String, [], ap, arith, false, get_elem?, if◌then◌else◌, inl, inr,
  length, max, none, refl, some, suc, sym, true, zero, ℕ, ◌&&◌, ◌++◌, ◌+◌, ◌-◌, ◌<◌, ◌==◌, ◌∙◌, ◌∷◌,
  ◌≡◌,
}
use codecov_api.Compare.{File, Segment, Trace, Visit, apply, init, is_added, is_removed, visit}
use codecov_api.Compare.Whole.{apply-expected}
use codecov_api.Compare.Reference.{Laid, base_lines, expected, head_lines, hunk, plain, segments_of}

-- The report of a file has a stored line or nothing for each line; `decode` gives the line that a
-- stored one stands for, which may be the line itself or its text in JSON.
module _ {A B : Type 0} (decode : A → B) where
  -- FileComparisonVisitor._get_line: the line number 0 reads the last line.
  abbrev pub get_line : Option (List (Option A)) → Option ℕ → Option B
  get_line none ln = none
  get_line (some lines) none = none
  get_line (some lines) (some ln) =
      elim (get_elem? lines (if ln == 0 then length lines - 1 else ln - 1)) [
        | none ↦ none
        | some none ↦ none
        | some (some line) ↦ some (decode line)
      ]

-- LineComparison
pub record LineComparison (B : Type 0) : Type 0 where
  pub base_line : Option B
  pub head_line : Option B
  pub base_number : Option ℕ
  pub head_number : Option ℕ
  pub line_value : String
  pub in_diff : Bool
  pub added : Bool
  pub removed : Bool

module _ {A B : Type 0} (decode : A → B) (base_file head_file : Option (List (Option A))) where
  -- CreateLineComparisonVisitor.__call__
  abbrev pub create_line : List (LineComparison B) → Visit → List (LineComparison B)
  create_line lines v = elim v.value [
    | none ↦ lines
    | some value ↦
        lines
        ++ record {
          base_line = get_line decode base_file v.base;
          head_line = get_line decode head_file v.head;
          base_number = v.base;
          head_number = v.head;
          line_value = value;
          in_diff = v.is_diff;
          added = v.is_diff && is_added (some value);
          removed = v.is_diff && is_removed (some value);
        }
          ∷ []
  ]

  -- The visitor's lines after the calls of a traversal.
  abbrev pub create_lines : List (LineComparison B) → List Visit → List (LineComparison B)
  create_lines lines [] = lines
  create_lines lines (v ∷ vs) = create_lines (create_line lines v) vs

append_nil : {X : Type 0} (xs : List X) → xs ++ [] ≡ xs
append_nil [] = refl
append_nil (x ∷ xs) = ap (λ (k : List _). x ∷ k) (append_nil xs)

append_assoc : {X : Type 0} (xs ys zs : List X) → (xs ++ ys) ++ zs ≡ xs ++ (ys ++ zs)
append_assoc [] ys zs = refl
append_assoc (x ∷ xs) ys zs = ap (λ (k : List _). x ∷ k) (append_assoc xs ys zs)

added_not_removed : (l : String) → is_added (some l) ≡ true → is_removed (some l) ≡ false
added_not_removed String.[] e = refl
added_not_removed (String.◌∷◌ c s) e = ground arith

module _ {A B : Type 0} (decode : A → B) (base_file head_file : Option (List (Option A))) where
  -- The comparison of a line of a diff, which stands at these lines of the two files: an added line
  -- has no side in the base file, and a removed one none in the head file.
  abbrev pub line_of : ℕ → ℕ → String → LineComparison B
  line_of b h l =
      if is_added (some l)
      then record {
        base_line = none;
        head_line = get_line decode head_file (some h);
        base_number = none;
        head_number = some h;
        line_value = l;
        in_diff = true;
        added = true;
        removed = false;
      }
      else if is_removed (some l)
      then record {
        base_line = get_line decode base_file (some b);
        head_line = none;
        base_number = some b;
        head_number = none;
        line_value = l;
        in_diff = true;
        added = false;
        removed = true;
      }
      else record {
        base_line = get_line decode base_file (some b);
        head_line = get_line decode head_file (some h);
        base_number = some b;
        head_number = some h;
        line_value = l;
        in_diff = true;
        added = false;
        removed = false;
      }

  abbrev pub lines_of : ℕ → ℕ → List String → List (LineComparison B)
  lines_of b h [] = []
  lines_of b h (l ∷ ls) =
      line_of b h l
      ∷ lines_of (if is_added (some l) then b else b + 1)
          (if is_added (some l) then h + 1 else if is_removed (some l) then h else h + 1) ls

  -- The comparisons of the lines of all hunks, each behind a number of unchanged lines.
  abbrev pub diff_lines : ℕ → ℕ → List (ℕ × Segment) → List (LineComparison B)
  diff_lines b h [] = []
  diff_lines b h ((gap, s) ∷ ds) =
      lines_of (b + gap) (h + gap) s.lines
      ++ diff_lines (b + gap + base_lines s.lines) (h + gap + head_lines s.lines) ds

  get_line-none : (file : Option (List (Option A))) → get_line decode file none ≡ none
  get_line-none none = refl
  get_line-none (some lines) = refl

  create_line-hunk :
      (ls : List (LineComparison B)) (b h : ℕ) (l : String)
      → create_line decode base_file head_file ls (visit b h (some l) true)
        ≡ ls ++ line_of b h l ∷ []
  create_line-hunk ls b h l = elim (Bool-cases (is_added (some l))) [
    | inl a ↦ rw (a, added_not_removed l a, get_line-none base_file) refl
    | inr n ↦ elim (Bool-cases (is_removed (some l))) [
      | inl r ↦ rw (n, r, get_line-none head_file) refl
      | inr m ↦ rw (n, m) refl
    ]
  ]

  create_lines-append :
      (ls : List (LineComparison B)) (vs us : List Visit)
      → create_lines decode base_file head_file ls (vs ++ us)
        ≡ create_lines decode base_file head_file (create_lines decode base_file head_file ls vs) us
  create_lines-append ls [] us = refl
  create_lines-append ls (v ∷ vs) us =
      create_lines-append (create_line decode base_file head_file ls v) vs us

  create_lines-plain :
      (ls : List (LineComparison B)) (b h n : ℕ)
      → create_lines decode base_file head_file ls (plain b h n) ≡ ls
  create_lines-plain ls b h zero = refl
  create_lines-plain ls b h (suc n) = create_lines-plain ls (b + 1) (h + 1) n

  create_lines-hunk :
      (ls : List (LineComparison B)) (b h : ℕ) (texts : List String)
      → create_lines decode base_file head_file ls (hunk b h texts) ≡ ls ++ lines_of b h texts
  create_lines-hunk ls b h [] = sym (append_nil ls)
  create_lines-hunk ls b h (l ∷ texts) =
      let b' : ℕ = if is_added (some l) then b else b + 1 in
      let h' : ℕ = if is_added (some l) then h + 1 else if is_removed (some l) then h else h + 1 in
      create_lines-hunk (create_line decode base_file head_file ls (visit b h (some l) true)) b' h'
        texts
      ∙ ap (λ (k : List (LineComparison B)). k ++ lines_of b' h' texts) (create_line-hunk ls b h l)
      ∙ append_assoc ls (line_of b h l ∷ []) (lines_of b' h' texts)

  create_lines-expected :
      (f : File) (ls : List (LineComparison B)) (b h : ℕ) (ds : List (ℕ × Segment))
      → create_lines decode base_file head_file ls (expected f b h ds) ≡ ls ++ diff_lines b h ds
  create_lines-expected f ls b h [] =
      create_lines-plain ls b h (max (f.head_file_eof - h) (f.base_file_eof - b))
      ∙ sym (append_nil ls)
  create_lines-expected f ls b h ((gap, s) ∷ ds) =
      let b' : ℕ = b + gap in
      let h' : ℕ = h + gap in
      let b'' : ℕ = b' + base_lines s.lines in
      let h'' : ℕ = h' + head_lines s.lines in
      let rest : List Visit = expected f b'' h'' ds in
      create_lines-append ls (plain b h gap) (hunk b' h' s.lines ++ rest)
      ∙ rw (create_lines-plain ls b h gap) (
          create_lines-append ls (hunk b' h' s.lines) rest
          ∙ rw (create_lines-hunk ls b' h' s.lines) (
              create_lines-expected f (ls ++ lines_of b' h' s.lines) b'' h'' ds
              ∙ append_assoc ls (lines_of b' h' s.lines) (diff_lines b'' h'' ds)))

  -- Where the hunks of a diff are laid out from the traversal's first lines on, with the counts that
  -- their headers state, and the fuel exceeds the number of lines to visit, the line comparisons
  -- that a traversal without source text makes are those of the lines of the diff, each once and in
  -- order. A comparison has the text of its line, its numbers and its stored lines in the two files,
  -- an added line none in the base file and a removed one none in the head file, and says of a line
  -- that it is in the diff, and whether it was added or removed.
  pub create_lines-apply :
      (f : File) (ds : List (ℕ × Segment)) (fuel : ℕ)
      → f.src ≡ []
      → Laid (init (segments_of ds)).base_ln (init (segments_of ds)).head_ln ds
      → length (expected f (init (segments_of ds)).base_ln (init (segments_of ds)).head_ln ds)
        < fuel
      → create_lines decode base_file head_file [] (apply fuel f (init (segments_of ds))).visits
        ≡ diff_lines (init (segments_of ds)).base_ln (init (segments_of ds)).head_ln ds
  create_lines-apply f ds fuel no_src laid enough =
      ap (λ (t : Trace). create_lines decode base_file head_file [] t.visits)
        (apply-expected f no_src ds fuel laid enough)
      ∙ create_lines-expected f [] (init (segments_of ds)).base_ln (init (segments_of ds)).head_ln
          ds
