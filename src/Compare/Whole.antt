-- ===== src/Compare/Whole.antt =====
-- services/comparison.py: a traversal without source text, from its first to its last line.
use codecov_api.Base.{
  List, String, [], ap, arith, false, if◌then◌else◌, inl, inr, length, length-append, max, none,
  refl, some, subst, suc, true, zero, ℕ, ◌++◌, ◌+◌, ◌-◌, ◌<◌, ◌∙◌, ◌∷◌, ◌≡◌, ◌≢◌, ◌≤◌, ◌⊎◌,
}
use codecov_api.Compare.{
  File, Segment, Traversal, Visit, apply, cons_visit, drop_empty, finished, init, is_added,
  is_removed, traverse_finished, traversing_diff, visit, width, within,
}
use codecov_api.Compare.Reference.{
  Laid, Side, base_lines, expected, head_lines, hunk, plain, segments_of,
}
use codecov_api.Compare.Walk.{apply-step, at, prepend, step_plain, walk_hunk}

abbrev Apart : ℕ → ℕ → ℕ → Type 0
Apart start count end = (end ≤ start) ⊎ (count ≡ 0)

within-Apart :
    (start count ln gap : ℕ) → Apart start count (ln + suc gap) → within start count ln ≡ false
within-Apart start count ln gap (inl p) = ground arith
within-Apart start count ln gap (inr p) = ground arith

outside :
    (s : Segment) (rest : List Segment) (b h gap : ℕ)
    → Apart s.base_start (width s.base_count) (b + suc gap)
    → Apart s.head_start (width s.head_count) (h + suc gap)
    → traversing_diff (at (s ∷ rest) b h) ≡ false
unfolding traversing_diff
outside s rest b h gap p q =
    rw (within-Apart s.base_start (width s.base_count) b gap p)
      (within-Apart s.head_start (width s.head_count) h gap q)

pub drop_full :
    (lines : List String) (s : Segment) (rest : List Segment)
    → s.lines ≡ lines
    → lines ≢ []
    → drop_empty (s ∷ rest) ≡ s ∷ rest
drop_full [] s rest e full = absurd (full refl)
drop_full (l ∷ ls) s rest e full = simp e

Apart-next :
    (start count ln gap : ℕ) → Apart start count (ln + suc gap) → Apart start count (ln + 1 + gap)
Apart-next start count ln gap (inl p) = inl (omega arith)
Apart-next start count ln gap (inr p) = inr p

length-plain : (b h n : ℕ) → length (plain b h n) ≡ n
length-plain b h zero = refl
length-plain b h (suc n) = ap suc (length-plain (b + 1) (h + 1) n)

length-hunk : (b h : ℕ) (ls : List String) → length (hunk b h ls) ≡ length ls
length-hunk b h [] = refl
length-hunk b h (l ∷ ls) = ap suc (
    length-hunk (if is_added (some l) then b else b + 1)
      (if is_added (some l) then h + 1 else if is_removed (some l) then h else h + 1) ls)

length-three :
    (b h gap b' h' : ℕ) (ls : List String) (vs : List Visit)
    → length (plain b h gap ++ (hunk b' h' ls ++ vs)) ≡ gap + (length ls + length vs)
length-three b h gap b' h' ls vs =
    rw
      (
        length-append (plain b h gap) (hunk b' h' ls ++ vs),
        length-append (hunk b' h' ls) vs,
        length-plain b h gap,
        length-hunk b' h' ls,
      )
      refl

init_lem :
    (segments : List Segment)
    → init segments ≡ at segments (init segments).base_ln (init segments).head_ln
unfolding init
init_lem [] = refl
init_lem (s ∷ rest) = refl

module _ (f : File) (no_src : f.src ≡ []) where
  walk_gap :
      (s : Segment) (rest : List Segment) (b h gap b' h' n fuel : ℕ)
      → s.lines ≢ []
      → Apart s.base_start (width s.base_count) (b + gap)
      → Apart s.head_start (width s.head_count) (h + gap)
      → b' ≡ b + gap
      → h' ≡ h + gap
      → fuel ≡ gap + n
      → apply fuel f (at (s ∷ rest) b h) ≡ prepend (plain b h gap) (apply n f (at (s ∷ rest) b' h'))
  walk_gap s rest b h zero b' h' n fuel full p q eb eh e =
      let same_b : b' ≡ b = omega arith in
      let same_h : h' ≡ h = omega arith in
      let same : fuel ≡ n = omega arith in rw (same_b, same_h, same)
  walk_gap s rest b h (suc gap) b' h' n zero full p q eb eh e = absurd (omega arith)
  walk_gap s rest b h (suc gap) b' h' n (suc fuel) full p q eb eh e =
      apply-step f (at (s ∷ rest) b h) (at (s ∷ rest) (b + 1) (h + 1)) (visit b h none false) fuel
        (unfold traverse_finished in refl)
        (step_plain f no_src (s ∷ rest) b h (outside s rest b h gap p q)
          (drop_full s.lines s rest refl full))
      ∙ ap (cons_visit (visit b h none false)) (
          walk_gap s rest (b + 1) (h + 1) gap b' h' n fuel full
            (Apart-next s.base_start (width s.base_count) b gap p)
            (Apart-next s.head_start (width s.head_count) h gap q) (omega arith) (omega arith)
            (omega arith))

  tail_finished :
      (b h : ℕ)
      → max (f.head_file_eof - h) (f.base_file_eof - b) ≡ 0
      → traverse_finished f (at [] b h) ≡ true
  unfolding traverse_finished
  tail_finished b h e = rw no_src (ground arith)

  tail_going :
      (b h k : ℕ)
      → max (f.head_file_eof - h) (f.base_file_eof - b) ≡ suc k
      → traverse_finished f (at [] b h) ≡ false
  unfolding traverse_finished
  tail_going b h k e = rw no_src (ground arith)

  apply-finished :
      (t : Traversal) (n : ℕ)
      → traverse_finished f t ≡ true
      → apply (suc n) f t ≡ record { visits = []; ending = finished }
  unfolding apply
  apply-finished t n done = rw (done, apply)

  walk_tail :
      (b h k n : ℕ)
      → max (f.head_file_eof - h) (f.base_file_eof - b) ≡ k
      → k < n
      → apply n f (at [] b h) ≡ record { visits = plain b h k; ending = finished }
  walk_tail b h zero zero e p = absurd (omega arith)
  walk_tail b h zero (suc n) e p = apply-finished (at [] b h) n (tail_finished b h e)
  walk_tail b h (suc k) zero e p = absurd (omega arith)
  walk_tail b h (suc k) (suc n) e p =
      apply-step f (at [] b h) (at [] (b + 1) (h + 1)) (visit b h none false) n (tail_going b h k e)
        (step_plain f no_src [] b h (unfold traversing_diff in refl) refl)
      ∙ ap (cons_visit (visit b h none false))
          (walk_tail (b + 1) (h + 1) k n (omega arith) (omega arith))

  walk_segment :
      (s : Segment) (rest : List Segment) (b h n fuel : ℕ) (lines : List String)
      → s.lines ≡ lines
      → lines ≢ []
      → fuel ≡ length lines + n
      → Side s.base_start (width s.base_count) b (base_lines lines)
      → Side s.head_start (width s.head_count) h (head_lines lines)
      → apply fuel f (at (s ∷ rest) b h)
        ≡ prepend
            (hunk b h lines)
            (apply n f (at rest (b + base_lines lines) (h + head_lines lines)))
  walk_segment s rest b h n fuel [] e full count p q = absurd (full refl)
  walk_segment s rest b h n zero (l ∷ ls) e full count p q = absurd (omega arith)
  walk_segment s rest b h n (suc fuel) (l ∷ ls) e full count p q =
      let same : s ≡ record s { lines = l ∷ ls } =
        ap (λ (k : List String). record s { lines = k }) e in
      ap (λ (x : Segment). apply (suc fuel) f (at (x ∷ rest) b h)) same
      ∙ walk_hunk f no_src s rest l ls b h n fuel (omega arith) p q

  walk :
      (ds : List (ℕ × Segment)) (b h fuel : ℕ)
      → Laid b h ds
      → length (expected f b h ds) < fuel
      → apply fuel f (at (segments_of ds) b h)
        ≡ record { visits = expected f b h ds; ending = finished }
  walk [] b h fuel laid enough =
      walk_tail b h (max (f.head_file_eof - h) (f.base_file_eof - b)) fuel refl (
        subst (λ k. k < fuel) (length-plain b h (max (f.head_file_eof - h) (f.base_file_eof - b)))
          enough)
  walk ((gap, s) ∷ rest) b h fuel (full, base_gap, head_gap, base_side, head_side, laid) enough =
      let b' : ℕ = b + gap + base_lines s.lines in
      let h' : ℕ = h + gap + head_lines s.lines in
      let long : length (expected f b h ((gap, s) ∷ rest))
          ≡ gap + (length s.lines + length (expected f b' h' rest)) =
        length-three b h gap (b + gap) (h + gap) s.lines (expected f b' h' rest) in
      walk_gap s (segments_of rest) b h gap (b + gap) (h + gap) (fuel - gap) fuel full base_gap
        head_gap refl refl (omega arith)
      ∙ ap (prepend (plain b h gap)) (
          walk_segment s (segments_of rest) (b + gap) (h + gap) (fuel - gap - length s.lines)
            (fuel - gap) s.lines refl full (omega arith) base_side head_side
          ∙ ap (prepend (hunk (b + gap) (h + gap) s.lines))
              (walk rest b' h' (fuel - gap - length s.lines) laid (omega arith)))

  -- Where the hunks of a diff are laid out from the traversal's first lines on, with the counts that
  -- their headers state, and the fuel exceeds the number of lines to visit, a traversal without
  -- source text finishes and calls the visitors for the unchanged lines before each hunk, for the
  -- lines of the hunk (with no base line for an added one, no head line for a removed one) and for
  -- the lines behind the last hunk up to the ends of both files, in this order.
  pub apply-expected :
      (ds : List (ℕ × Segment)) (fuel : ℕ)
      → Laid (init (segments_of ds)).base_ln (init (segments_of ds)).head_ln ds
      → length (expected f (init (segments_of ds)).base_ln (init (segments_of ds)).head_ln ds)
        < fuel
      → apply fuel f (init (segments_of ds)) ≡ record {
        visits = expected f (init (segments_of ds)).base_ln (init (segments_of ds)).head_ln ds;
        ending = finished;
      }
  apply-expected ds fuel laid enough =
      ap (apply fuel f) (init_lem (segments_of ds))
      ∙ walk ds (init (segments_of ds)).base_ln (init (segments_of ds)).head_ln fuel laid enough
