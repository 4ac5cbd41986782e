-- ===== src/Compare/Walk.antt =====
-- services/comparison.py: a traversal without source text visits what the diff says.
use codecov_api.Base.{
  Bool, Bool-cases, List, Option, String, [], ap, arith, false, if◌then◌else◌, inl, inr, length,
  none, refl, some, subst, suc, true, zero, ℕ, ◌++◌, ◌+◌, ◌<◌, ◌∙◌, ◌∷◌, ◌≡◌,
}
use codecov_api.Store.{ok}
use codecov_api.Compare.{
  File, Segment, Trace, Traversal, Visit, advance, apply, cons_visit, drop_empty, in_segment,
  is_added, is_removed, pop_line, step, traverse_finished, traversing_diff, visit, width, within,
}
use codecov_api.Compare.Reference.{Side, base_lines, head_lines, hunk}

abbrev pub prepend : List Visit → Trace → Trace
prepend vs r = record r { visits = vs ++ r.visits }

abbrev pub at : List Segment → ℕ → ℕ → Traversal
at segments b h = record { segments = segments; base_ln = b; head_ln = h }

pub apply-step :
    (f : File) (t t' : Traversal) (v : Visit) (n : ℕ)
    → traverse_finished f t ≡ false
    → step f t ≡ ok (v, t')
    → apply (suc n) f t ≡ cons_visit v (apply n f t')
unfolding apply
apply-step f t t' v n going next = rw (going, next, apply)

abbrev next_base : String → ℕ → ℕ
next_base l b = if is_added (some l) then b else b + 1

abbrev next_head : String → ℕ → ℕ
next_head l h = if is_added (some l) then h + 1 else if is_removed (some l) then h else h + 1

zero_add : (n : ℕ) → 0 + n ≡ n
zero_add n = omega arith

advance_hunk :
    (added removed : Bool) (segments : List Segment) (b h : ℕ)
    → (if added
        then at segments b (h + 1)
        else if removed
        then at segments (b + 1) h
        else at segments (b + 1) (h + 1))
      ≡ at segments
          (if added then b else b + 1)
          (if added then h + 1 else if removed then h else h + 1)
advance_hunk true removed segments b h = refl
advance_hunk false true segments b h = refl
advance_hunk false false segments b h = refl

next_base_lem : (l : String) (b : ℕ) → next_base l b ≡ b + base_lines (l ∷ [])
next_base_lem l b = elim (Bool-cases (is_added (some l))) [
  | inl e ↦ rw e (omega arith)
  | inr e ↦ rw e (omega arith)
]

next_head_lem : (l : String) (h : ℕ) → next_head l h ≡ h + head_lines (l ∷ [])
next_head_lem l h = elim (Bool-cases (is_added (some l))) [
  | inl e ↦ rw e (omega arith)
  | inr e ↦ elim (Bool-cases (is_removed (some l))) [
    | inl e' ↦ rw e (rw e' (omega arith))
    | inr e' ↦ rw e (rw e' (omega arith))
  ]
]

-- Every line of a hunk stands in at least one of the files.
lines_pos : (l : String) (ls : List String) → 0 < base_lines (l ∷ ls) + head_lines (l ∷ ls)
lines_pos l ls = elim (Bool-cases (is_added (some l))) [
  | inl e ↦ rw e (omega arith)
  | inr e ↦ rw e (omega arith)
]

Side-within : (start count ln n : ℕ) → Side start count ln n → 0 < n → within start count ln ≡ true
Side-within start count ln n (inl e) p = absurd (omega arith)
Side-within start count ln n (inr e) p = ground arith

Side-next :
    (start count ln ln' n k : ℕ)
    → Side start count ln (k + n)
    → ln' ≡ ln + k
    → Side start count ln' n
Side-next start count ln ln' n k (inl e) p = inl (omega arith)
Side-next start count ln ln' n k (inr (e, e')) p = inr (omega arith, omega arith)

inside :
    (s : Segment) (b h nb nh : ℕ)
    → Side s.base_start (width s.base_count) b nb
    → Side s.head_start (width s.head_count) h nh
    → 0 < nb + nh
    → in_segment s b h ≡ true
inside s b h zero nh p q r =
    rw (Side-within s.head_start (width s.head_count) h nh q (omega arith)) (ground arith)
inside s b h (suc nb) nh p q r =
    rw (Side-within s.base_start (width s.base_count) b (suc nb) p (omega arith))

base_rest :
    (s : Segment) (l l' : String) (ls : List String) (b : ℕ)
    → Side s.base_start (width s.base_count) b (base_lines (l ∷ l' ∷ ls))
    → Side s.base_start (width s.base_count) b (base_lines (l ∷ []) + base_lines (l' ∷ ls))
base_rest s l l' ls b p =
    let same : base_lines (l ∷ l' ∷ ls) ≡ base_lines (l ∷ []) + base_lines (l' ∷ ls) =
      omega arith in
    subst (λ k. Side s.base_start (width s.base_count) b k) same p

head_rest :
    (s : Segment) (l l' : String) (ls : List String) (h : ℕ)
    → Side s.head_start (width s.head_count) h (head_lines (l ∷ l' ∷ ls))
    → Side s.head_start (width s.head_count) h (head_lines (l ∷ []) + head_lines (l' ∷ ls))
head_rest s l l' ls h p =
    let same : head_lines (l ∷ l' ∷ ls) ≡ head_lines (l ∷ []) + head_lines (l' ∷ ls) =
      omega arith in
    subst (λ k. Side s.head_start (width s.head_count) h k) same p

next_base_rest :
    (l l' : String) (ls : List String) (b : ℕ)
    → next_base l b + base_lines (l' ∷ ls) ≡ b + base_lines (l ∷ l' ∷ ls)
next_base_rest l l' ls b = omega (arith, next_base_lem l b)

next_head_rest :
    (l l' : String) (ls : List String) (h : ℕ)
    → next_head l h + head_lines (l' ∷ ls) ≡ h + head_lines (l ∷ l' ∷ ls)
next_head_rest l l' ls h = omega (arith, next_head_lem l h)

module _ (f : File) (no_src : f.src ≡ []) where
  step_lem :
      (t : Traversal) (value : Option String) (segments : List Segment) (diff : Bool)
      → pop_line f t ≡ ok (value, segments)
      → traversing_diff (at segments t.base_ln t.head_ln) ≡ diff
      → step f t ≡ ok (visit t.base_ln t.head_ln value diff, advance t segments value diff)
  unfolding step
  step_lem t value segments diff popped same = rw (popped, same, step)

  pop_hunk :
      (s : Segment) (rest : List Segment) (l : String) (ls : List String) (b h : ℕ)
      → in_segment s b h ≡ true
      → pop_line f (at (record s { lines = l ∷ ls } ∷ rest) b h)
        ≡ ok (some l, record s { lines = ls } ∷ rest)
  unfolding pop_line
  pop_hunk s rest l ls b h inside = rw (inside, pop_line)

  pop_plain :
      (segments : List Segment) (b h : ℕ)
      → traversing_diff (at segments b h) ≡ false
      → pop_line f (at segments b h) ≡ ok (none, segments)
  unfolding pop_line
  pop_plain [] b h outside = rw (no_src, pop_line)
  pop_plain (s ∷ rest) b h outside = rw (outside, no_src, pop_line)

  -- One line of a hunk.
  step_hunk :
      (s : Segment) (rest : List Segment) (l : String) (ls : List String) (b h : ℕ)
      → in_segment s b h ≡ true
      → step f (at (record s { lines = l ∷ ls } ∷ rest) b h)
        ≡ ok (
          visit b h (some l) true,
          at (drop_empty (record s { lines = ls } ∷ rest)) (next_base l b) (next_head l h),
        )
  unfolding traversing_diff
  step_hunk s rest l ls b h inside =
      step_lem (at (record s { lines = l ∷ ls } ∷ rest) b h) (some l)
        (record s { lines = ls } ∷ rest) true (pop_hunk s rest l ls b h inside) inside
      ∙ ap (λ (x : Traversal). ok (visit b h (some l) true, x))
          (advance_hunk (is_added (some l)) (is_removed (some l))
            (drop_empty (record s { lines = ls } ∷ rest)) b h)

  -- One line outside the hunks.
  pub step_plain :
      (segments : List Segment) (b h : ℕ)
      → traversing_diff (at segments b h) ≡ false
      → drop_empty segments ≡ segments
      → step f (at segments b h) ≡ ok (visit b h none false, at segments (b + 1) (h + 1))
  step_plain segments b h outside full =
      step_lem (at segments b h) none segments false (pop_plain segments b h outside) outside
      ∙ rw full

  first_line :
      (s : Segment) (rest : List Segment) (l : String) (ls : List String) (b h fuel : ℕ)
      → Side s.base_start (width s.base_count) b (base_lines (l ∷ ls))
      → Side s.head_start (width s.head_count) h (head_lines (l ∷ ls))
      → apply (suc fuel) f (at (record s { lines = l ∷ ls } ∷ rest) b h)
        ≡ cons_visit (visit b h (some l) true) (
            apply fuel f
              (at (drop_empty (record s { lines = ls } ∷ rest)) (next_base l b) (next_head l h)))
  first_line s rest l ls b h fuel p q =
      apply-step f (at (record s { lines = l ∷ ls } ∷ rest) b h)
        (at (drop_empty (record s { lines = ls } ∷ rest)) (next_base l b) (next_head l h))
        (visit b h (some l) true) fuel (unfold traverse_finished in refl)
        (step_hunk s rest l ls b h
          (inside s b h (base_lines (l ∷ ls)) (head_lines (l ∷ ls)) p q (lines_pos l ls)))

  -- A whole hunk.
  pub walk_hunk :
      (s : Segment) (rest : List Segment) (l : String) (ls : List String) (b h n fuel : ℕ)
      → fuel ≡ length ls + n
      → Side s.base_start (width s.base_count) b (base_lines (l ∷ ls))
      → Side s.head_start (width s.head_count) h (head_lines (l ∷ ls))
      → apply (suc fuel) f (at (record s { lines = l ∷ ls } ∷ rest) b h)
        ≡ prepend
            (hunk b h (l ∷ ls))
            (apply n f (at rest (b + base_lines (l ∷ ls)) (h + head_lines (l ∷ ls))))
  walk_hunk s rest l [] b h n fuel e p q =
      first_line s rest l [] b h fuel p q ∙ rw (next_base_lem l b, next_head_lem l h, e, zero_add n)
  walk_hunk s rest l (l' ∷ ls) b h n zero e p q = absurd (omega arith)
  walk_hunk s rest l (l' ∷ ls) b h n (suc fuel) e p q =
      first_line s rest l (l' ∷ ls) b h (suc fuel) p q
      ∙ ap (cons_visit (visit b h (some l) true)) (
          walk_hunk s rest l' ls (next_base l b) (next_head l h) n fuel (omega arith)
            (Side-next s.base_start (width s.base_count) b (next_base l b) (base_lines (l' ∷ ls))
              (base_lines (l ∷ [])) (base_rest s l l' ls b p) (next_base_lem l b))
            (Side-next s.head_start (width s.head_count) h (next_head l h) (head_lines (l' ∷ ls))
              (head_lines (l ∷ [])) (head_rest s l l' ls h q) (next_head_lem l h))
          ∙ rw (next_base_rest l l' ls b, next_head_rest l l' ls h))
