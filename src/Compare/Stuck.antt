-- ===== src/Compare/Stuck.antt =====
-- services/comparison.py: a traversal that has passed its next hunk does not come to an end.
use codecov_api.Base.{
  List, [], ap, arith, false, none, refl, suc, zero, ℕ, ◌+◌, ◌∙◌, ◌∷◌, ◌≡◌, ◌≢◌, ◌≤◌,
}
use codecov_api.Compare.{
  File, Segment, Trace, apply, traverse_finished, traversing_diff, unfinished, visit, width,
}
use codecov_api.Compare.Whole.{drop_full}
use codecov_api.Compare.Walk.{apply-step, at, step_plain}

-- Both lines are behind the hunk.
abbrev pub IsPassed : Segment → ℕ → ℕ → Type 0
IsPassed s b h = (s.base_start + width s.base_count ≤ b) × (s.head_start + width s.head_count ≤ h)

passed_outside :
    (s : Segment) (rest : List Segment) (b h : ℕ)
    → IsPassed s b h
    → traversing_diff (at (s ∷ rest) b h) ≡ false
unfolding traversing_diff
passed_outside s rest b h (p, q) = ground arith

-- Without source text and with a hunk that still has lines but lies behind both lines of the
-- traversal, no amount of fuel is enough: each step visits one more pair of unchanged lines.
pub apply_stuck :
    (f : File) (s : Segment) (rest : List Segment) (b h fuel : ℕ)
    → f.src ≡ []
    → s.lines ≢ []
    → IsPassed s b h
    → (apply fuel f (at (s ∷ rest) b h)).ending ≡ unfinished
apply_stuck f s rest b h zero no_src full p = unfold apply in refl
apply_stuck f s rest b h (suc fuel) no_src full (p, q) =
    ap (λ (r : Trace). r.ending)
      (apply-step f (at (s ∷ rest) b h) (at (s ∷ rest) (b + 1) (h + 1)) (visit b h none false) fuel
        (unfold traverse_finished in refl)
        (step_plain f no_src (s ∷ rest) b h (passed_outside s rest b h (p, q))
          (drop_full s.lines s rest refl full)))
    ∙ apply_stuck f s rest (b + 1) (h + 1) fuel no_src full (omega arith, omega arith)
