-- ===== src/Hooks/Updates.antt =====
-- core/managers.py and webhook_handlers/views: the rows that an update of a table writes, told apart
-- by a condition instead of a test.
use codecov_api.Base.{Bool, Bool-cases, List, [], arith, inl, inr, refl, true, ◌↔◌, ◌∷◌, ◌≡◌, ◌⊎◌}
use codecov_api.Hooks.{update_where}

module _ {A : Type 0} (Concerns : A → Type 0) (f : A → A) where
  -- Row for row: the condition concerns a row and it is changed, or it does not and it is the same.
  abbrev pub Updated : List A → List A → Type 0
  Updated [] [] = Unit {0}
  Updated (r ∷ rows) (s ∷ rows') =
      ((Concerns r × (s ≡ f r)) ⊎ ((Concerns r → ⊥) × (s ≡ r))) × Updated rows rows'
  Updated _ _ = ⊥

  pub update_where-Updated :
      (p : A → Bool) (iff : (r : A) → (p r ≡ true) ↔ Concerns r) (rows : List A)
      → Updated rows (update_where p f rows)
  unfolding update_where
  update_where-Updated p iff [] = tt
  update_where-Updated p iff (r ∷ rows) = elim (Bool-cases (p r)) [
    | inl e ↦ rw e (inl ((iff r).0 e, refl), update_where-Updated p iff rows)
    | inr e ↦
        rw e
          (inr ((λ c. absurd (ground (arith, (iff r).1 c))), refl), update_where-Updated p iff rows)
  ]
