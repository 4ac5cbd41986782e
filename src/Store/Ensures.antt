-- ===== src/Store/Ensures.antt =====
-- A rule for each way to build an action: a predicate on the rows of owners is kept, and what is
-- returned satisfies a condition. Both hold of what an action that raises leaves behind.
use codecov_api.Base.{Bool, List, arith, false, if◌then◌else◌, refl, subst, sym, true, ◌≡◌}
use codecov_api.Owner.{Owner}
use codecov_api.Store.{Error, Exec, Outcome, World, err, lift, ok, pure, raise, ◌>>=◌}

pub record Ensures {A : Type 0} (R : List Owner → Type 0) (Q : A → Type 0) (m : Exec A)
    : Type 0 where
  pub kept : (w : World) → R w.owners → R (m w).1.owners
  pub gives : (w : World) (a : A) → R w.owners → (m w).0 ≡ ok a → Q a

abbrev pub Anything : {A : Type 0} → A → Type 0
Anything a = Unit {0}

module _ {A : Type 0} {R : List Owner → Type 0} where
  pub Ensures-pure : (Q : A → Type 0) (a : A) → Q a → Ensures R Q (pure a)
  Ensures-pure Q a q = record { kept = λ w r. r; gives = λ w b r e. subst Q (ground arith) q }

  pub Ensures-raise : (Q : A → Type 0) (e : Error) → Ensures R Q (raise e)
  Ensures-raise Q e = record { kept = λ w r. r; gives = λ w b r h. absurd (ground arith) }

  pub Ensures-lift :
      (Q : A → Type 0) (o : Outcome A) → ((a : A) → o ≡ ok a → Q a) → Ensures R Q (lift o)
  Ensures-lift Q o q = record { kept = λ w r. r; gives = λ w a r e. q a e }

  -- An action that leaves the owners alone.
  pub Ensures-frame :
      (m : Exec A) → ((w : World) → (m w).1.owners ≡ w.owners) → Ensures R Anything m
  Ensures-frame m same = record { kept = λ w r. subst R (sym (same w)) r; gives = λ w a r e. tt }

  pub Ensures-if :
      {Q : A → Type 0} (b : Bool) (m n : Exec A)
      → (b ≡ true → Ensures R Q m)
      → (b ≡ false → Ensures R Q n)
      → Ensures R Q (if b then m else n)
  Ensures-if true m n km kn = km refl
  Ensures-if false m n km kn = kn refl

module _ {A B : Type 0} {R : List Owner → Type 0} (Q : A → Type 0) (S : B → Type 0) where
  after_ok :
      (f : A → Exec B) (o : Outcome A) (v : World)
      → ((a : A) → Q a → Ensures R S (f a))
      → R v.owners
      → ((a : A) → o ≡ ok a → Q a)
      → let r : Outcome B × World = elim o [ ok a ↦ f a v | err e ↦ (err e, v) ] in
        R r.1.owners × ((b : B) → r.0 ≡ ok b → S b)
  after_ok f (ok a) v k r q = ((k a (q a refl)).kept v r, λ b e. (k a (q a refl)).gives v b r e)
  after_ok f (err x) v k r q = (r, λ b e. absurd (ground arith))

  pub Ensures-bind :
      (m : Exec A) (f : A → Exec B)
      → Ensures R Q m
      → ((a : A) → Q a → Ensures R S (f a))
      → Ensures R S (m >>= f)
  Ensures-bind m f km kf = record {
    kept = λ w r. (after_ok f (m w).0 (m w).1 kf (km.kept w r) (λ a e. km.gives w a r e)).0;
    gives =
        λ w b r e. (after_ok f (m w).0 (m w).1 kf (km.kept w r) (λ a h. km.gives w a r h)).1 b e;
  }
