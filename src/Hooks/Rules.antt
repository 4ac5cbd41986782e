-- ===== src/Hooks/Rules.antt =====
-- Rules by which a condition on the state is carried through a handler, with or without an
-- exception; and the conditions that the handlers' writes keep.
use codecov_api.Base.{Bool, Option, false, if◌then◌else◌, none, refl, some, true, ◌≡◌}
use codecov_api.Store.{Error, Exec, Outcome, World, does_not_exist, err, ok, pure, raise, ◌>>=◌}
use codecov_api.Hooks.{Reply, accept, attempt, found, need, or_404, respond}

abbrev pub After :
    {A : Type 0} → (A → World → Type 0) → (World → Type 0) → Outcome A × World → Type 0
After Q E (ok a, w) = Q a w
After Q E (err e, w) = E w

-- From a state in which `P` holds, a result satisfies `Q`, and an exception leaves `E`.
pub record Holds {A : Type 0} (P : World → Type 0) (m : Exec A) (Q : A → World → Type 0)
    (E : World → Type 0) : Type 0 where
  pub run : (w : World) → P w → After Q E (m w)

abbrev pub Keeps : {A : Type 0} → (World → Type 0) → Exec A → Type 0
Keeps I m = Holds I m (λ _. I) I

after_bind :
    {A B : Type 0} (M : A → World → Type 0) (Q : B → World → Type 0) (E : World → Type 0)
    (f : A → Exec B) (r : Outcome A × World)
    → After M E r
    → ((a : A) → Holds (M a) (f a) Q E)
    → After Q E (elim r.0 as (λ _. Outcome B × World) [ ok a ↦ f a r.1 | err e ↦ (err e, r.1) ])
after_bind M Q E f (ok a, v) h k = (k a).run v h
after_bind M Q E f (err e, v) h k = h

after_attempt :
    {A : Type 0} (Q : Option A → World → Type 0) (E : World → Type 0) (r : Outcome A × World)
    → After (λ a. Q (some a)) E r
    → ((w : World) → E w → Q none w)
    → After Q E (found r.0, r.1)
after_attempt Q E (ok a, v) h k = h
after_attempt Q E (err e, v) h k = elim e as (λ e. After Q E (found (err e), v)) [
  | does_not_exist ↦ k v h
  | _ ↦ h
]

module _ {A : Type 0} {E : World → Type 0} where
  pub Holds-bind :
      {B : Type 0} {P : World → Type 0} (M : A → World → Type 0) {Q : B → World → Type 0}
      (m : Exec A) (f : A → Exec B)
      → Holds P m M E
      → ((a : A) → Holds (M a) (f a) Q E)
      → Holds P (m >>= f) Q E
  Holds-bind M {Q} m f h k = record { run = λ w p. after_bind M Q E f (m w) (h.run w p) k }

  pub Holds-attempt :
      {P : World → Type 0} (Q : Option A → World → Type 0) (m : Exec A)
      → Holds P m (λ a. Q (some a)) E
      → ((w : World) → E w → Q none w)
      → Holds P (attempt m) Q E
  Holds-attempt Q m h k = record { run = λ w p. after_attempt Q E (m w) (h.run w p) k }

  pub Holds-if :
      {P : World → Type 0} {Q : A → World → Type 0} (b : Bool) (m n : Exec A)
      → (b ≡ true → Holds P m Q E)
      → (b ≡ false → Holds P n Q E)
      → Holds P (if b then m else n) Q E
  Holds-if true m n h k = h refl
  Holds-if false m n h k = k refl

after_read :
    {A : Type 0} (I : World → Type 0) (r : Outcome A) (w : World) → I w → After (λ _. I) I (r, w)
after_read I (ok a) w i = i
after_read I (err e) w i = i

pub after_if :
    {A : Type 0} (Q : A → World → Type 0) (E : World → Type 0) (b : Bool) (x y : Outcome A × World)
    → After Q E x
    → After Q E y
    → After Q E (if b then x else y)
after_if Q E true x y h k = h
after_if Q E false x y h k = k

module _ {I : World → Type 0} where
  pub Keeps-bind :
      {A B : Type 0} (m : Exec A) (f : A → Exec B)
      → Keeps I m
      → ((a : A) → Keeps I (f a))
      → Keeps I (m >>= f)
  Keeps-bind m f h k = Holds-bind (λ _. I) m f h k

  pub Keeps-attempt : {A : Type 0} (m : Exec A) → Keeps I m → Keeps I (attempt m)
  Keeps-attempt m h = Holds-attempt (λ _. I) m h (λ w i. i)

  pub Keeps-if :
      {A : Type 0} (b : Bool) (m n : Exec A) → Keeps I m → Keeps I n → Keeps I (if b then m else n)
  Keeps-if b m n h k = Holds-if b m n (λ _. h) (λ _. k)

  pub Keeps-need : {A : Type 0} (a : Option A) → Keeps I (need a)
  Keeps-need none = record { run = λ w i. i }
  Keeps-need (some a) = record { run = λ w i. i }

  pub Keeps-or_404 : {A : Type 0} (a : Option A) → Keeps I (or_404 a)
  Keeps-or_404 none = record { run = λ w i. i }
  Keeps-or_404 (some a) = record { run = λ w i. i }

  pub Keeps-pure : {A : Type 0} (a : A) → Keeps I (pure a)
  Keeps-pure a = record { run = λ w i. i }

  pub Keeps-raise : {A : Type 0} (e : Error) → Keeps I (raise {A = A} e)
  Keeps-raise e = record { run = λ w i. i }

  pub Keeps-one : {A : Type 0} (f : World → Outcome A) → Keeps I (λ w. (f w, w))
  Keeps-one f = record { run = λ w i. after_read I (f w) w i }

  pub Keeps-option :
      {A B : Type 0} (o : Option A) {m : Exec B} {f : A → Exec B}
      → Keeps I m
      → ((a : A) → Keeps I (f a))
      → Keeps I (elim o as (λ _. Exec B) [ none ↦ m | some a ↦ f a ])
  Keeps-option none h k = h
  Keeps-option (some a) h k = k a

  pub Keeps-skip : Keeps I (pure tt)
  Keeps-skip = record { run = λ w i. i }

  pub Keeps-respond : (r : Reply) → Keeps I (respond r)
  Keeps-respond r = record { run = λ w i. i }

  pub Keeps-accept : Keeps I accept
  Keeps-accept = record { run = λ w i. i }
