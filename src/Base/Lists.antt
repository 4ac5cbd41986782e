-- ===== src/Base/Lists.antt =====
-- Lists measured, indexed and searched with native numbers.
use Prim.Native.Nat.{ℕ, zero, suc, ◌+◌, ◌≤◌}
use mathlib.Core.Path.{◌≡◌, refl}
use mathlib.Core.Bool.{Bool, false, true, ◌||◌}
use mathlib.Core.Option.{Option, none, some}
use mathlib.Core.List.{List, [], ◌∷◌, ◌++◌}
use native.Mathlib.Omega.{arith}
use mathlib.Core.Logic.{inl, inr, ◌⊎◌, ◌↔◌}
use codecov_api.Base.Tests.{==_iff, Bool-cases, either_iff, if◌then◌else◌, ◌==◌}

module _ {ℓ} {A : Type ℓ} where
  abbrev pub length : List A → ℕ
  length [] = 0
  length (x ∷ xs) = suc (length xs)

  abbrev pub get_elem? : List A → ℕ → Option A
  get_elem? [] i = none
  get_elem? (x ∷ xs) zero = some x
  get_elem? (x ∷ xs) (suc i) = get_elem? xs i

  -- The elements that pass a Boolean test, in order.
  abbrev pub select : (A → Bool) → List A → List A
  select p [] = []
  select p (x ∷ xs) = if p x then x ∷ select p xs else select p xs

  -- Python's `any` and `all` over a list.
  abbrev pub any : (A → Bool) → List A → Bool
  any p [] = false
  any p (x ∷ xs) = p x || any p xs

  abbrev pub All {κ} : (A → Type κ) → List A → Type κ
  All P [] = Unit
  All P (x ∷ xs) = P x × All P xs

  pub length-append : (xs ys : List A) → length (xs ++ ys) ≡ length xs + length ys
  length-append [] ys = omega arith
  length-append (x ∷ xs) ys = omega (arith, length-append xs ys)

  pub length-select-le : (p : A → Bool) (xs : List A) → length (select p xs) ≤ length xs
  length-select-le p [] = omega arith
  length-select-le p (x ∷ xs) = ground (arith, length-select-le p xs)

pub All-select {ℓ κ} :
    {A : Type ℓ} (P : A → Type κ) (p : A → Bool) (xs : List A) → All P xs → All P (select p xs)
All-select P p [] h = tt
All-select P p (x ∷ xs) h = elim (Bool-cases (p x)) [
  | inl e ↦ rw e (h.0, All-select P p xs h.1)
  | inr e ↦ rw e (All-select P p xs h.1)
]

pub All-append {ℓ κ} :
    {A : Type ℓ} (P : A → Type κ) (xs : List A) (y : A) → All P xs → P y → All P (xs ++ y ∷ [])
All-append P [] y a b = (b, tt)
All-append P (x ∷ xs) y (a, as') b = (a, All-append P xs y as' b)

-- `n in xs`.
abbrev pub mem : ℕ → List ℕ → Bool
mem n [] = false
mem n (x ∷ xs) = (n == x) || mem n xs

-- `list.remove`, with the ValueError of a missing element swallowed: the first one goes.
abbrev pub erase : ℕ → List ℕ → List ℕ
erase n [] = []
erase n (x ∷ xs) = if n == x then xs else x ∷ erase n xs

pub mem-append : (n : ℕ) (xs ys : List ℕ) → mem n (xs ++ ys) ≡ (mem n xs || mem n ys)
mem-append n [] ys = refl
mem-append n (x ∷ xs) ys = ground (arith, mem-append n xs ys)

pub mem-erase_ne : (n m : ℕ) (xs : List ℕ) → (m == n) ≡ false → mem m (erase n xs) ≡ mem m xs
mem-erase_ne n m [] h = refl
mem-erase_ne n m (x ∷ xs) h = ground (arith, mem-erase_ne n m xs h)

abbrev pub IsIn : {A : Type 0} → A → List A → Type 0
IsIn a [] = ⊥
IsIn a (x ∷ xs) = (a ≡ x) ⊎ IsIn a xs

pub mem_iff : (n : ℕ) (ns : List ℕ) → (mem n ns ≡ true) ↔ IsIn n ns
mem_iff n [] = ((λ h. cc), (λ h. absurd h))
mem_iff n (x ∷ xs) = either_iff (n == x) (mem n xs) (==_iff n x) (mem_iff n xs)
