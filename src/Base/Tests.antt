-- ===== src/Base/Tests.antt =====
-- Boolean tests on the native numbers, the conditional, and Python's truth values.
use Prim.Native.Nat.{ℕ, zero, suc, compare, Ordering}
use Prim.Native.String.{String}
use mathlib.Core.Path.{◌≡◌, refl}
use mathlib.Core.Logic.{◌⊎◌, inl, inr, ◌↔◌}
use mathlib.Core.Bool.{Bool, true, false, not, ◌&&◌, ◌||◌}
use mathlib.Core.Option.{Option, none, some}
use native.Mathlib.Omega.{arith}
use text.Mathlib.Text.{◌==◌ as str_eq}

abbrev pub ltb : ℕ → ℕ → Bool
ltb a b = elim (compare a b) [ Ordering.lt ↦ true | _ ↦ false ]

abbrev pub leb : ℕ → ℕ → Bool
leb a b = elim (compare a b) [ Ordering.gt ↦ false | _ ↦ true ]

infix 50 ◌==◌
abbrev pub ◌==◌ : ℕ → ℕ → Bool
a == b = elim (compare a b) [ Ordering.eq ↦ true | _ ↦ false ]

infix 1 if◌then◌else◌
abbrev pub if◌then◌else◌ {ℓ} : {A : Type ℓ} → Bool → A → A → A
if true then x else y = x
if false then x else y = y

pub Bool-cases : (b : Bool) → (b ≡ true) ⊎ (b ≡ false)
Bool-cases true = inl refl
Bool-cases false = inr refl

pub neither : (a b : Bool) → (a || b) ≡ false → (a ≡ false) × (b ≡ false)
neither true b h = cc
neither false b h = (refl, h)

pub both : (a b : Bool) → (a && b) ≡ true → (a ≡ true) × (b ≡ true)
both true b h = (refl, h)
both false b h = cc

pub Option-cases {ℓ} : {A : Type ℓ} (o : Option A) → (o ≡ none) ⊎ ((a : A) × (o ≡ some a))
Option-cases none = inl refl
Option-cases (some a) = inr (a, refl)

pub ==_iff : (a b : ℕ) → ((a == b) ≡ true) ↔ (a ≡ b)
==_iff a b = ground arith

pub some-injective {ℓ} : {A : Type ℓ} {a b : A} → some a ≡ some b → a ≡ b
some-injective e = cc

-- The truth value of a nullable text: neither None nor empty.
abbrev pub truthy : Option String → Bool
truthy none = false
truthy (some s) = not (str_eq s "")

-- The truth value of a nullable number: neither None nor 0.
abbrev pub nonzero : Option ℕ → Bool
nonzero none = false
nonzero (some zero) = false
nonzero (some (suc n)) = true

abbrev pub is_some {ℓ} : {A : Type ℓ} → Option A → Bool
is_some none = false
is_some (some a) = true

-- A nullable Boolean used as a test.
abbrev pub is_true : Option Bool → Bool
is_true none = false
is_true (some b) = b

-- x == y on two nullable texts.
abbrev pub opt_str_eq : Option String → Option String → Bool
opt_str_eq none none = true
opt_str_eq none (some t) = false
opt_str_eq (some s) none = false
opt_str_eq (some s) (some t) = str_eq s t

-- x == y on two nullable numbers.
abbrev pub opt_eq : Option ℕ → Option ℕ → Bool
opt_eq none none = true
opt_eq none (some n) = false
opt_eq (some m) none = false
opt_eq (some m) (some n) = m == n

-- x == y on two Booleans.
abbrev pub same_bool : Bool → Bool → Bool
same_bool true b = b
same_bool false b = not b

-- `x is False`
abbrev pub opt_false : Option Bool → Bool
opt_false none = false
opt_false (some b) = not b

-- Tests and the conditions that they decide.
pub and_iff {ℓ κ} :
    {A : Type ℓ} {B : Type κ} (a b : Bool)
    → (a ≡ true) ↔ A
    → (b ≡ true) ↔ B
    → ((a && b) ≡ true) ↔ (A × B)
and_iff true b p q = ((λ h. (p.0 refl, q.0 h)), (λ h. q.1 h.1))
and_iff false b p q = ((λ h. cc), (λ h. p.1 h.0))

pub either_iff {ℓ κ} :
    {A : Type ℓ} {B : Type κ} (a b : Bool)
    → (a ≡ true) ↔ A
    → (b ≡ true) ↔ B
    → ((a || b) ≡ true) ↔ (A ⊎ B)
either_iff true b p q = ((λ h. inl (p.0 refl)), (λ h. refl))
either_iff {A = A} {B = B} false b p q = ((λ h. inr (q.0 h)), back)
  where
    back : A ⊎ B → b ≡ true
    back (inl x) = absurd (ground (arith, p.1 x))
    back (inr y) = q.1 y

pub opt_false_iff : (b : Option Bool) → (opt_false b ≡ true) ↔ (b ≡ some false)
opt_false_iff none = ((λ h. cc), (λ h. cc))
opt_false_iff (some true) = ((λ h. cc), (λ h. cc))
opt_false_iff (some false) = ((λ h. refl), (λ h. refl))
