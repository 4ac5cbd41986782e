-- ===== src/Base/Dictionary.antt =====
-- Python's dictionaries with text keys, as association lists with distinct keys.
use Prim.Native.String.{String}
use mathlib.Core.Path.{◌≡◌, refl, subst₂}
use mathlib.Core.Logic.{inl, inr}
use mathlib.Core.Bool.{Bool, false}
use mathlib.Core.Option.{Option, none, some}
use mathlib.Core.List.{List, [], ◌∷◌}
use native.Mathlib.Omega.{arith}
use text.Mathlib.Text.{◌==◌ as str_eq}
use text.Mathlib.TextEquality.{eq_iff}
use codecov_api.Base.Tests.{Bool-cases, if◌then◌else◌, is_some}
use codecov_api.Base.Lists.{All}

abbrev pub Dict {ℓ} : Type ℓ → Type ℓ
Dict V = List (String × V)

module _ {ℓ} {V : Type ℓ} where
  -- d.get(k)
  unfoldable pub lookup : String → Dict V → Option V
  lookup k [] = none
  lookup k ((j, v) ∷ d) = if str_eq j k then some v else lookup k d

  -- d[k] = v: an old key keeps its place.
  unfoldable pub insert : String → V → Dict V → Dict V
  insert k v [] = (k, v) ∷ []
  insert k v ((j, w) ∷ d) = if str_eq j k then (k, v) ∷ d else (j, w) ∷ insert k v d

  -- c | d: the right operand wins.
  unfoldable pub merge : Dict V → Dict V → Dict V
  unfolding insert
  merge c [] = c
  merge c ((k, v) ∷ d) = merge (insert k v c) d

  -- k in d
  unfoldable pub has_key : String → Dict V → Bool
  unfolding lookup
  has_key k d = is_some (lookup k d)

  pub lookup-insert :
      (k j : String) (v : V) (d : Dict V)
      → lookup j (insert k v d) ≡ (if str_eq k j then some v else lookup j d)
  unfolding lookup insert
  lookup-insert k j v [] = refl
  lookup-insert k j v ((i, w) ∷ d) =
      ground (arith, eq_iff k j, eq_iff i k, eq_iff i j, lookup-insert k j v d)

  -- c.get(k) falling back on d.get(k).
  abbrev pub or_else : Option V → Option V → Option V
  or_else (some v) o = some v
  or_else none o = o

  -- A literal dictionary repeats no key.
  abbrev pub Distinct : Dict V → Type 0
  unfolding has_key
  Distinct [] = Unit
  Distinct ((k, v) ∷ d) = (has_key k d ≡ false) × Distinct d

  pub lookup-merge :
      (c d : Dict V) (j : String)
      → Distinct d
      → lookup j (merge c d) ≡ or_else (lookup j d) (lookup j c)
  unfolding lookup merge has_key
  lookup-merge c [] j h = refl
  lookup-merge c ((k, v) ∷ d) j h =
      ground (arith, lookup-merge (insert k v c) d j h.1, lookup-insert k j v c, eq_iff k j, h.0)

  -- What holds of every entry holds of an entry that is looked up.
  pub lookup-All {κ} :
      (P : String → V → Type κ) (d : Dict V) (k : String) (v : V)
      → All (λ e. P e.0 e.1) d
      → lookup k d ≡ some v
      → P k v
  unfolding lookup
  lookup-All P [] k v a h = cc
  lookup-All P ((j, w) ∷ d) k v a h = elim (Bool-cases (str_eq j k)) [
    | inl e ↦ subst₂ P ((eq_iff j k).0 e) (ground arith) a.0
    | inr e ↦ lookup-All P d k v a.1 (ground arith)
  ]
