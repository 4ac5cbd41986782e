-- ===== src/Paths/Prefix.antt =====
-- services/path.py: the texts of the paths. What is left of a path below its directory, and its
-- first part.
use Prim.Native.Char.{Char, code}
use Prim.Native.Nat.{Ordering, compare}
use Prim.Native.String.{count}
use text.Mathlib.Text.{starts_with}
use text.Mathlib.TextEquality.{starts_with_iff, codes_equal}
use text.Mathlib.TextLemmas.{nil-append, cons-append, length-cons, cons≢nil, append-eq-nil_iff}
use codecov_api.Base.{
  Bool-cases, List, String, [], ap, arith, false, if◌then◌else◌, inl, inr, join, length, refl, skip,
  split, str_eq, subst, suc, sym, true, widen, ◌<◌, ◌==◌, ◌∙◌, ◌∷◌, ◌≡◌, ◌≢◌, ◌⊎◌,
}
use codecov_api.Paths.{first_part, relative_path, replace_first}

skip-join : (p r : String) → skip (count p) (join p r) ≡ r
skip-join String.[] r = nil-append r
skip-join (String.◌∷◌ c p) r = rw (length-cons c p, cons-append c p r) (skip-join p r)

starts_with-join : (p r : String) → starts_with (join p r) p ≡ true
starts_with-join p r = (starts_with_iff (join p r) p).1 (r, refl)

replace_first-front :
    (c : Char) (s old : String)
    → starts_with (String.◌∷◌ c s) old ≡ true
    → replace_first (String.◌∷◌ c s) old ≡ skip (count old) (String.◌∷◌ c s)
unfolding replace_first
replace_first-front c s old h = rw (h, replace_first) refl

-- Taking away a text at the front leaves the rest.
pub replace_first-join : (p r : String) → p ≢ "" → replace_first (join p r) p ≡ r
replace_first-join String.[] r h = absurd (h refl)
replace_first-join (String.◌∷◌ c p) r h =
    subst (λ s. replace_first s (String.◌∷◌ c p) ≡ r) (sym (cons-append c p r))
      (replace_first-front c (join p r) (String.◌∷◌ c p) (
          subst (λ s. starts_with s (String.◌∷◌ c p) ≡ true) (cons-append c p r)
            (starts_with-join (String.◌∷◌ c p) r))
        ∙ subst (λ s. skip (count (String.◌∷◌ c p)) s ≡ r) (cons-append c p r)
            (skip-join (String.◌∷◌ c p) r))

-- The text that stands between a directory and what is in it.
abbrev pub inside : String → String
inside prefix = if str_eq prefix "" then "" else join prefix "/"

-- A path that is below its prefix is the prefix and the relative path.
pub join_ne : (prefix : String) → join prefix "/" ≢ ""
join_ne prefix e = cons≢nil (append-eq-nil_iff.0 e).1

pub relative_path-below :
    (prefix r : String)
    → relative_path (record { full_path = join (inside prefix) r; prefix = prefix }) ≡ r
unfolding relative_path
relative_path-below prefix r = elim (Bool-cases (str_eq prefix "")) [
  | inl e ↦ rw e (nil-append r)
  | inr e ↦ rw e (replace_first-join (join prefix "/") r (join_ne prefix))
]

-- The name of an entry and what is left of the path below it.
abbrev pub Split : String → Type 0
Split r =
    ((length (split b'/' r) ≡ 1) × (r ≡ first_part r))
    ⊎ ((rest : String) × ((length (split b'/' r) == 1) ≡ false)
        × (r ≡ join (first_part r) (join "/" rest))
        × (count rest < count r))

split-slash :
    (c : Char) (s : String)
    → (code c == b'/') ≡ true
    → split b'/' (String.◌∷◌ c s) ≡ "" ∷ split b'/' s
split-slash c s e = rw (e, split) refl

split-other :
    (c : Char) (s : String)
    → (code c == b'/') ≡ false
    → split b'/' (String.◌∷◌ c s) ≡ widen (String.◌∷◌ c String.[]) (split b'/' s)
split-other c s e = rw (e, split) refl

first_part-slash :
    (c : Char) (s : String) → (code c == b'/') ≡ true → first_part (String.◌∷◌ c s) ≡ ""
unfolding first_part
first_part-slash c s e = rw (e, first_part) refl

first_part-other :
    (c : Char) (s : String)
    → (code c == b'/') ≡ false
    → first_part (String.◌∷◌ c s) ≡ String.◌∷◌ c (first_part s)
unfolding first_part
first_part-other c s e = rw (e, first_part) refl

abbrev slash : Char
slash = "/"

is_slash : (c : Char) → (code c == b'/') ≡ true → compare (code c) (code slash) ≡ Ordering.eq
is_slash c e = ground arith

plain : (s : String) → join "" (join "/" s) ≡ String.◌∷◌ slash s
plain s = nil-append (join "/" s) ∙ cons-append slash "" s ∙ ap (String.◌∷◌ slash) (nil-append s)

split-cons : (s : String) → (h : String) × (t : List String) × (split b'/' s ≡ h ∷ t)
split-cons String.[] = ("", [], refl)
split-cons (String.◌∷◌ c s) = elim (Bool-cases (code c == b'/')) [
  | inl e ↦ ("", split b'/' s, split-slash c s e)
  | inr e ↦
      let (h, t, q) = split-cons s in
      (
        join (String.◌∷◌ c String.[]) h,
        t,
        split-other c s e ∙ ap (widen (String.◌∷◌ c String.[])) q,
      )
]

length-split_other :
    (c : Char) (s : String)
    → (code c == b'/') ≡ false
    → length (split b'/' (String.◌∷◌ c s)) ≡ length (split b'/' s)
length-split_other c s e =
    let (h, t, q) = split-cons s in
    ap length (split-other c s e)
    ∙ subst (λ ss. length (widen (String.◌∷◌ c String.[]) ss) ≡ length ss) (sym q) refl

Split-slash : (c : Char) (s : String) → (code c == b'/') ≡ true → Split (String.◌∷◌ c s)
Split-slash c s e =
    let (h, t, q) = split-cons s in
    inr (
      s,
      ap (λ ss. length ss == 1) (split-slash c s e)
          ∙ subst (λ ss. (suc (length ss) == 1) ≡ false) (sym q) (ground arith),
      subst (λ f. String.◌∷◌ c s ≡ join f (join "/" s)) (sym (first_part-slash c s e))
          (ap (λ d. String.◌∷◌ d s) (codes_equal c slash (is_slash c e)) ∙ sym (plain s)),
      subst (λ n. count s < n) (sym (length-cons c s)) (omega arith),
    )

Split-other : (c : Char) (s : String) → (code c == b'/') ≡ false → Split s → Split (String.◌∷◌ c s)
Split-other c s e (inl (one, whole)) =
    inl (length-split_other c s e ∙ one, ap (String.◌∷◌ c) whole ∙ sym (first_part-other c s e))
Split-other c s e (inr (rest, many, whole, less)) = inr (
  rest,
  ap (λ n. n == 1) (length-split_other c s e) ∙ many,
  subst (λ f. String.◌∷◌ c s ≡ join f (join "/" rest)) (sym (first_part-other c s e))
      (ap (String.◌∷◌ c) whole ∙ sym (cons-append c (first_part s) (join "/" rest))),
  subst (λ n. count rest < n) (sym (length-cons c s)) (omega (arith, less)),
)

pub first_part-Split : (r : String) → Split r
unfolding first_part
first_part-Split String.[] = inl (refl, refl)
first_part-Split (String.◌∷◌ c s) = elim (Bool-cases (code c == b'/')) [
  | inl e ↦ Split-slash c s e
  | inr e ↦ Split-other c s e (first_part-Split s)
]
