-- ===== src/Paths/Tree.antt =====
-- services/path.py: the tree of a directory has the files of the flat list, each once.
use Prim.Native.String.{count}
use text.Mathlib.Text.{starts_with}
use text.Mathlib.TextEquality.{starts_with_iff}
use text.Mathlib.TextLemmas.{nil-append, append-eq-nil_iff, append_assoc as text_assoc}
use codecov_api.Base.{
  All, Bool-cases, List, String, [], ap, arith, eq_iff, false, inl, inr, join, map, refl, str_eq,
  subst, suc, sym, true, ℕ, ◌++◌, ◌<◌, ◌==◌, ◌∙◌, ◌∷◌, ◌≡◌, ◌≢◌, ◌⊎◌,
}
use codecov_api.Paths.{
  Node, Nodes, PrefixedPath, basename, below, cons, dir, file, first_part, is_file, nil,
  relative_path,
}
use codecov_api.Paths.Prefix.{first_part-Split, inside, join_ne, relative_path-below}
use codecov_api.Paths.Groups.{Apart, clash}

-- The files at the leaves.
abbrev mutual
  pub leaves_of : Node → List Node
  leaves_of (file path totals) = file path totals ∷ []
  leaves_of (dir path children) = leaves children

  pub leaves : Nodes → List Node
  leaves nil = []
  leaves (cons n rest) = leaves_of n ++ leaves rest

-- A path that stands below its prefix, with a name there.
abbrev pub IsReady : PrefixedPath → Type 0
IsReady p = (p.full_path ≡ join (inside p.prefix) (relative_path p)) × (basename p ≢ "")

abbrev pub Fits : ℕ → PrefixedPath → Type 0
Fits fuel p = IsReady p × (count (relative_path p) < fuel)

pub basename-eq :
    (p : PrefixedPath) → basename p ≡ join (inside p.prefix) (first_part (relative_path p))
unfolding basename
basename-eq p = elim (Bool-cases (str_eq p.prefix "")) [
  | inl e ↦ rw e (sym (nil-append _))
  | inr e ↦ rw e refl
]

-- A path is the name of its entry, or lies in the directory of that name.
abbrev pub Placed : PrefixedPath → Type 0
Placed p =
    ((is_file p ≡ true) × (p.full_path ≡ basename p))
    ⊎ ((rest : String) × (is_file p ≡ false)
        × (p.full_path ≡ join (basename p) (join "/" rest))
        × (count rest < count (relative_path p)))

pub IsReady-Placed : (p : PrefixedPath) → IsReady p → Placed p
unfolding is_file
IsReady-Placed p (whole, named) = elim (first_part-Split (relative_path p)) [
  | inl (one, same) ↦
      inl (ap (λ n. n == 1) one, whole ∙ ap (join (inside p.prefix)) same ∙ sym (basename-eq p))
  | inr (rest, many, same, less) ↦ inr (
    rest,
    many,
    whole
        ∙ ap (join (inside p.prefix)) same
        ∙ sym (text_assoc (inside p.prefix) (first_part (relative_path p)) (join "/" rest))
        ∙ ap (λ b. join b (join "/" rest)) (sym (basename-eq p)),
    less,
  )
]

-- A file has a clash with every path in a directory of its name, and with itself.
file-clash :
    (f g b rest : String)
    → f ≡ b
    → (g ≡ b) ⊎ (g ≡ join b (join "/" rest))
    → (clash f g ≡ true) × (clash g f ≡ true)
file-clash f g b rest e (inl h) =
    let same = (eq_iff f g).1 (e ∙ sym h) in
    let back = (eq_iff g f).1 (h ∙ sym e) in (rw same refl, rw back refl)
file-clash f g b rest e (inr h) =
    let under : starts_with g (join f "/") ≡ true =
      (starts_with_iff g (join f "/")).1
        (rest, text_assoc f "/" rest ∙ ap (λ t. join t (join "/" rest)) e ∙ sym h) in
    (ground (arith, under), ground (arith, under))

-- In a group of paths that do not clash, no path is the name itself.
pub apart-deep :
    (p q : PrefixedPath) (key : String)
    → Placed p
    → Placed q
    → basename p ≡ key
    → basename q ≡ key
    → clash p.full_path q.full_path ≡ false
    → (is_file p ≡ false) × (is_file q ≡ false)
apart-deep p q key (inl (a, b)) (inl (c, d)) bp bq n =
    cc ((file-clash p.full_path q.full_path key "" (b ∙ bp) (inl (d ∙ bq))).0, n)
apart-deep p q key (inl (a, b)) (inr (rest, c, d, l)) bp bq n =
    let inner = d ∙ ap (λ k. join k (join "/" rest)) bq in
    cc ((file-clash p.full_path q.full_path key rest (b ∙ bp) (inr inner)).0, n)
apart-deep p q key (inr (rest, c, d, l)) (inl (a, b)) bp bq n =
    let inner = d ∙ ap (λ k. join k (join "/" rest)) bp in
    cc ((file-clash q.full_path p.full_path key rest (b ∙ bq) (inr inner)).1, n)
apart-deep p q key (inr (r, c, d, l)) (inr (s, e, f, m)) bp bq n = (c, e)

pub inside-eq : (key : String) → key ≢ "" → inside key ≡ join key "/"
inside-eq key named = elim (Bool-cases (str_eq key "")) [
  | inl e ↦ absurd (named ((eq_iff key "").0 e))
  | inr e ↦ rw e refl
]

-- Seen from its directory, a path is ready again, and shorter.
below-there :
    (p : PrefixedPath) (key rest : String) (fuel : ℕ)
    → key ≢ ""
    → p.full_path ≡ join key (join "/" rest)
    → count rest < fuel
    → Fits fuel (below key p)
unfolding below
below-there p key rest fuel named whole less =
    let full =
      whole ∙ sym (text_assoc key "/" rest) ∙ ap (λ d. join d rest) (sym (inside-eq key named)) in
    let left =
      subst (λ t. relative_path (record { full_path = t; prefix = key }) ≡ rest) (sym full)
        (relative_path-below key rest) in
    (
      (
        full ∙ ap (join (inside key)) (sym left),
        λ e. join_ne key (
            sym (inside-eq key named)
            ∙ (append-eq-nil_iff.0 (sym (basename-eq (below key p)) ∙ e)).0),
      ),
      subst (λ r. count r < fuel) (sym left) less,
    )

below-Fits :
    (fuel : ℕ) (p : PrefixedPath) (key : String)
    → Fits (suc fuel) p
    → basename p ≡ key
    → is_file p ≡ false
    → Fits fuel (below key p)
below-Fits fuel p key (ready, short) b deep = elim (IsReady-Placed p ready) [
  | inl (flat, e) ↦ cc
  | inr (rest, d, whole, less) ↦
      below-there p key rest fuel (λ e. ready.1 (b ∙ e))
        (whole ∙ ap (λ k. join k (join "/" rest)) b) (omega (arith, short, less))
]

-- The paths of a group with two members, or with one that is not a file, all lie deeper.
pub All-deep :
    (p : PrefixedPath) (ps : List PrefixedPath) (key : String) (fuel : ℕ)
    → Fits fuel p
    → basename p ≡ key
    → All (λ q. (basename q ≡ key) × Fits fuel q) ps
    → All (λ q. clash p.full_path q.full_path ≡ false) ps
    → All (λ q. is_file q ≡ false) ps
All-deep p [] key fuel fp bp a n = tt
All-deep p (q ∷ ps) key fuel fp bp ((b, fq), a) (n, ns) = (
  (apart-deep p q key (IsReady-Placed p fp.0) (IsReady-Placed q fq.0) bp b n).1,
  All-deep p ps key fuel fp bp a ns,
)

pub All-below :
    (ps : List PrefixedPath) (key : String) (fuel : ℕ)
    → All (λ q. (basename q ≡ key) × Fits (suc fuel) q) ps
    → All (λ q. is_file q ≡ false) ps
    → All (Fits fuel) (map (below key) ps)
All-below [] key fuel a d = tt
All-below (p ∷ ps) key fuel ((b, f), a) (d, ds) =
    (below-Fits fuel p key f b d, All-below ps key fuel a ds)

pub Apart-below : (ps : List PrefixedPath) (key : String) → Apart ps → Apart (map (below key) ps)
unfolding below
Apart-below [] key a = tt
Apart-below (p ∷ ps) key (a, as') = (heads ps a, Apart-below ps key as')
  where
    heads :
        (qs : List PrefixedPath)
        → All (λ q. clash p.full_path q.full_path ≡ false) qs
        → All (λ q. clash p.full_path q.full_path ≡ false) (map (below key) qs)
    heads [] t = tt
    heads (q ∷ qs) (t, ts) = (t, heads qs ts)
