-- ===== src/Paths/Groups.antt =====
-- services/path.py: the grouping of the paths by their base names.
use mathlib.Core.List.{Perm, perm_middle, append_assoc}
use mathlib.Core.List.Perm
use text.Mathlib.Text.{starts_with}
use codecov_api.Base.{
  All, All-append, Bool, Bool-cases, List, String, [], eq_iff, false, inl, inr, join, refl, str_eq,
  sym, ◌++◌, ◌||◌, ◌∷◌, ◌≡◌,
}
use codecov_api.Paths.{Group, PrefixedPath, append_to, basename, group_into}

-- Two paths of which one is the other, or is a directory that has the other inside.
abbrev pub clash : String → String → Bool
clash f g = str_eq f g || starts_with g (join f "/") || starts_with f (join g "/")

abbrev pub Apart : List PrefixedPath → Type 0
Apart [] = Unit
Apart (p ∷ ps) = All (λ q. clash p.full_path q.full_path ≡ false) ps × Apart ps

abbrev pub members : List Group → List PrefixedPath
members [] = []
members ((key, ps) ∷ groups) = ps ++ members groups

abbrev pub IsNonempty : List PrefixedPath → Type 0
IsNonempty [] = ⊥
IsNonempty (p ∷ ps) = Unit

Apart-append :
    (ps : List PrefixedPath) (q : PrefixedPath)
    → Apart ps
    → All (λ p. clash p.full_path q.full_path ≡ false) ps
    → Apart (ps ++ (q ∷ []))
Apart-append [] q a b = (tt, tt)
Apart-append (p ∷ ps) q (a, as') (b, bs) =
    (All-append (λ r. clash p.full_path r.full_path ≡ false) ps q a b, Apart-append ps q as' bs)

IsNonempty-append : (ps : List PrefixedPath) (q : PrefixedPath) → IsNonempty (ps ++ (q ∷ []))
IsNonempty-append [] q = tt
IsNonempty-append (p ∷ ps) q = tt

module _ (P : PrefixedPath → Type 0) where
  -- A group while the paths of `left` are still to be placed.
  abbrev pub Sound : List PrefixedPath → Group → Type 0
  Sound left (key, ps) =
      IsNonempty ps
      × All (λ p. (basename p ≡ key) × P p) ps
      × Apart ps
      × All (λ p. All (λ q. clash p.full_path q.full_path ≡ false) left) ps

  heads :
      (x : PrefixedPath) (left ps : List PrefixedPath)
      → All (λ p. All (λ q. clash p.full_path q.full_path ≡ false) (x ∷ left)) ps
      → All (λ p. clash p.full_path x.full_path ≡ false) ps
        × All (λ p. All (λ q. clash p.full_path q.full_path ≡ false) left) ps
  heads x left [] a = (tt, tt)
  heads x left (p ∷ ps) ((a, b), c) = let (d, e) = heads x left ps c in ((a, d), (b, e))

  dropped :
      (x : PrefixedPath) (left : List PrefixedPath) (groups : List Group)
      → All (Sound (x ∷ left)) groups
      → All (Sound left) groups
  dropped x left [] t = tt
  dropped x left ((k, qs) ∷ groups) ((f, i, j, l), t) =
      ((f, i, j, (heads x left qs l).1), dropped x left groups t)

  append_to-Sound :
      (x : PrefixedPath) (left : List PrefixedPath) (groups : List Group)
      → P x
      → All (λ q. clash x.full_path q.full_path ≡ false) left
      → All (Sound (x ∷ left)) groups
      → All (Sound left) (append_to (basename x) x groups)
  unfolding append_to
  append_to-Sound x left [] px free s = ((tt, ((refl, px), tt), (tt, tt), (free, tt)), tt)
  append_to-Sound x left ((key, ps) ∷ groups) px free ((full, a, b, c), s) =
      let (d, e) = heads x left ps c in
      elim (Bool-cases (str_eq key (basename x))) [
        | inl same ↦
            let here : (basename x ≡ key) × P x = (sym ((eq_iff key (basename x)).0 same), px) in
            rw same (
              (
                IsNonempty-append ps x,
                All-append (λ p. (basename p ≡ key) × P p) ps x a here,
                Apart-append ps x b d,
                All-append (λ p. All (λ q. clash p.full_path q.full_path ≡ false) left) ps x e free,
              ),
              dropped x left groups s,
            )
        | inr other ↦ rw other ((full, a, b, e), append_to-Sound x left groups px free s)
      ]

  -- Every group has the paths of one base name, and no two of them clash.
  pub group_into-Sound :
      (groups : List Group) (ps : List PrefixedPath)
      → All (Sound ps) groups
      → All P ps
      → Apart ps
      → All (Sound []) (group_into groups ps)
  unfolding group_into
  group_into-Sound groups [] s a b = s
  group_into-Sound groups (p ∷ ps) s (a, as') (b, bs) =
      group_into-Sound (append_to (basename p) p groups) ps (append_to-Sound p ps groups a b s) as'
        bs

append_to-perm :
    (key : String) (x : PrefixedPath) (groups : List Group)
    → Perm (members (append_to key x groups)) (x ∷ members groups)
unfolding append_to
append_to-perm key x [] = Perm.rfl
append_to-perm key x ((k, ps) ∷ groups) = elim (Bool-cases (str_eq k key)) [
  | inl same ↦
      rw (same, append_assoc ps (x ∷ []) (members groups)) (perm_middle ps (members groups))
  | inr other ↦ rw other (
      Perm.trans (Perm.append_left ps (append_to-perm key x groups))
        (perm_middle ps (members groups)))
]

-- The groups have the same paths as the listing.
pub group_into-perm :
    (groups : List Group) (ps : List PrefixedPath)
    → Perm (members (group_into groups ps)) (ps ++ members groups)
unfolding group_into
group_into-perm groups [] = Perm.rfl
group_into-perm groups (p ∷ ps) =
    Perm.trans (group_into-perm (append_to (basename p) p groups) ps) (
      Perm.trans (Perm.append_left ps (append_to-perm (basename p) p groups))
        (perm_middle ps (members groups)))
