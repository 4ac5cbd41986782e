-- ===== src/Paths/Cover.antt =====
-- services/path.py: a directory is listing_found whole.
use mathlib.Core.List.{Perm, append-nil}
use mathlib.Core.List.Perm
use mathlib.Core.Option
use codecov_api.Base.{
  All, Bool-cases, List, Option, String, [], ap, arith, false, inl, inr, map, refl, some, subst,
  suc, sym, zero, ℕ, ◌++◌, ◌∷◌, ◌≡◌,
}
use codecov_api.Paths.{
  Group, Node, Nodes, PrefixedPath, ReportTotals, basename, below, cons, dir, entry, file_of,
  full_filelist, group_into, is_file, nil, results, single_directory,
}
use codecov_api.Paths.Groups.{Apart, IsNonempty, Sound, group_into-Sound, group_into-perm, members}
use codecov_api.Paths.Tree.{
  All-below, All-deep, Apart-below, Fits, IsReady-Placed, apart-deep, leaves, leaves_of,
}

module _ (totals_of : String → ReportTotals) where
  -- A listing has a tree, and the leaves of the tree are its files.
  abbrev pub Lists : Option Nodes → List PrefixedPath → Type 0
  Lists listing ps =
      (tree : Nodes) × (listing ≡ some tree) × Perm (leaves tree) (full_filelist totals_of ps)

  abbrev pub Opens : ℕ → (List PrefixedPath → Option Nodes) → Type 0
  Opens fuel open_directory =
      (ps : List PrefixedPath)
      → IsNonempty ps
      → All (Fits fuel) ps
      → Apart ps
      → Lists (open_directory ps) ps

  full_filelist-below :
      (key : String) (ps : List PrefixedPath)
      → full_filelist totals_of (map (below key) ps) ≡ full_filelist totals_of ps
  unfolding full_filelist below
  full_filelist-below key [] = refl
  full_filelist-below key (p ∷ ps) = ap (◌∷◌ (file_of totals_of p)) (full_filelist-below key ps)

  full_filelist-append :
      (ps qs : List PrefixedPath)
      → full_filelist totals_of (ps ++ qs)
        ≡ full_filelist totals_of ps ++ full_filelist totals_of qs
  unfolding full_filelist
  full_filelist-append [] qs = refl
  full_filelist-append (p ∷ ps) qs = ap (◌∷◌ (file_of totals_of p)) (full_filelist-append ps qs)

  abbrev Shows : Option Node → List PrefixedPath → Type 0
  Shows shown ps = (n : Node) × (shown ≡ some n) × Perm (leaves_of n) (full_filelist totals_of ps)

  open-Shows :
      (fuel : ℕ) (open_directory : List PrefixedPath → Option Nodes) (key : String)
      (ps : List PrefixedPath)
      → Opens fuel open_directory
      → IsNonempty ps
      → All (λ q. (basename q ≡ key) × Fits (suc fuel) q) ps
      → All (λ q. is_file q ≡ false) ps
      → Apart ps
      → Shows (Option.map (dir key) (open_directory (map (below key) ps))) ps
  open-Shows fuel open_directory key [] opens ne a d s = absurd ne
  open-Shows fuel open_directory key (p ∷ ps) opens ne a d s =
      let (tree, e, same) =
        opens (map (below key) (p ∷ ps)) tt (All-below (p ∷ ps) key fuel a d)
          (Apart-below (p ∷ ps) key s) in
      (
        dir key tree,
        ap (Option.map (dir key)) e,
        subst (λ l. Perm (leaves tree) l) (full_filelist-below key (p ∷ ps)) same,
      )

  entry-Shows :
      (fuel : ℕ) (open_directory : List PrefixedPath → Option Nodes) (key : String)
      (ps : List PrefixedPath)
      → Opens fuel open_directory
      → IsNonempty ps
      → All (λ q. (basename q ≡ key) × Fits (suc fuel) q) ps
      → Apart ps
      → Shows (entry totals_of open_directory key ps) ps
  unfolding entry full_filelist file_of
  entry-Shows fuel open_directory key [] opens ne a s = absurd ne
  entry-Shows fuel open_directory key (p ∷ []) opens ne a s = elim (Bool-cases (is_file p)) [
    | inl flat ↦ (file_of totals_of p, rw flat refl, Perm.rfl)
    | inr deep ↦ rw deep (open-Shows fuel open_directory key (p ∷ []) opens tt a (deep, tt) s)
  ]
  entry-Shows fuel open_directory key (p ∷ q ∷ ps) opens ne ((b, f), ((c, g), a)) ((n, ns), s) =
      let (deep, deeper) = apart-deep p q key (IsReady-Placed p f.0) (IsReady-Placed q g.0) b c n in
      open-Shows fuel open_directory key (p ∷ q ∷ ps) opens tt ((b, f), ((c, g), a))
        (deep, (deeper, All-deep p ps key (suc fuel) f b a ns)) ((n, ns), s)

  results-Lists :
      (fuel : ℕ) (open_directory : List PrefixedPath → Option Nodes) (groups : List Group)
      → Opens fuel open_directory
      → All (Sound (Fits (suc fuel)) []) groups
      → Lists (results totals_of open_directory groups) (members groups)
  unfolding results full_filelist
  results-Lists fuel open_directory [] opens s = (nil, refl, Perm.rfl)
  results-Lists fuel open_directory ((key, ps) ∷ groups) opens ((ne, a, free, _), s) =
      let (n, e, one) = entry-Shows fuel open_directory key ps opens ne a free in
      let (rest, f, many) = results-Lists fuel open_directory groups opens s in
      (
        cons n rest,
        rw (e, f, results) refl,
        subst (λ l. Perm (leaves_of n ++ leaves rest) l)
            (sym (full_filelist-append ps (members groups))) (Perm.append one many),
      )

  pub open_directory-Lists :
      (fuel : ℕ) (ps : List PrefixedPath)
      → Opens fuel (single_directory totals_of fuel)
      → All (Fits (suc fuel)) ps
      → Apart ps
      → Lists (single_directory totals_of (suc fuel) ps) ps
  unfolding single_directory full_filelist
  open_directory-Lists fuel ps opens a s =
      let sound = group_into-Sound (Fits (suc fuel)) [] ps tt a s in
      let (tree, e, same) =
        results-Lists fuel (single_directory totals_of fuel) (group_into [] ps) opens sound in
      (
        tree,
        e,
        Perm.trans same (
            Perm.map (file_of totals_of) (
              subst (λ l. Perm (members (group_into [] ps)) l) (append-nil ps)
                (group_into-perm [] ps))),
      )

  pub single_directory-Opens : (fuel : ℕ) → Opens fuel (single_directory totals_of fuel)
  single_directory-Opens zero [] ne a s = absurd ne
  single_directory-Opens zero (p ∷ ps) ne ((ready, short), a) s = absurd (omega (arith, short))
  single_directory-Opens (suc fuel) ps ne a s =
      open_directory-Lists fuel ps (single_directory-Opens fuel) a s
