-- ===== src/Paths/Amounts.antt =====
-- services/path.py: the totals of a directory.
use Prim.Native.String.{count}
use mathlib.Core.List.{Perm, Permᴰ}
use mathlib.Core.Logic.{∥∥₁_elim}
use native.Mathlib.Nat.{ℕ_set}
use codecov_api.Base.{
  All, List, Option, String, [], ap, arith, refl, some, suc, true, ℕ, ◌++◌, ◌+◌, ◌<◌, ◌∙◌, ◌∷◌, ◌≡◌,
}
use codecov_api.Paths.{
  Node, Nodes, ReportTotals, add_child, add_children, cons, default_totals, dir, file,
  full_filelist, nil, node_totals, number_or_zero, path_or, report_paths, single_directory,
}
use codecov_api.Paths.Whole.{can_stand, is_free, single_directory-full_filelist}
use codecov_api.Paths.Tree.{leaves, leaves_of}

-- The four numbers that a directory adds up.
pub data Field : Type 0 where
  lines hits partials misses : Field

abbrev pub amount : Field → ReportTotals → ℕ
amount lines t = number_or_zero t.lines
amount hits t = number_or_zero t.hits
amount partials t = number_or_zero t.partials
amount misses t = number_or_zero t.misses

abbrev pub total : Field → List Node → ℕ
total field [] = 0
total field (n ∷ ns) = amount field (node_totals n) + total field ns

total-append :
    (field : Field) (ms ns : List Node) → total field (ms ++ ns) ≡ total field ms + total field ns
total-append field [] ns = omega arith
total-append field (m ∷ ms) ns = omega (arith, total-append field ms ns)

amount-add_child :
    (field : Field) (t c : ReportTotals)
    → amount field (add_child t c) ≡ amount field t + amount field c
unfolding add_child
amount-add_child lines t c = refl
amount-add_child hits t c = refl
amount-add_child partials t c = refl
amount-add_child misses t c = refl

amount-default : (field : Field) → amount field default_totals ≡ 0
amount-default lines = refl
amount-default hits = refl
amount-default partials = refl
amount-default misses = refl

mutual
  unfolding node_totals

  pub node_totals-leaves_of :
      (field : Field) (n : Node) → amount field (node_totals n) ≡ total field (leaves_of n)
  node_totals-leaves_of field (file path t) = omega arith
  node_totals-leaves_of field (dir path children) =
      omega (arith, add_children-leaves field default_totals children, amount-default field)

  add_children-leaves :
      (field : Field) (t : ReportTotals) (ns : Nodes)
      → amount field (add_children t ns) ≡ amount field t + total field (leaves ns)
  add_children-leaves field t nil = omega arith
  add_children-leaves field t (cons n rest) = omega (
    arith,
    add_children-leaves field (add_child t (node_totals n)) rest,
    amount-add_child field t (node_totals n),
    node_totals-leaves_of field n,
    total-append field (leaves_of n) (leaves rest),
  )

total-perm_d : (field : Field) {ms ns : List Node} → Permᴰ ms ns → total field ms ≡ total field ns
total-perm_d field Permᴰ.nil = refl
total-perm_d field (Permᴰ.cons {l₁ = ms} {l₂ = ns} e p) =
    omega (arith, ap (λ n. amount field (node_totals n)) e, total-perm_d field p)
total-perm_d field (Permᴰ.swap e f) =
    omega
      (arith, ap (λ n. amount field (node_totals n)) e, ap (λ n. amount field (node_totals n)) f)
total-perm_d field (Permᴰ.trans p q) = total-perm_d field p ∙ total-perm_d field q

total-perm : (field : Field) {ms ns : List Node} → Perm ms ns → total field ms ≡ total field ns
total-perm field p = ∥∥₁_elim p (ℕ_set _ _) (total-perm_d field)

-- The lines, hits, partials and misses of a directory that the listing shows are, each, the sums
-- of those of the files of the flat list.
pub single_directory-totals :
    (totals_of : String → ReportTotals) (files : List String) (path term : Option String) (fuel : ℕ)
    → is_free files ≡ true
    → All (λ f. (can_stand (path_or path) f ≡ true) × (count f < fuel)) files
    → (tree : Nodes) × (single_directory totals_of (suc fuel) (report_paths files path term)
        ≡ some tree)
      × ((field : Field)
          → amount field (node_totals (dir (path_or path) tree))
            ≡ total field (full_filelist totals_of (report_paths files path term)))
single_directory-totals totals_of files path term fuel free stand =
    let (tree, e, same) =
      single_directory-full_filelist totals_of files path term fuel free stand in
    (
      tree,
      e,
      λ field. node_totals-leaves_of field (dir (path_or path) tree) ∙ total-perm field same,
    )
