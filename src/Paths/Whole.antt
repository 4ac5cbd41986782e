-- ===== src/Paths/Whole.antt =====
-- services/path.py: the listing of a report's directory, from the report's own paths.
use Prim.Native.String.{count}
use mathlib.Core.List.{Perm}
use text.Mathlib.TextEquality.{starts_with_iff}
use text.Mathlib.TextLemmas.{nil-append, length-append, append-eq-nil_iff}
use codecov_api.Base.{
  All, All-select, Bool, Bool-cases, List, Option, String, [], any, ap, arith, both, eq_iff, false,
  if◌then◌else◌, inl, inr, join, neither, none, not, refl, select, some, str_eq, subst, suc, sym,
  true, ℕ, ◌&&◌, ◌<◌, ◌||◌, ◌∙◌, ◌∷◌, ◌≡◌, ◌≢◌,
}
use codecov_api.Paths.{
  Nodes, PrefixedPath, ReportTotals, basename, first_part, full_filelist, has_substring, is_subpath,
  path_or, prefixed, relative_path, report_paths, single_directory,
}
use codecov_api.Paths.Prefix.{inside, join_ne, relative_path-below}
use codecov_api.Paths.Groups.{Apart, clash}
use codecov_api.Paths.Tree.{Fits, basename-eq, leaves}
use codecov_api.Paths.Cover.{open_directory-Lists, single_directory-Opens}

-- No two of the files are the same, and none is a directory of another.
abbrev pub is_free : List String → Bool
is_free [] = true
is_free (f ∷ fs) = not (any (clash f) fs) && is_free fs

-- A file can stand below a directory: not the directory itself, and no absolute path at the root.
abbrev pub can_stand : String → String → Bool
can_stand prefix f =
    if str_eq prefix "" then not (str_eq (first_part f) "") else not (str_eq f prefix)

abbrev pub file_at : String → String → PrefixedPath
file_at prefix f = record { full_path = f; prefix = prefix }

clears : (b : Bool) → not b ≡ true → b ≡ false
clears true h = sym h
clears false h = refl

or-clears : (a b : Bool) → (a || b) ≡ true → not b ≡ true → a ≡ true
or-clears true b h n = refl
or-clears false true h n = n
or-clears false false h n = h

is_subpath-inside :
    (f prefix : String)
    → is_subpath f prefix ≡ true
    → can_stand prefix f ≡ true
    → (r : String) × (f ≡ join (inside prefix) r)
unfolding is_subpath
is_subpath-inside f prefix s c = elim (Bool-cases (str_eq prefix "")) [
  | inl e ↦ (f, rw e (sym (nil-append f)))
  | inr e ↦
      let under = or-clears _ _ (rw e at s) (rw e at c) in
      let (r, whole) = (starts_with_iff f (join prefix "/")).0 under in (r, rw e (sym whole))
]

file_at-relative :
    (f prefix r : String) → f ≡ join (inside prefix) r → relative_path (file_at prefix f) ≡ r
file_at-relative f prefix r e =
    subst (λ g. relative_path (file_at prefix g) ≡ r) (sym e) (relative_path-below prefix r)

file_at-named :
    (f prefix r : String)
    → can_stand prefix f ≡ true
    → f ≡ join (inside prefix) r
    → basename (file_at prefix f) ≢ ""
file_at-named f prefix r c e named =
    let parts = append-eq-nil_iff.0 (sym (basename-eq (file_at prefix f)) ∙ named) in
    let first = ap first_part (sym (file_at-relative f prefix r e)) ∙ parts.1 in
    elim (Bool-cases (str_eq prefix "")) [
      | inl root ↦
          let whole = (rw root at e) ∙ nil-append r in
          let flat = (eq_iff (first_part f) "").1 (ap first_part whole ∙ first) in
          cc (rw root at c, flat)
      | inr sub ↦ join_ne prefix (rw sub at parts.0)
    ]

file_at-Fits :
    (f prefix : String) (fuel : ℕ)
    → is_subpath f prefix ≡ true
    → can_stand prefix f ≡ true
    → count f < fuel
    → Fits fuel (file_at prefix f)
file_at-Fits f prefix fuel s c short =
    let (r, e) = is_subpath-inside f prefix s c in
    let rel = file_at-relative f prefix r e in
    (
      (e ∙ ap (join (inside prefix)) (sym rel), file_at-named f prefix r c e),
      subst (λ t. count t < fuel) (sym rel)
          (omega (arith, short, ap count e, length-append (inside prefix) r)),
    )

prefixed-Fits :
    (prefix : String) (fuel : ℕ) (files : List String)
    → All (λ f. (can_stand prefix f ≡ true) × (count f < fuel)) files
    → All (Fits fuel) (prefixed prefix files)
unfolding prefixed
prefixed-Fits prefix fuel [] a = tt
prefixed-Fits prefix fuel (f ∷ fs) ((c, short), a) = elim (Bool-cases (is_subpath f prefix)) [
  | inl s ↦ rw s (file_at-Fits f prefix fuel s c short, prefixed-Fits prefix fuel fs a)
  | inr s ↦ rw s (prefixed-Fits prefix fuel fs a)
]

-- A listing that leaves some paths out is still free of clashes.
prefixed-free :
    (prefix f : String) (files : List String)
    → any (clash f) files ≡ false
    → All (λ q. clash f q.full_path ≡ false) (prefixed prefix files)
unfolding prefixed
prefixed-free prefix f [] a = tt
prefixed-free prefix f (g ∷ gs) a =
    let (here, there) = neither (clash f g) (any (clash f) gs) a in
    elim (Bool-cases (is_subpath g prefix)) [
      | inl s ↦ rw s (here, prefixed-free prefix f gs there)
      | inr s ↦ rw s (prefixed-free prefix f gs there)
    ]

prefixed-Apart :
    (prefix : String) (files : List String) → is_free files ≡ true → Apart (prefixed prefix files)
unfolding prefixed
prefixed-Apart prefix [] a = tt
prefixed-Apart prefix (f ∷ fs) a =
    let (clear, there) = both (not (any (clash f) fs)) (is_free fs) a in
    let here = clears (any (clash f) fs) clear in
    elim (Bool-cases (is_subpath f prefix)) [
      | inl s ↦ rw s (prefixed-free prefix f fs here, prefixed-Apart prefix fs there)
      | inr s ↦ rw s (prefixed-Apart prefix fs there)
    ]

Apart-select : (p : PrefixedPath → Bool) (ps : List PrefixedPath) → Apart ps → Apart (select p ps)
Apart-select p [] a = tt
Apart-select p (q ∷ ps) (a, as') = elim (Bool-cases (p q)) [
  | inl e ↦
      rw e (All-select (λ r. clash q.full_path r.full_path ≡ false) p ps a, Apart-select p ps as')
  | inr e ↦ rw e (Apart-select p ps as')
]

listing :
    (totals_of : String → ReportTotals) (fuel : ℕ) (ps : List PrefixedPath)
    → All (Fits fuel) ps
    → Apart ps
    → (tree : Nodes) × (single_directory totals_of (suc fuel) ps ≡ some tree)
      × Perm (leaves tree) (full_filelist totals_of ps)
listing totals_of fuel ps a s =
    open_directory-Lists totals_of fuel ps (single_directory-Opens totals_of fuel) (longer ps a) s
  where
    longer : (qs : List PrefixedPath) → All (Fits fuel) qs → All (Fits (suc fuel)) qs
    longer [] t = tt
    longer (q ∷ qs) ((ready, short), t) = ((ready, omega (arith, short)), longer qs t)

-- Where no two paths of the report clash, and none of them is the directory that is asked for or
-- an absolute path, the listing of a directory ends, with fuel above the length of every path, and
-- its tree has at its leaves the files of the flat list, each once, also where the paths are
-- filtered by a search term.
pub single_directory-full_filelist :
    (totals_of : String → ReportTotals) (files : List String) (path term : Option String) (fuel : ℕ)
    → is_free files ≡ true
    → All (λ f. (can_stand (path_or path) f ≡ true) × (count f < fuel)) files
    → (tree : Nodes) × (single_directory totals_of (suc fuel) (report_paths files path term)
        ≡ some tree)
      × Perm (leaves tree) (full_filelist totals_of (report_paths files path term))
unfolding report_paths
single_directory-full_filelist totals_of files path none fuel free stand =
    listing totals_of fuel (prefixed (path_or path) files)
      (prefixed-Fits (path_or path) fuel files stand) (prefixed-Apart (path_or path) files free)
single_directory-full_filelist totals_of files path (some t) fuel free stand =
    let fits = prefixed-Fits (path_or path) fuel files stand in
    let apart = prefixed-Apart (path_or path) files free in
    elim (Bool-cases (str_eq t "")) [
      | inl e ↦ rw e (listing totals_of fuel (prefixed (path_or path) files) fits apart)
      | inr e ↦
          let found = λ (p : PrefixedPath). has_substring (relative_path p) t in
          rw e (
            listing totals_of fuel (select found (prefixed (path_or path) files))
              (All-select (Fits fuel) found (prefixed (path_or path) files) fits)
              (Apart-select found (prefixed (path_or path) files) apart))
    ]
