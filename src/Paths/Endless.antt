-- ===== src/Paths/Endless.antt =====
-- services/path.py: a selection that never ends.
use Prim.Native.String.{count}
use text.Mathlib.Text.{starts_with}
use text.Mathlib.TextEquality.{starts_with_iff}
use text.Mathlib.TextLemmas.{length-append, length-cons}
use codecov_api.Base.{
  Bool-cases, List, Option, String, [], ap, arith, eq_iff, false, inl, inr, join, length, none,
  refl, some, split, str_eq, suc, zero, ℕ, ◌<◌, ◌==◌, ◌∙◌, ◌∷◌, ◌≡◌, ◌≢◌, ◌≤◌,
}
use codecov_api.Paths.{
  Group, Nodes, PrefixedPath, ReportTotals, append_to, basename, below, entry, first_part,
  group_into, is_file, relative_path, replace_first, report_paths, results, single_directory,
}
use codecov_api.Paths.Prefix.{inside}
use codecov_api.Paths.Tree.{basename-eq, inside-eq}
use codecov_api.Paths.Whole.{file_at}

-- A text that is shorter than another does not have it inside.
short-starts_with : (s old : String) → count s < count old → starts_with s old ≡ false
short-starts_with s old h = elim (Bool-cases (starts_with s old)) [
  | inl e ↦
      let (r, whole) = (starts_with_iff s old).0 e in
      absurd (omega (arith, h, ap count whole, length-append old r))
  | inr e ↦ e
]

short-replace_first : (s old : String) → count s < count old → replace_first s old ≡ s
unfolding replace_first
short-replace_first String.[] old h = refl
short-replace_first (String.◌∷◌ c s) old h =
    let still = short-replace_first s old (omega (arith, h, length-cons c s)) in
    rw (short-starts_with (String.◌∷◌ c s) old h, replace_first) (ap (String.◌∷◌ c) still)

module _ (f b : String) (named : b ≢ "") (long : count f ≤ count b) where
  grows : count b < count (join b "/")
  grows = omega (arith, length-append b "/")

  still : relative_path (file_at b f) ≡ f
  unfolding relative_path
  still = elim (Bool-cases (str_eq b "")) [
    | inl e ↦ absurd (named ((eq_iff b "").0 e))
    | inr e ↦ rw e (short-replace_first f (join b "/") (omega (arith, long, grows)))
  ]

  still-is_file : (length (split b'/' f) == 1) ≡ false → is_file (file_at b f) ≡ false
  unfolding is_file
  still-is_file deep = ap (λ r. length (split b'/' r) == 1) still ∙ deep

  next : count b < count (basename (file_at b f))
  next = omega (
    arith,
    grows,
    ap count (basename-eq (file_at b f)),
    ap count (inside-eq b named),
    length-append (inside b) (first_part (relative_path (file_at b f))),
  )

module _ (totals_of : String → ReportTotals)
    (open_directory : List PrefixedPath → Option Nodes) where
  entry-deep :
      (key : String) (p : PrefixedPath)
      → is_file p ≡ false
      → open_directory (below key p ∷ []) ≡ none
      → entry totals_of open_directory key (p ∷ []) ≡ none
  unfolding entry
  entry-deep key p deep e = rw (deep, e) refl

  results-none :
      (key : String) (ps : List PrefixedPath) (groups : List Group)
      → entry totals_of open_directory key ps ≡ none
      → results totals_of open_directory ((key, ps) ∷ groups) ≡ none
  unfolding results
  results-none key ps groups e = rw (e, results) refl

-- A path in a directory that is listing_found below a prefix of its own length or longer is never
-- placed: whatever the fuel, the listing has no result.
endless :
    (totals_of : String → ReportTotals) (fuel : ℕ) (f b : String)
    → b ≢ ""
    → count f ≤ count b
    → (length (split b'/' f) == 1) ≡ false
    → single_directory totals_of fuel (file_at b f ∷ []) ≡ none
unfolding single_directory group_into append_to below
endless totals_of zero f b named long deep = refl
endless totals_of (suc fuel) f b named long deep =
    let more = next f b named long in
    let rest =
      endless totals_of fuel f (basename (file_at b f))
        (λ e. absurd (omega (arith, more, ap count e))) (omega (arith, more, long)) deep in
    let open_directory = single_directory totals_of fuel in
    results-none totals_of open_directory (basename (file_at b f)) (file_at b f ∷ []) [] (
      entry-deep totals_of open_directory (basename (file_at b f)) (file_at b f)
        (still-is_file f b named long deep) rest)

-- When the path that is asked for is the path of a file in a directory, and no other file of the
-- report is at it or below it, the listing of the directory never ends: whatever the fuel, there
-- is no result.
pub single_directory-none :
    (totals_of : String → ReportTotals) (fuel : ℕ) (files : List String) (f : String)
    → report_paths files (some f) none ≡ file_at f f ∷ []
    → f ≢ ""
    → (length (split b'/' f) == 1) ≡ false
    → single_directory totals_of fuel (report_paths files (some f) none) ≡ none
single_directory-none totals_of fuel files f only named deep =
    ap (single_directory totals_of fuel) only ∙ endless totals_of fuel f f named (omega arith) deep
