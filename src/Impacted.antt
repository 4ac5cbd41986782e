-- ===== src/Impacted.antt =====
-- services/comparison.py, ImpactedFile and ComparisonReport, and
-- compare/commands/compare/interactors/fetch_impacted_files.py: the files that a comparison
-- touches, filtered and sorted. The report of a comparison is read from storage: a parameter.
-- Coverage is a ratio, kept exact where the source has a float.
pub mod Sorted
use Prim.Native.Char.{code}
use mathlib.Core.Option
use codecov_api.Base.{
  Bool, List, Option, String, [], false, if◌then◌else◌, last_str, leb, length, ltb, map, none, not,
  opt_str_eq, select, some, split, true, truthy, ℕ, ◌&&◌, ◌*◌, ◌++◌, ◌+◌, ◌==◌, ◌||◌, ◌∷◌,
}
use codecov_api.Store.{Outcome, attribute_error, err, ok}

-- ImpactedFile.Totals, with the numbers that its coverage is made of.
pub record Totals : Type 0 where
  pub hits : ℕ
  pub misses : ℕ
  pub partials : ℕ

-- A number `(up - down) / den`.
pub record Ratio : Type 0 where
  pub up : ℕ
  pub down : ℕ
  pub den : ℕ

-- One entry of unexpected_line_changes: the line in the base and the line in the head.
pub record LineChange : Type 0 where
  pub base : Option (ℕ × Option String)
  pub head : ℕ × Option String

pub record ImpactedFile : Type 0 where
  pub base_name : Option String
  pub head_name : Option String
  pub file_was_added_by_diff : Bool
  pub file_was_removed_by_diff : Bool
  pub base_coverage : Option Totals
  pub head_coverage : Option Totals
  pub added_diff_coverage : Option (List (ℕ × Option String))
  pub removed_diff_coverage : Option (List (ℕ × Option String))
  pub unexpected_line_changes : Option (List LineChange)

-- Totals.__post_init__
unfoldable pub coverage : Totals → Option Ratio
coverage t =
    let nb_branches = t.hits + t.misses + t.partials in
    if ltb 0 nb_branches
    then some (record { up = 100 * t.hits; down = 0; den = nb_branches })
    else none

-- The truth value of a nullable list: neither None nor empty.
abbrev pub has_entries {ℓ} : {A : Type ℓ} → Option (List A) → Bool
has_entries none = false
has_entries (some []) = false
has_entries (some (x ∷ xs)) = true

abbrev pub entries {ℓ} : {A : Type ℓ} → Option (List A) → List A
entries none = []
entries (some xs) = xs

unfoldable pub has_diff : ImpactedFile → Bool
has_diff f =
    has_entries f.added_diff_coverage
    || (has_entries f.removed_diff_coverage
        || (f.file_was_added_by_diff || f.file_was_removed_by_diff))

unfoldable pub has_changes : ImpactedFile → Bool
has_changes f = has_entries f.unexpected_line_changes

unfoldable pub unintended_misses_count : ImpactedFile → ℕ
unintended_misses_count f =
    length (select (λ c. opt_str_eq c.head.1 (some "m")) (entries f.unexpected_line_changes))

unfoldable pub direct_misses_count : ImpactedFile → ℕ
direct_misses_count f =
    length (select (λ c. opt_str_eq c.1 (some "m")) (entries f.added_diff_coverage))

unfoldable pub misses_count : ImpactedFile → ℕ
unfolding direct_misses_count unintended_misses_count
misses_count f = direct_misses_count f + unintended_misses_count f

-- The loop of patch_coverage.
unfoldable pub count_added : Totals → List (ℕ × Option String) → Totals
count_added t [] = t
count_added t ((line, type) ∷ rest) =
    count_added
      (if opt_str_eq type (some "h")
        then record t { hits = t.hits + 1 }
        else (if opt_str_eq type (some "m")
            then record t { misses = t.misses + 1 }
            else (if opt_str_eq type (some "p")
                then record t { partials = t.partials + 1 }
                else t)))
      rest

unfoldable pub patch_coverage : ImpactedFile → Option Totals
unfolding count_added
patch_coverage f =
    if has_entries f.added_diff_coverage
    then some (
        count_added (record { hits = 0; misses = 0; partials = 0 }) (entries f.added_diff_coverage))
    else none

-- The truth value of a nullable number: neither None nor 0.0.
unfoldable pub is_positive : Option Ratio → Bool
is_positive none = false
is_positive (some r) = not (r.up == r.down)

unfoldable pub coverage_of : Option Totals → Option Ratio
unfolding coverage
coverage_of none = none
coverage_of (some t) = coverage t

abbrev pub minus : Ratio → Ratio → Ratio
minus a b = record { up = a.up * b.den; down = b.up * a.den; den = a.den * b.den }

abbrev pub change_between : Option Ratio → Option Ratio → Option Ratio
change_between (some base) (some head) = some (minus head base)
change_between (some base) none = none
change_between none head = none

unfoldable pub change_coverage : ImpactedFile → Option Ratio
unfolding is_positive coverage_of
change_coverage f =
    let base = coverage_of f.base_coverage in
    let head = coverage_of f.head_coverage in
    if is_positive base && is_positive head then change_between base head else none

unfoldable pub file_name : ImpactedFile → Outcome String
file_name f = elim f.head_name [
  | none ↦ err attribute_error
  | some name ↦ ok (last_str "" (split b'/' name))
]

pub data ImpactedFileParameter : Type 0 where
  by_file_name by_change_coverage by_head_coverage : ImpactedFileParameter
  by_misses_count by_patch_coverage : ImpactedFileParameter

pub data Direction : Type 0 where
  ascending descending : Direction

-- What the files are sorted by.
pub data Key : Type 0 where
  name_key : String → Key
  number_key : Ratio → Key

unfoldable pub get_attribute : ImpactedFile → ImpactedFileParameter → Outcome (Option Key)
unfolding file_name change_coverage misses_count patch_coverage coverage_of
get_attribute f by_file_name = elim (file_name f) [
  | err e ↦ err e
  | ok name ↦ ok (some (name_key name))
]
get_attribute f by_change_coverage = ok (Option.map number_key (change_coverage f))
get_attribute f by_head_coverage = ok (Option.map number_key (coverage_of f.head_coverage))
get_attribute f by_misses_count =
    ok (some (number_key (record { up = misses_count f; down = 0; den = 1 })))
get_attribute f by_patch_coverage = ok (Option.map number_key (coverage_of (patch_coverage f)))

-- s <= t on texts, by the numbers of their characters.
unfoldable pub text_le : String → String → Bool
text_le String.[] t = true
text_le (String.◌∷◌ c s) String.[] = false
text_le (String.◌∷◌ c s) (String.◌∷◌ d t) =
    ltb (code c) (code d) || (code c == code d && text_le s t)

-- a <= b; the keys of one parameter are all texts or all numbers.
unfoldable pub key_le : Key → Key → Bool
unfolding text_le
key_le (name_key s) (name_key t) = text_le s t
key_le (number_key a) (number_key b) =
    leb (a.up * b.den + b.down * a.den) (b.up * a.den + a.down * b.den)
key_le (name_key s) (number_key b) = true
key_le (number_key a) (name_key t) = false

unfoldable pub in_order : Direction → Key → Key → Bool
unfolding key_le
in_order ascending a b = key_le a b
in_order descending a b = key_le b a

-- Python's `sorted`, with a key and a direction: stable in both.
unfoldable pub place :
    Direction → Key × ImpactedFile → List (Key × ImpactedFile) → List (Key × ImpactedFile)
unfolding in_order
place d x [] = x ∷ []
place d x (y ∷ ys) = if in_order d x.0 y.0 then x ∷ y ∷ ys else y ∷ place d x ys

unfoldable pub sorted : Direction → List (Key × ImpactedFile) → List (Key × ImpactedFile)
unfolding place
sorted d [] = []
sorted d (x ∷ xs) = place d x (sorted d xs)

abbrev pub Parts : Type 0
Parts = List (Key × ImpactedFile) × List ImpactedFile

abbrev pub put_file : ImpactedFile → Option Key → Outcome Parts → Outcome Parts
put_file f key (err e) = err e
put_file f (some k) (ok (keyed, rest)) = ok ((k, f) ∷ keyed, rest)
put_file f none (ok (keyed, rest)) = ok (keyed, f ∷ rest)

abbrev pub add_file : ImpactedFile → Outcome (Option Key) → Outcome Parts → Outcome Parts
add_file f (err e) rest = err e
add_file f (ok key) rest = put_file f key rest

-- The loop that separates the files without a value.
unfoldable pub separate : ImpactedFileParameter → List ImpactedFile → Outcome Parts
unfolding get_attribute
separate p [] = ok ([], [])
separate p (f ∷ fs) = add_file f (get_attribute f p) (separate p fs)

unfoldable pub join_parts : Direction → Outcome Parts → Outcome (List ImpactedFile)
unfolding sorted
join_parts d (err e) = err e
join_parts d (ok (keyed, rest)) = ok (map (λ x. x.1) (sorted d keyed) ++ rest)

unfoldable pub sort_impacted_files :
    List ImpactedFile → ImpactedFileParameter → Direction → Outcome (List ImpactedFile)
unfolding separate join_parts
sort_impacted_files files p d = join_parts d (separate p files)

-- The filters of a query; an ordering may lack its parameter or its direction.
pub record Filters : Type 0 where
  pub parameter : Option ImpactedFileParameter
  pub direction : Option Direction
  pub has_unintended_changes : Option Bool

unfoldable pub apply_filters : List ImpactedFile → Filters → Outcome (List ImpactedFile)
unfolding sort_impacted_files
apply_filters files filters = elim filters.parameter [
  | none ↦ ok files
  | some p ↦ elim filters.direction [ none ↦ ok files | some d ↦ sort_impacted_files files p d ]
]

-- ComparisonReport.files: nothing is read when there is no path, and what cannot be read is empty.
unfoldable pub report_files : Option String → Option (List ImpactedFile) → List ImpactedFile
report_files report_storage_path stored = if truthy report_storage_path then entries stored else []

unfoldable pub impacted_file : List ImpactedFile → String → Option ImpactedFile
impacted_file [] path = none
impacted_file (f ∷ fs) path =
    if opt_str_eq f.head_name (some path) then some f else impacted_file fs path

-- FetchImpactedFiles.execute
unfoldable pub fetch_impacted_files :
    List ImpactedFile → Option Filters → Outcome (List ImpactedFile)
unfolding apply_filters has_changes has_diff
fetch_impacted_files files none = ok files
fetch_impacted_files files (some filters) =
    apply_filters
      (elim filters.has_unintended_changes [
        | none ↦ files
        | some true ↦ select has_changes files
        | some false ↦ select has_diff files
      ])
      filters
