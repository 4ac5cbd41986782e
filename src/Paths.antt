-- ===== src/Paths.antt =====
-- services/path.py: the files of a report below a directory, and the tree of files and directories
-- that a single directory shows. The report (a class of the library `shared`) is a parameter: the
-- list of its paths, and the totals of the file at a path.
pub mod Prefix
pub mod Endless
pub mod Amounts
pub mod Whole
pub mod Cover
pub mod Tree
pub mod Groups
use text.Mathlib.Text.{starts_with}
use codecov_api.Base.{
  Bool, List, Option, String, [], false, if◌then◌else◌, join, last_str, length, map, none, not,
  select, skip, some, split, str_eq, suc, true, zero, ℕ, ◌&&◌, ◌++◌, ◌+◌, ◌==◌, ◌||◌, ◌∷◌,
}
use Prim.Native.Char.{code}
use Prim.Native.String.{count}
use mathlib.Core.Option

-- shared.reports.types.ReportTotals, the four fields that are read.
pub record ReportTotals : Type 0 where
  pub lines : Option ℕ
  pub hits : Option ℕ
  pub partials : Option ℕ
  pub misses : Option ℕ

-- `x or 0`
abbrev pub number_or_zero : Option ℕ → ℕ
number_or_zero none = 0
number_or_zero (some n) = n

-- A File or a Dir, and a list of them.
mutual
  pub data Node : Type 0 where
    file : String → ReportTotals → Node
    dir : String → Nodes → Node

  pub data Nodes : Type 0 where
    nil : Nodes
    cons : Node → Nodes → Nodes

abbrev pub default_totals : ReportTotals
default_totals = record { lines = some 0; hits = some 0; partials = some 0; misses = some 0 }

-- One round of the loop of Dir.totals.
unfoldable pub add_child : ReportTotals → ReportTotals → ReportTotals
add_child totals child = record {
  lines = some (number_or_zero totals.lines + number_or_zero child.lines);
  hits = some (number_or_zero totals.hits + number_or_zero child.hits);
  partials = some (number_or_zero totals.partials + number_or_zero child.partials);
  misses = some (number_or_zero totals.misses + number_or_zero child.misses);
}

unfoldable mutual
  unfolding add_child

  pub node_totals : Node → ReportTotals
  node_totals (file path totals) = totals
  node_totals (dir path children) = add_children default_totals children

  pub add_children : ReportTotals → Nodes → ReportTotals
  add_children totals nil = totals
  add_children totals (cons child rest) = add_children (add_child totals (node_totals child)) rest

pub record PrefixedPath : Type 0 where
  pub full_path : String
  pub prefix : String

-- s.replace(old, "", 1)
unfoldable pub replace_first : String → String → String
replace_first String.[] old = String.[]
replace_first (String.◌∷◌ c s) old =
    let rest = replace_first s old in
    elim (starts_with (String.◌∷◌ c s) old) [
      | true ↦ skip (count old) (String.◌∷◌ c s)
      | false ↦ String.◌∷◌ c rest
    ]

unfoldable pub relative_path : PrefixedPath → String
unfolding replace_first
relative_path p =
    if str_eq p.prefix "" then p.full_path else replace_first p.full_path (join p.prefix "/")

-- len(relative_path.split("/")) == 1
unfoldable pub is_file : PrefixedPath → Bool
unfolding relative_path
is_file p = length (split b'/' (relative_path p)) == 1

-- s.split("/", 1)[0]
unfoldable pub first_part : String → String
first_part String.[] = ""
first_part (String.◌∷◌ c s) =
    let rest = first_part s in elim (code c == b'/') [ true ↦ "" | false ↦ String.◌∷◌ c rest ]

unfoldable pub basename : PrefixedPath → String
unfolding first_part relative_path
basename p =
    let name = first_part (relative_path p) in
    if str_eq p.prefix "" then name else join (join p.prefix "/") name

unfoldable pub is_subpath : String → String → Bool
is_subpath full_path subpath =
    if str_eq subpath ""
    then true
    else (starts_with full_path (join subpath "/") || str_eq full_path subpath)

-- t in s
unfoldable pub has_substring : String → String → Bool
has_substring String.[] t = starts_with String.[] t
has_substring (String.◌∷◌ c s) t = starts_with (String.◌∷◌ c s) t || has_substring s t

-- ReportPaths.__init__ on the keys of report.files.
unfoldable pub prefixed : String → List String → List PrefixedPath
unfolding is_subpath
prefixed prefix files =
    map (λ f. record { full_path = f; prefix = prefix }) (select (λ f. is_subpath f prefix) files)

-- path or ""
abbrev pub path_or : Option String → String
path_or none = ""
path_or (some path) = path

unfoldable pub report_paths : List String → Option String → Option String → List PrefixedPath
unfolding prefixed has_substring relative_path
report_paths files path none = prefixed (path_or path) files
report_paths files path (some term) =
    let paths = prefixed (path_or path) files in
    if str_eq term "" then paths else select (λ p. has_substring (relative_path p) term) paths

-- grouped[path.basename].append(path), on a dictionary that keeps the order of its keys.
abbrev pub Group : Type 0
Group = String × List PrefixedPath

unfoldable pub append_to : String → PrefixedPath → List Group → List Group
append_to key p [] = (key, p ∷ []) ∷ []
append_to key p ((k, ps) ∷ groups) =
    if str_eq k key then (k, ps ++ (p ∷ [])) ∷ groups else (k, ps) ∷ append_to key p groups

unfoldable pub group_into : List Group → List PrefixedPath → List Group
unfolding append_to basename
group_into groups [] = groups
group_into groups (p ∷ ps) = group_into (append_to (basename p) p groups) ps

-- A path of the listing, seen from the directory that is opened.
unfoldable pub below : String → PrefixedPath → PrefixedPath
below prefix p = record { full_path = p.full_path; prefix = prefix }

module _ (totals_of : String → ReportTotals) where
  unfoldable pub file_of : PrefixedPath → Node
  file_of p = file p.full_path (totals_of p.full_path)

  unfoldable pub full_filelist : List PrefixedPath → List Node
  unfolding file_of
  full_filelist ps = map file_of ps

  -- The result for one group; `open_directory` is the recursive call.
  unfoldable pub entry :
      (List PrefixedPath → Option Nodes) → String → List PrefixedPath → Option Node
  unfolding file_of is_file below
  entry open_directory key ps =
      let inside = Option.map (dir key) (open_directory (map (below key) ps)) in
      elim ps [
        | p ∷ rest ↦ elim rest [ [] ↦ if is_file p then some (file_of p) else inside | _ ↦ inside ]
        | [] ↦ inside
      ]

  unfoldable pub results : (List PrefixedPath → Option Nodes) → List Group → Option Nodes
  unfolding entry
  results open_directory [] = some nil
  results open_directory ((key, ps) ∷ groups) =
      let rest = results open_directory groups in
      elim (entry open_directory key ps) [ none ↦ none | some n ↦ Option.map (cons n) rest ]

  -- _single_directory_recursive; no value when the recursion is deeper than the fuel.
  unfoldable pub single_directory : ℕ → List PrefixedPath → Option Nodes
  unfolding results group_into
  single_directory zero ps = none
  single_directory (suc fuel) ps = results (single_directory fuel) (group_into [] ps)

-- The part of a path after its last slash.
unfoldable pub file_name : String → String
file_name path = last_str "" (split b'/' path)

-- is_file, of the module: the name has a dot, and does not start with one.
unfoldable pub looks_like_file : String → Bool
unfolding file_name has_substring
looks_like_file path = has_substring (file_name path) "." && not (starts_with (file_name path) ".")

unfoldable pub dashboard_commit_file_url :
    String → Option String → String → String → String → String → String
unfolding looks_like_file
dashboard_commit_file_url dashboard path service owner repo commit_sha =
    let p = elim path as (λ _. String) [ none ↦ "" | some q ↦ q ] in
    let commit_path = join (if looks_like_file p then "blob/" else "tree/") p in
    join dashboard (
      join "/" (
        join service (
          join "/" (
            join owner
              (join "/" (join repo (join "/commit/" (join commit_sha (join "/" commit_path)))))))))

-- What the provider's adapter answers to a listing: the files, or an error with a status.
pub data Listing : Type 0 where
  listing_found : Listing
  client_error : ℕ → Listing

unfoldable pub provider_path_exists : Listing → Option Bool
provider_path_exists listing_found = some true
provider_path_exists (client_error status) = if status == 404 then some false else none
