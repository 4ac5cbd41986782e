-- ===== src/Examples/Trees.antt =====
-- Listings of report paths on concrete reports.
use Prim.Native.String.{count}
use mathlib.Core.List.{Perm}
use text.Mathlib.TextLemmas.{cons≢nil}
use codecov_api.Base.{All, List, String, [], arith, false, none, refl, some, true, ◌<◌, ◌∷◌, ◌≡◌}
use codecov_api.Paths.{
  Node, Nodes, ReportTotals, cons, dashboard_commit_file_url, dir, file, first_part, full_filelist,
  looks_like_file, nil, node_totals, report_paths, single_directory,
}
use codecov_api.Paths.Tree.{leaves}
use codecov_api.Paths.Amounts.{Field, amount, single_directory-totals, total}
use codecov_api.Paths.Whole.{can_stand, file_at, single_directory-full_filelist}
use codecov_api.Paths.Endless.{single_directory-none}

abbrev report_files : List String
report_files = "src/a.py" ∷ "setup.py" ∷ "src/lib/b.py" ∷ []

abbrev five_lines : String → ReportTotals
five_lines path = record { lines = some 5; hits = some 3; partials = none; misses = some 2 }

abbrev leaf : String → Node
leaf path = file path (five_lines path)

src_tree :
    single_directory five_lines 20 (report_paths report_files none none)
    ≡ some (
        cons
          (dir "src"
            (cons (leaf "src/a.py") (cons (dir "src/lib" (cons (leaf "src/lib/b.py") nil)) nil)))
          (cons (leaf "setup.py") nil))
unfolding single_directory report_paths
src_tree = refl

found_lib : report_paths report_files (some "src") (some "lib") ≡ file_at "src" "src/lib/b.py" ∷ []
unfolding report_paths
found_lib = refl

hidden_file : looks_like_file "src/.env" ≡ false
unfolding looks_like_file
hidden_file = refl

commit_url :
    dashboard_commit_file_url "https://codecov.io" (some "src/a.py") "gh" "o" "r" "abc"
    ≡ "https://codecov.io/gh/o/r/commit/abc/blob/src/a.py"
unfolding dashboard_commit_file_url
commit_url = refl

can_stand_root : All (λ f. (can_stand "" f ≡ true) × (count f < 20)) report_files
unfolding first_part
can_stand_root = ((refl, omega arith), ((refl, omega arith), ((refl, omega arith), tt)))

single_directory-full_filelist_example :
    (tree : Nodes) × (single_directory five_lines 21 (report_paths report_files none none)
      ≡ some tree)
    × Perm (leaves tree) (full_filelist five_lines (report_paths report_files none none))
single_directory-full_filelist_example =
    single_directory-full_filelist five_lines report_files none none 20 refl can_stand_root

single_directory-totals_example :
    (tree : Nodes) × (single_directory five_lines 21 (report_paths report_files none none)
      ≡ some tree)
    × ((field : Field)
        → amount field (node_totals (dir "" tree))
          ≡ total field (full_filelist five_lines (report_paths report_files none none)))
single_directory-totals_example =
    single_directory-totals five_lines report_files none none 20 refl can_stand_root

only_a : report_paths report_files (some "src/a.py") none ≡ file_at "src/a.py" "src/a.py" ∷ []
unfolding report_paths
only_a = refl

single_directory-none_example :
    single_directory five_lines 50 (report_paths report_files (some "src/a.py") none) ≡ none
single_directory-none_example =
    single_directory-none five_lines 50 report_files "src/a.py" only_a (λ e. cons≢nil e) refl
