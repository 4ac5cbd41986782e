-- ===== src/Compare/Reports.antt =====
-- services/comparison.py: the files of two reports that a Comparison puts together, the comparison of
-- a pull request with another base, and when a stored comparison is computed again. A report is a
-- dictionary of files, and a diff one of what changed in a file, both of the library `shared`.
use codecov_api.Base.{
  Bool, Dict, List, Option, String, any, arith, false, if◌then◌else◌, length, lookup, ltb, mem_str,
  none, not, refl, select, some, str_eq, true, truthy, ℕ, ◌&&◌, ◌==◌, ◌||◌, ◌↔◌, ◌≡◌, ◌≤◌,
}
use codecov_api.Owner.{Commit}

-- What a diff says of a file: the name that it had before.
pub record DiffData : Type 0 where
  pub before : Option String

module _ {F : Type 0} where
  -- The base file of Comparison.get_file_comparison: by the name, or by the name before.
  unfoldable pub find_base_file : Dict F → String → Option DiffData → Option F
  unfolding lookup
  find_base_file base_report file_name diff_data = elim (lookup file_name base_report) [
    | some f ↦ some f
    | none ↦ elim diff_data [
      | none ↦ none
      | some d ↦ elim d.before [ none ↦ none | some name ↦ lookup name base_report ]
    ]
  ]

  -- Comparison.get_file_comparison without source text: the base file, the head file and the diff.
  unfoldable pub get_file_comparison :
      Option (Dict F) → Dict F → Dict DiffData → String → Option F × Option F × Option DiffData
  unfolding find_base_file
  get_file_comparison base_report head_report diff file_name =
      let diff_data = lookup file_name diff in
      (
        elim base_report [ none ↦ none | some report ↦ find_base_file report file_name diff_data ],
        lookup file_name head_report,
        diff_data,
      )

-- Comparison._has_cff_sessions, on the types of the sessions.
unfoldable pub has_cff_sessions : List String → Bool
has_cff_sessions = any λ t. str_eq t "carriedforward"

unfoldable pub has_different_number_of_head_and_base_sessions : List String → List String → Bool
unfolding has_cff_sessions
has_different_number_of_head_and_base_sessions head base =
    if has_cff_sessions head || has_cff_sessions base
    then false
    else not (length head == length base)

-- Comparison.upload_commits: the commits of the repository that git names; the result of `exclude` is dropped.
unfoldable pub upload_commits : ℕ → List String → List Commit → List Commit
upload_commits repo git_commits commits =
    select (λ c. mem_str c.commitid git_commits && c.repository == repo) commits

-- PullRequestComparison.is_pseudo_comparison: the repository's yaml, else the installation's, else
-- true, and a commit to compare with.
unfoldable pub is_pseudo_comparison : Option Bool → Option Bool → Option String → Bool
is_pseudo_comparison repo_yaml site_config compared_to =
    (elim repo_yaml [ some b ↦ b | none ↦ elim site_config [ some b ↦ b | none ↦ true ] ])
    && truthy compared_to

-- The commit that PullRequestComparison.base_commit asks for.
unfoldable pub base_commitid : Bool → Option String → String → Option String
base_commitid pseudo compared_to base = if pseudo then compared_to else some base

-- The rows whose changes a stored comparison follows: the time of its last update, and those of the
-- two commits and of the details of their reports, where they are there.
pub record CommitComparison : Type 0 where
  pub updated_at : ℕ
  pub compare_updatestamp : Option ℕ
  pub base_updatestamp : Option ℕ
  pub compare_details_updated_at : Option ℕ
  pub base_details_updated_at : Option ℕ

unfoldable pub last_updated_before : CommitComparison → Option ℕ → Bool
last_updated_before c none = false
last_updated_before c (some timestamp) = ltb c.updated_at timestamp

-- CommitComparisonService.needs_recompute
unfoldable pub needs_recompute : CommitComparison → Bool
unfolding last_updated_before
needs_recompute c =
    if last_updated_before c c.compare_updatestamp
    then true
    else if last_updated_before c c.base_updatestamp
    then true
    else if last_updated_before c c.compare_details_updated_at
    then true
    else last_updated_before c c.base_details_updated_at

-- A time that is known is not after the update.
abbrev pub NotAfter : ℕ → Option ℕ → Type 0
NotAfter t none = Unit
NotAfter t (some s) = s ≤ t

last_updated_before_iff :
    (c : CommitComparison) (s : Option ℕ)
    → (last_updated_before c s ≡ false) ↔ NotAfter c.updated_at s
unfolding last_updated_before
last_updated_before_iff c none = ((λ h. tt), (λ h. refl))
last_updated_before_iff c (some s) = ground arith

all_false :
    (x y z v : Bool)
    → ((if x then true else if y then true else if z then true else v) ≡ false)
      ↔ ((x ≡ false) × (y ≡ false) × (z ≡ false) × (v ≡ false))
all_false true y z v = ((λ h. cc), (λ h. h.0))
all_false false true z v = ((λ h. cc), (λ h. h.1))
all_false false false true v = ((λ h. cc), (λ h. h.2))
all_false false false false v = ((λ h. (refl, refl, refl, h)), (λ h. h.3))

-- A stored comparison is kept exactly when neither of its commits, nor the details of a report of
-- one of them, is newer than its last update.
pub needs_recompute_iff :
    (c : CommitComparison)
    → (needs_recompute c ≡ false) ↔ (
        NotAfter c.updated_at c.compare_updatestamp
        × NotAfter c.updated_at c.base_updatestamp
        × NotAfter c.updated_at c.compare_details_updated_at
        × NotAfter c.updated_at c.base_details_updated_at)
unfolding needs_recompute
needs_recompute_iff c =
    let (a, a') = last_updated_before_iff c c.compare_updatestamp in
    let (b, b') = last_updated_before_iff c c.base_updatestamp in
    let (d, d') = last_updated_before_iff c c.compare_details_updated_at in
    let (e, e') = last_updated_before_iff c c.base_details_updated_at in
    let (f, f') =
      all_false (last_updated_before c c.compare_updatestamp)
        (last_updated_before c c.base_updatestamp)
        (last_updated_before c c.compare_details_updated_at)
        (last_updated_before c c.base_details_updated_at) in
    (
      (λ h. let (p, q, r, s) = f h in (a p, b q, d r, e s)),
      (λ h. f' (a' h.0, b' h.1, d' h.2, e' h.3)),
    )
