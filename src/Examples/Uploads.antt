-- ===== src/Examples/Uploads.antt =====
-- Uploads to a concrete repository.
use mathlib.Core.Option
use codecov_api.Base.{
  Bool, String, [], ap, arith, eq_iff, false, if◌then◌else◌, inl, inr, lookup, none, refl, some,
  str_eq, subst, sym, true, ℕ, ◌&&◌, ◌<◌, ◌==◌, ◌∙◌, ◌∷◌, ◌≡◌, ◌⊎◌,
}
use codecov_api.Owner.{Commit, Owner, Repository}
use codecov_api.Store.{
  Error, World, account_activated_repository_on_upload, err, ok, ok-injective, one,
}
use codecov_api.Plan.Service.{find_plan}
use codecov_api.Plan.Constants.{user_plan_representations}
use codecov_api.Hooks.{save_repo, update_where}
use codecov_api.Upload.{
  Headers, IsInert, IsStated, UploadParams, determine_upload_branch_to_use, determine_upload_pr_lem,
  determine_upload_pr_to_use, parse_headers, parse_headers-known, pull_noted_in_branch,
}
use codecov_api.Upload.Limits.{
  UploadSettings, check_commit_upload_constraints, climb, determine_responsible_owner, parent_of,
  window_allow_request,
}
use codecov_api.Upload.Bounds.{climb-ends, verdict, window_allow_request-check}
use codecov_api.Upload.Validate.{
  Validated, activate, check_credits, check_owner_credits, check_sessions, may_upload, repo_credits,
  validate_activated_repo, validate_upload, validate_upload_lem,
}
use codecov_api.Upload.Commits.{
  insert_commit, insert_commit-stored, insert_found, new_commit, stored,
}
use codecov_api.Examples.{repo_of, today, user_of}

abbrev settings : UploadSettings
settings = record {
  throttling_enabled = true;
  max_sessions = none;
  enterprise_license = false;
  carried_forward = "carriedforward";
  disabled = λ i. i == 99;
}

abbrev params : UploadParams
params = record {
  branch = some "feature/pull/12";
  pr = none;
  package_name = none;
  version = some "v4";
}

abbrev headers : Headers
headers = record {
  content_disposition = none;
  x_content_type = some "application/javascript";
  x_reduced_redundancy = none;
}

stored_as_text : parse_headers params headers ≡ ok ("text/plain", true)
unfolding parse_headers
stored_as_text = refl

parse_headers-known_example :
    IsInert "text/plain"
    × IsStated params headers "text/plain"
    × ((headers.content_disposition ≡ none) ⊎ (headers.content_disposition ≡ some "inline"))
parse_headers-known_example = parse_headers-known params headers "text/plain" true stored_as_text

no_branch : determine_upload_branch_to_use params "main" ≡ none
unfolding determine_upload_branch_to_use pull_noted_in_branch
no_branch = refl

pr_noted : determine_upload_pr_to_use params ≡ some "12"
unfolding determine_upload_pr_to_use pull_noted_in_branch
pr_noted = refl

determine_upload_pr_lem_example :
    ((number : String) × (determine_upload_pr_to_use params ≡ some number))
    ⊎ (params.pr ≡ some "true")
determine_upload_pr_lem_example = determine_upload_pr_lem params "main" no_branch

-- A group of GitLab with a subgroup.
abbrev group : Owner
group = record (user_of 20) { service = "gitlab"; service_id = "g" }

abbrev subgroup : Owner
subgroup = record (user_of 21) {
  service = "gitlab";
  service_id = "s";
  parent_service_id = some "g";
}

abbrev gitlab : World
gitlab = record today {
  owners = group ∷ subgroup ∷ [];
  repos = record (repo_of 10) { author = 21; active = false; activated = false } ∷ [];
}

abbrev depth : Owner → ℕ
depth o = elim o.parent_service_id [ none ↦ 0 | some i ↦ if str_eq i "g" then 1 else 2 ]

-- The row that a query for a parent finds.
chosen :
    (x y : Bool) (parent : Owner)
    → one (if x then group ∷ (if y then subgroup ∷ [] else []) else if y then subgroup ∷ [] else [])
      ≡ ok parent
    → (group ≡ parent) ⊎ ((y ≡ true) × (subgroup ≡ parent))
chosen true true parent h = absurd (ground arith)
chosen true false parent h = inl (ok-injective h)
chosen false true parent h = inr (refl, ok-injective h)
chosen false false parent h = absurd (ground arith)

depth_above : (o : Owner) (i : String) → o.parent_service_id ≡ some i → 0 < depth o
depth_above o i e = ground arith

depth_subgroup :
    (o : Owner) (i : String)
    → o.parent_service_id ≡ some i
    → (str_eq "s" i && str_eq "gitlab" o.service) ≡ true
    → 1 < depth o
depth_subgroup o i e h =
    let k : "s" ≡ i = (eq_iff "s" i).0 (ground arith) in
    let l : o.parent_service_id ≡ some "s" = e ∙ ap (λ (x : String). some x) (sym k) in
    ground (arith, l)

depth_falls :
    (o parent : Owner) (i : String)
    → o.parent_service_id ≡ some i
    → parent_of gitlab o i ≡ ok parent
    → depth parent < depth o
depth_falls o parent i e f =
    elim (chosen (str_eq "g" i && str_eq "gitlab" o.service)
      (str_eq "s" i && str_eq "gitlab" o.service) parent f) [
        | inl g ↦ subst (λ (q : Owner). depth q < depth o) g (depth_above o i e)
        | inr (y, g) ↦ subst (λ (q : Owner). depth q < depth o) g (depth_subgroup o i e y)
      ]

climb-ends_example :
    ((root : Owner) × (climb 2 gitlab subgroup ≡ some (ok root)) × (root.parent_service_id ≡ none))
    ⊎ ((e : Error) × (climb 2 gitlab subgroup ≡ some (err e)))
climb-ends_example = climb-ends depth gitlab depth_falls 2 subgroup (omega arith)

window_allow_request-check_example :
    window_allow_request settings 3 gitlab (ok (repo_of 10, "aaa"))
    ≡ Option.map verdict (check_commit_upload_constraints settings 3 gitlab (repo_of 10) "aaa")
window_allow_request-check_example = window_allow_request-check settings 3 gitlab (repo_of 10) "aaa"

abbrev fresh_repo : Repository
fresh_repo = record (repo_of 10) { active = false; activated = false; deleted = true }

abbrev after : World
after = record today {
  repos = repo_of 10 ∷ [];
  segment_log = account_activated_repository_on_upload 1 10 ∷ [];
}

let_in :
    validate_upload settings 3 fresh_repo (some "aaa") (record today { repos = fresh_repo ∷ [] })
    ≡ some (ok tt, after)
unfolding validate_upload may_upload validate_activated_repo check_sessions check_owner_credits
    determine_responsible_owner climb check_credits repo_credits find_plan activate save_repo
    update_where lookup user_plan_representations
let_in = refl

validate_upload_lem_example :
    Validated settings fresh_repo (record today { repos = fresh_repo ∷ [] }) (ok tt, after)
validate_upload_lem_example =
    validate_upload_lem settings 3 fresh_repo (some "aaa")
      (record today { repos = fresh_repo ∷ [] }) (ok tt, after) let_in

abbrev inserted : Commit
inserted = new_commit "aaa" (some "main") none 10 none 1_000_000

insert_commit-stored_example :
    (stored 10 "aaa" (record today { commits = inserted ∷ [] }) ≡ ok inserted)
    × (inserted.state ≡ some "pending")
insert_commit-stored_example =
    insert_commit-stored "aaa" (some "main") none 10 none today
      (record today { commits = inserted ∷ [] }) inserted
      (unfold insert_commit insert_found in refl)
