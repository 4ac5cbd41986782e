-- ===== src/Examples/Webhooks.antt =====
-- Webhook requests on a concrete state.
use codecov_api.Base.{
  All, IsIn, String, [], any, ap, arith, false, join, mem, none, refl, some, str_eq, true, ◌∷◌, ◌≡◌,
  ◌≢◌, ◌⊎◌,
}
use codecov_api.Owner.{Commit, Owner, Repository}
use codecov_api.Store.{World, get_owner}
use codecov_api.Seats.{activated_user_count, listed}
use codecov_api.Seats.Count.{row_of}
use codecov_api.Seats.Cloud.{IsWithinSeats}
use codecov_api.Hooks.{
  Services, find_repo, owner_by_service_id, save_owner, save_repo, update_commits, update_where,
}
use codecov_api.Hooks.Rows.{GitRepo, no_fork}
use codecov_api.Hooks.Stable.{IsCoherent}
use codecov_api.Hooks.Members.{remove_member-removes}
use codecov_api.Hooks.Updates.{Updated}
use codecov_api.Hooks.Pushes.{github_post-refuses, push_commits-commits}
use codecov_api.Hooks.Receive.{from_github, receive_all, receive_all-IsCoherent}
use codecov_api.Hooks.Github.{
  Payload, Pushed, Request, get_repo, on_repository, push_commits, repository_event, set_pending,
  validate_signature,
}
use codecov_api.Hooks.Github.Accounts.{github_post, handle_event, remove_member}
use codecov_api.Hooks.Github.CiSkip.{ci_skip}
use codecov_api.Examples.{acme, repo_of, today, user_of}

abbrev services : Services
services = record {
  same_text = str_eq;
  hexdigest_sha256 = λ key body. join key body;
  hexdigest_sha1 = λ key body. body;
  beta_pending = λ i. true;
}

seats_left : IsWithinSeats acme today.owners
unfolding activated_user_count
seats_left n e = ground arith

-- The second user is removed.
abbrev acme_after : Owner
acme_after = record acme { plan_activated_users = some (3 ∷ []) }

abbrev user_after : Owner
user_after = record (user_of 2) { organizations = some [] }

acme_row : row_of 1 (remove_member acme (user_of 2) today).1.owners ≡ some acme_after
unfolding remove_member save_owner update_where
acme_row = refl

user_row : row_of 2 (remove_member acme (user_of 2) today).1.owners ≡ some user_after
unfolding remove_member save_owner update_where
user_row = refl

remove_member-removes_example :
    (mem 2 (listed acme_after.plan_activated_users) ≡ false)
    × (mem 1 (listed user_after.organizations) ≡ false)
remove_member-removes_example =
    remove_member-removes acme (user_of 2) today refl refl (refl, (refl, tt)) (refl, tt) acme_after
      user_after acme_row user_row

abbrev commit_of : String → Commit
commit_of id = record {
  repository = 10;
  commitid = id;
  branch = none;
  merged = some false;
  pullid = none;
  parent_commit_id = none;
  state = some "complete";
  timestamp = 0;
}

abbrev with_commits : World
with_commits = record today { commits = commit_of "aaa" ∷ commit_of "bbb" ∷ [] }

abbrev pushed : Pushed
pushed = record { id = "bbb"; message = some "Fix [ci skip]" }

push_commits-commits_example :
    Updated
      (λ k. (k.repository ≡ 10) × (IsIn k.commitid ("bbb" ∷ []) × (k.merged ≡ some false)))
      (λ k. record k { branch = some "main"; merged = some true })
      with_commits.commits
      (push_commits services "github" "key"
        (repo_of 10)
        "main"
        (pushed ∷ [])
        with_commits).1.commits
push_commits-commits_example =
    push_commits-commits services "github" "key" (repo_of 10) "main" pushed [] with_commits

push_commits_test :
    (push_commits services "github" "key" (repo_of 10) "main" (pushed ∷ []) with_commits).1.commits
    ≡ commit_of "aaa" ∷ record (commit_of "bbb") { branch = some "main"; merged = some true } ∷ []
unfolding push_commits update_commits update_where set_pending ci_skip
push_commits_test = refl

abbrev git_repo : GitRepo
git_repo = record {
  service_id = none;
  id = some "77";
  private = some true;
  branch = none;
  default_branch = some "main";
  name = some "api";
  fork = no_fork;
  owner_id = none;
}

abbrev payload : Payload
payload = record {
  action = some "deleted";
  repository = git_repo;
  ref = none;
  ref_type = none;
  commits = [];
  sha = none;
  context = none;
  state = none;
  number = none;
  pull_title = none;
  installation = none;
  sender_type = none;
  sender = none;
  organization_id = none;
  membership_user_id = none;
  member_id = none;
  purchase_account = none;
}

-- The deletion of the repository.
abbrev deletion : Request
deletion = record {
  event = repository_event;
  signature_256 = some "sha256=keybody";
  signature = none;
  content = "body";
  payload = payload;
}

deletion_deletes :
    any (λ (r : Repository). r.deleted) (github_post services "github" "key" deletion today).1.repos
    ≡ true
unfolding github_post validate_signature handle_event on_repository get_repo owner_by_service_id
    get_owner find_repo save_repo update_where
deletion_deletes = refl

deletion_changes : (github_post services "github" "key" deletion today).1 ≢ today
deletion_changes e = absurd (
    ground
      (arith, deletion_deletes, ap (λ (w : World). any (λ (r : Repository). r.deleted) w.repos) e))

github_post-refuses_example :
    (expected : String) × (((deletion.signature_256 ≡ some expected)
        × (join "sha256=" "keybody" ≡ expected))
      ⊎ ((deletion.signature_256 ≡ none)
          × (deletion.signature ≡ some expected)
          × (join "sha1=" "body" ≡ expected)))
github_post-refuses_example =
    github_post-refuses services "github" "key" deletion today deletion_changes

receive_all-IsCoherent_example :
    All IsCoherent
      (receive_all services
        (from_github "github" "key" deletion ∷ from_github "github" "key" deletion ∷ [])
        today).repos
receive_all-IsCoherent_example =
    receive_all-IsCoherent services
      (from_github "github" "key" deletion ∷ from_github "github" "key" deletion ∷ []) today
      (λ e. absurd (ground arith), tt)
