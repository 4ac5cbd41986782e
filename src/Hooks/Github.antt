-- ===== src/Hooks/Github.antt =====
-- webhook_handlers/views/github.py: `GithubWebhookHandler`. The service's name is a parameter, for
-- GithubEnterpriseWebhookHandler.
pub mod CiSkip
pub mod Accounts
use mathlib.Core.Option
use codecov_api.Base.{
  Bool, List, Option, String, [], false, if◌then◌else◌, join, leading, mem_str, none, nonzero, not,
  opt_false, skip, some, str_eq, true, ℕ, ◌&&◌, ◌==◌, ◌||◌, ◌∷◌,
}
use codecov_api.Owner.{Commit, Owner, Pull, Repository}
use codecov_api.Store.{
  Exec, not_found, notify, permission_denied, pulls_sync, pure, raise, status_set_pending,
  type_error, ◌>>=◌, ◌>>◌,
}
use codecov_api.Hooks.{
  Response, Services, accept, attempt, author_service, delete_branches, find_repo, has_complete,
  is_id, is_pull, is_text, or_404, owner_by_service_id, queue, respond, retire, save_repo, says,
  skip_codecov_status, skip_not_active, skip_pending_statuses, skip_processing, update_commits,
  update_pulls,
}
use codecov_api.Hooks.Rows.{GitRepo, get_or_create_from_git_repo}
use codecov_api.Hooks.Github.CiSkip.{ci_skip}

-- A commit in the data of a push.
pub record Pushed : Type 0 where
  pub id : String
  pub message : Option String

pub record Installation : Type 0 where
  pub account_id : Option String
  pub account_login : Option String
  pub id : Option ℕ

-- What the handlers read of the data of a request. A missing key is none.
pub record Payload : Type 0 where
  pub action : Option String
  pub repository : GitRepo
  pub ref : Option String
  pub ref_type : Option String
  pub commits : List Pushed
  pub sha : Option String
  pub context : Option String
  pub state : Option String
  pub number : Option ℕ
  pub pull_title : Option String
  pub installation : Option Installation
  pub sender_type : Option String
  pub sender : Option String
  pub organization_id : Option String
  pub membership_user_id : Option String
  pub member_id : Option String
  pub purchase_account : Option String

-- GitHubWebhookEvents, an event without a handler, and a request that names none.
pub data GithubEvent : Type 0 where
  pull_request_event delete_event push_event public_event status_event : GithubEvent
  repository_event ping_event installation_event installation_repositories_event : GithubEvent
  organization_event marketplace_purchase_event member_event : GithubEvent
  unhandled_event no_event : GithubEvent

pub record Request : Type 0 where
  pub event : GithubEvent
  pub signature_256 : Option String
  pub signature : Option String
  pub content : String
  pub payload : Payload

abbrev pub publicize : Repository → Repository
publicize r = record r { private = false; activated = false }

abbrev pub privatize : Repository → Repository
privatize r = record r { private = true }

-- What GithubWebhookHandler.repository does to the row, by the action.
abbrev pub repository_change : Option String → Option (Repository → Repository)
repository_change action =
    if is_text "publicized" action
    then some publicize
    else if is_text "privatized" action
    then some privatize
    else if is_text "deleted" action
    then some retire
    else none

abbrev pub pushed_ids : List Pushed → List String
pushed_ids [] = []
pushed_ids (c ∷ cs) = c.id ∷ pushed_ids cs

-- The filter of GithubWebhookHandler.push.
abbrev pub is_pushed : ℕ → List Pushed → Commit → Bool
is_pushed repoid commits c =
    (c.repository == repoid) && (mem_str c.commitid (pushed_ids commits) && opt_false c.merged)

abbrev pub set_branch : String → Commit → Commit
set_branch name c = record c { branch = some name }

abbrev pub set_merged : Commit → Commit
set_merged c = record c { merged = some true }

abbrev pub last_pushed : Pushed → List Pushed → Pushed
last_pushed c [] = c
last_pushed c (d ∷ ds) = last_pushed d ds

abbrev pub set_title : Option String → Pull → Pull
set_title title p = record p { title = title }

abbrev pub syncs : Option String → Bool
syncs action =
    is_text "opened" action
    || (is_text "closed" action || (is_text "reopened" action || is_text "synchronize" action))

module _ (services : Services) (service_name key : String) where
  -- The digest that is computed, and the one that the request states.
  abbrev pub digests : Request → Option (String × String)
  digests r = elim r.signature_256 [
    | some s ↦ some (join "sha256=" (services.hexdigest_sha256 key r.content), s)
    | none ↦ elim r.signature [
      | some s ↦ some (join "sha1=" (services.hexdigest_sha1 key r.content), s)
      | none ↦ none
    ]
  ]

  -- GithubWebhookHandler.validate_signature: constant_time_compare is equality.
  unfoldable pub validate_signature : Request → Exec (Unit {0})
  validate_signature r = elim (digests r) [
    | none ↦ raise permission_denied
    | some (computed, expected) ↦
        if str_eq computed expected then pure tt else raise permission_denied
  ]

  -- The last branch of GithubWebhookHandler._get_repo.
  unfoldable pub create_missing : GitRepo → Owner → Exec Repository
  unfolding get_or_create_from_git_repo
  create_missing git_repo owner =
      if nonzero owner.integration_id
      then get_or_create_from_git_repo services.same_text git_repo owner
      else raise not_found

  -- GithubWebhookHandler._get_repo
  unfoldable pub get_repo : GitRepo → Exec Repository
  unfolding owner_by_service_id find_repo create_missing
  get_repo git_repo = do
    owner ← attempt (owner_by_service_id service_name git_repo.owner_id)
    elim owner [
      | none ↦ (do
        row ← attempt (
            find_repo
              (λ owners r. author_service service_name owners r && is_id git_repo.id r.service_id))
        or_404 row)
      | some o ↦ (do
        row ←
            attempt
              (find_repo (λ owners r. (r.author == o.ownerid) && is_id git_repo.id r.service_id))
        elim row [ some r ↦ pure r | none ↦ create_missing git_repo o ])
    ]

  -- GithubWebhookHandler.repository
  unfoldable pub on_repository : Payload → Exec Response
  unfolding get_repo save_repo
  on_repository p = do
    repo ← get_repo p.repository
    elim (repository_change p.action) [ none ↦ accept | some f ↦ save_repo repo.repoid f >> accept ]

  -- GithubWebhookHandler.delete: a slice of None raises a TypeError.
  unfoldable pub on_delete : Payload → Exec Response
  unfolding get_repo delete_branches
  on_delete p = do
    repo ← get_repo p.repository
    if is_text "branch" p.ref_type
        then elim p.ref [
          | none ↦ raise type_error
          | some ref ↦ (do
            again ← get_repo p.repository
            _ ← delete_branches again.repoid (skip 11 ref)
            accept)
        ]
        else respond
            (says (join "Unsupported ref type: " (elim p.ref_type [ none ↦ "None" | some t ↦ t ])))

  -- GithubWebhookHandler.public
  unfoldable pub on_public : Payload → Exec Response
  unfolding get_repo save_repo
  on_public p = do repo ← get_repo p.repository; _ ← save_repo repo.repoid publicize; accept

  -- The end of GithubWebhookHandler.push: re.search raises for a message that is None.
  unfoldable pub set_pending : Repository → String → Pushed → Exec Response
  unfolding ci_skip
  set_pending repo name c = elim c.message [
    | none ↦ raise type_error
    | some message ↦
        if ci_skip message
        then respond (says "CI Skipped")
        else if services.beta_pending repo.repoid
        then queue (status_set_pending repo.repoid c.id name false) >> accept
        else accept
  ]

  -- The commits of a push to an active repository.
  unfoldable pub push_commits : Repository → String → List Pushed → Exec Response
  unfolding update_commits set_pending
  push_commits repo name [] = accept
  push_commits repo name (c ∷ cs) = do
    _ ← update_commits (is_pushed repo.repoid (c ∷ cs)) (set_branch name)
    _ ←
        if str_eq name repo.branch
        then update_commits (is_pushed repo.repoid (c ∷ cs)) set_merged
        else pure tt
    set_pending repo name (last_pushed c cs)

  -- GithubWebhookHandler.push
  unfoldable pub on_push : Payload → Exec Response
  unfolding get_repo push_commits
  on_push p = elim p.ref [
    | none ↦ raise type_error
    | some ref ↦ (do
      repo ← get_repo p.repository
      if not (str_eq (leading 5 (skip 5 ref)) "heads")
          then respond (says "Unsupported ref type: tag")
          else if not repo.active
          then respond skip_not_active
          else push_commits repo (skip 11 ref) p.commits)
  ]

  -- GithubWebhookHandler.status
  unfoldable pub on_status : Payload → Exec Response
  unfolding get_repo has_complete
  on_status p = do
    repo ← get_repo p.repository
    if not repo.active
        then respond skip_not_active
        else if is_text "codecov/" (Option.map (leading 8) p.context)
        then respond skip_codecov_status
        else if is_text "pending" p.state
        then respond skip_pending_statuses
        else (do
          complete ← has_complete repo.repoid p.sha
          elim p.sha [
            | none ↦ respond skip_processing
            | some sha ↦
                if complete
                then queue (notify repo.repoid sha) >> accept
                else respond skip_processing
          ])

  -- GithubWebhookHandler.pull_request
  unfoldable pub on_pull_request : Payload → Exec Response
  unfolding get_repo update_pulls
  on_pull_request p = do
    repo ← get_repo p.repository
    if not repo.active
        then respond skip_not_active
        else if syncs p.action
        then queue (pulls_sync repo.repoid p.number) >> accept
        else if is_text "edited" p.action
        then update_pulls (is_pull repo.repoid p.number) (set_title p.pull_title) >> accept
        else accept
