-- ===== src/Hooks/Gitlab.antt =====
-- webhook_handlers/views/gitlab.py: `GitLabWebhookHandler`. The service's name is a parameter, for
-- GitLabEnterpriseWebhookHandler.
pub mod System
pub mod Post
use codecov_api.Base.{
  Bool, List, Option, String, [], if◌then◌else◌, none, not, select, some, str_eq, ℕ, ◌&&◌, ◌==◌,
  ◌∷◌,
}
use codecov_api.Owner.{Commit, Pull, Repository}
use codecov_api.Store.{
  Exec, Outcome, attribute_error, err, notify, ok, one, permission_denied, pulls_sync, pure, raise,
  value_error, ◌>>=◌, ◌>>◌,
}
use codecov_api.Hooks.{
  Response, accept, found, is_complete, is_pull, is_text, need, queue, respond, says,
  skip_pending_statuses, skip_processing, update_pulls,
}

-- What the handlers read of a request. A missing key is none.
pub record GitlabRequest : Type 0 where
  pub event : Option String
  pub token : Option String
  pub project_id : Option String
  pub target_project_id : Option String
  pub event_name : Option String
  pub build_status : Option String
  pub sha : Option String
  pub action : Option String
  pub iid : Option ℕ
  pub path_with_namespace : Option String
  pub project_visibility : Option String
  pub user_id : Option String
  pub username : Option String
  pub email : Option String
  pub name : Option String

-- The settings webhook_validation and enterprise_license.
pub record GitlabSettings : Type 0 where
  pub webhook_validation : Bool
  pub enterprise_license : Bool

-- An attribute of None.
abbrev pub present {ℓ} : {A : Type ℓ} → Option A → Exec A
present none = raise attribute_error
present (some a) = pure a

-- `list(set(...))`, in the order in which the ids first occur.
abbrev pub distinct : List ℕ → List ℕ
distinct [] = []
distinct (i ∷ ids) = i ∷ select (λ j. not (j == i)) (distinct ids)

-- Two parts of a path, or a ValueError.
abbrev pub two_parts : List String → Exec (String × String)
two_parts (a ∷ b ∷ []) = pure (a, b)
two_parts _ = raise value_error

abbrev pub close_pull : Pull → Pull
close_pull p = record p { state = some "closed" }

-- GitLabWebhookHandler._validate_secret: constant_time_compare takes None as the text None.
unfoldable pub validate_secret : GitlabSettings → Option String → String → Exec (Unit {0})
validate_secret settings token secret =
    if settings.webhook_validation
      && not (str_eq secret (elim token [ none ↦ "None" | some t ↦ t ]))
    then raise permission_denied
    else pure tt

-- A repository without a secret is not checked.
unfoldable pub check_secret : GitlabSettings → Option String → Option String → Exec (Unit {0})
unfolding validate_secret
check_secret settings token none = pure tt
check_secret settings token (some secret) = validate_secret settings token secret

-- The end of GitLabWebhookHandler._handle_job_event, for the commit that was looked up.
unfoldable pub notify_commit : Outcome (Option Commit) → Exec Response
notify_commit (err e) = raise e
notify_commit (ok none) = respond skip_processing
notify_commit (ok (some c)) =
    queue (notify c.repository c.commitid) >> respond (says "Notify queued.")

-- GitLabWebhookHandler._handle_job_event
unfoldable pub on_job : GitlabRequest → Option Repository → Exec Response
unfolding notify_commit
on_job r maybe_repo =
    if is_text "pending" r.build_status then respond skip_pending_statuses else (do
      repo ← present maybe_repo
      if not repo.active then respond skip_processing else (λ w.
          notify_commit (found (one (select (is_complete repo.repoid r.sha) w.commits))) w))

-- GitLabWebhookHandler._handle_merge_request_event
unfoldable pub on_merge_request : GitlabRequest → Option Repository → Exec Response
unfolding update_pulls
on_merge_request r maybe_repo = do
  repo ← present maybe_repo
  if is_text "open" r.action
      then (do
        iid ← need r.iid
        _ ← queue (pulls_sync repo.repoid (some iid))
        respond (says "Opening pull request in Codecov"))
      else if is_text "close" r.action
      then (do
        iid ← need r.iid
        _ ← update_pulls (is_pull repo.repoid (some iid)) close_pull
        respond (says "Pull request closed"))
      else if is_text "merge" r.action
      then (do
        iid ← need r.iid
        _ ← queue (pulls_sync repo.repoid (some iid))
        respond (says "Pull request merged"))
      else if is_text "update" r.action
      then (do
        iid ← need r.iid
        _ ← queue (pulls_sync repo.repoid (some iid))
        respond (says "Pull request synchronize queued"))
      else accept
