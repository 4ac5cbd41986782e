-- ===== src/Hooks/Bitbucket.antt =====
-- webhook_handlers/views/bitbucket.py and bitbucket_server.py.
use text.Mathlib.Text.{starts_with}
use codecov_api.Base.{
  Bool, List, Option, String, [], any, if◌then◌else◌, is_some, is_true, last_str, none, not,
  opt_str_eq, skip, some, split, str_eq, ℕ, ◌&&◌, ◌||◌, ◌∷◌,
}
use codecov_api.Owner.{Pull, Repository}
use codecov_api.Store.{
  Exec, attribute_error, name_error, notify, pulls_sync, pure, raise, ◌>>=◌, ◌>>◌,
}
use codecov_api.Hooks.{
  Response, accept, attempt, author_service, delete_branches, find_repo, has_complete, is_pull,
  is_text, need, or_404, queue, respond, says, skip_codecov_status, skip_not_active,
  skip_pending_statuses, skip_processing, update_pulls,
}

-- A change of a push: the type and the name of the old ref, and the new ref, which may be null or
-- an empty dictionary, which is false.
pub record Change : Type 0 where
  pub old_type : Option String
  pub old_name : Option String
  pub new_ref : Option Bool

-- What the handlers read of a request. A missing key is none.
pub record BitbucketRequest : Type 0 where
  pub event : Option String
  pub hook_uuid : Option String
  pub repository_uuid : Option String
  pub pullrequest_id : Option ℕ
  pub changes : Option (List Change)
  pub status_key : Option String
  pub status_state : Option String
  pub commit_href : Option String

-- s[:-1]
abbrev pub drop_last : String → String
drop_last String.[] = String.[]
drop_last (String.◌∷◌ c s) =
    let rest = drop_last s in elim s [ String.[] ↦ String.[] | String.◌∷◌ d t ↦ String.◌∷◌ c rest ]

abbrev pub set_state : Option String → Pull → Pull
set_state s p = record p { state = s }

-- BitbucketWebhookHandler._handle_pull_request_created_event
unfoldable pub on_pull_created : Option ℕ → Repository → Exec Response
on_pull_created pullid repo = do
  i ← need pullid
  _ ← queue (pulls_sync repo.repoid (some i))
  respond (says "Opening pull request in Codecov")

-- BitbucketWebhookHandler._handle_pull_request_state_change
unfoldable pub on_pull_state : Option String → Option ℕ → Repository → Exec Response
unfolding update_pulls
on_pull_state state pullid repo = do
  i ← need pullid
  _ ← update_pulls (is_pull repo.repoid (some i)) (set_state state)
  accept

-- The first loop of BitbucketWebhookHandler._handle_repo_push_event: the branches whose new ref is
-- null are deleted.
unfoldable pub delete_old : ℕ → List Change → Exec (Unit {0})
unfolding delete_branches
delete_old repoid [] = pure tt
delete_old repoid (c ∷ cs) =
    (if is_text "branch" c.old_type && not (is_some c.new_ref)
      then (do name ← need c.old_name; delete_branches repoid name)
      else pure tt)
    >> delete_old repoid cs

-- BitbucketWebhookHandler._handle_repo_push_event
unfoldable pub on_repo_push : Option (List Change) → Repository → Exec Response
unfolding delete_old
on_repo_push changes repo = do
  cs ← need changes
  _ ← delete_old repo.repoid cs
  if any (λ (c : Change). is_true c.new_ref) cs
      then respond (says "Synchronize codecov.yml skipped")
      else accept

-- BitbucketWebhookHandler._handle_repo_commit_status_change
unfoldable pub on_commit_status : BitbucketRequest → Repository → Exec Response
unfolding has_complete
on_commit_status r repo = do
  status_key ← need r.status_key
  if starts_with status_key "codecov" then respond skip_codecov_status else (do
    status_state ← need r.status_state
    if str_eq status_state "INPROGRESS" then respond skip_pending_statuses else (do
      href ← need r.commit_href
      let commitid = last_str "" (split b'/' href)
      complete ← has_complete repo.repoid (some commitid)
      if complete
          then queue (notify repo.repoid commitid) >> respond (says "Notify queued")
          else respond skip_processing))

-- The handler of the event.
unfoldable pub bitbucket_handle : BitbucketRequest → Repository → Exec Response
unfolding on_pull_created on_pull_state on_repo_push on_commit_status
bitbucket_handle r repo =
    if is_text "pullrequest:created" r.event
    then on_pull_created r.pullrequest_id repo
    else if is_text "pullrequest:fulfilled" r.event
    then on_pull_state (some "merged") r.pullrequest_id repo
    else if is_text "pullrequest:rejected" r.event
    then on_pull_state (some "closed") r.pullrequest_id repo
    else if is_text "repo:push" r.event
    then on_repo_push r.changes repo
    else if is_text "repo:commit_status_created" r.event
        || is_text "repo:commit_status_updated" r.event
    then on_commit_status r repo
    else accept

-- BitbucketWebhookHandler.post
unfoldable pub bitbucket_post : BitbucketRequest → Exec Response
unfolding find_repo bitbucket_handle
bitbucket_post r = do
  uuid ← need r.repository_uuid
  row ← attempt (
      find_repo (λ owners q.
        author_service "bitbucket" owners q
        && (str_eq q.service_id (drop_last (skip 1 uuid)) && opt_str_eq q.hookid r.hook_uuid)))
  repo ← or_404 row
  if not repo.active then respond skip_not_active else bitbucket_handle r repo

-- The same for a Bitbucket server, whose pushes have one change.
pub record ServerRequest : Type 0 where
  pub event : Option String
  pub repository_id : Option String
  pub pull_repository_id : Option String
  pub pull_request_id : Option ℕ
  pub pushed_change : Option Change

-- The id that BitbucketServerWebhookHandler._get_repo looks up.
abbrev pub server_id : ServerRequest → String → Exec String
server_id r event =
    if starts_with event "repo:"
    then need r.repository_id
    else if starts_with event "pr:"
    then need r.pull_repository_id
    else raise name_error

abbrev pub server_repo_id : ServerRequest → Exec String
server_repo_id r = elim r.event [ none ↦ raise attribute_error | some event ↦ server_id r event ]

-- BitbucketServerWebhookHandler._handle_repo_refs_change
unfoldable pub on_refs_change : Option Change → Repository → Exec Response
unfolding delete_branches
on_refs_change change repo = do
  c ← need change
  old_type ← need c.old_type
  _ ←
      if str_eq old_type "branch"
      then (do name ← need c.old_name; delete_branches repo.repoid name)
      else pure tt
  if is_true c.new_ref then respond (says "Synchronize codecov.yml skipped") else accept

-- BitbucketServerWebhookHandler.post
unfoldable pub bitbucket_server_post : ServerRequest → Exec Response
unfolding find_repo on_pull_created on_pull_state on_refs_change
bitbucket_server_post r = do
  repo_id ← server_repo_id r
  row ← attempt (
      find_repo
        (λ owners q. author_service "bitbucket_server" owners q && str_eq q.service_id repo_id))
  repo ← or_404 row
  if not repo.active
      then respond skip_not_active
      else if is_text "pr:opened" r.event
      then on_pull_created r.pull_request_id repo
      else if is_text "pr:merged" r.event
      then on_pull_state (some "merged") r.pull_request_id repo
      else if is_text "pr:declined" r.event
      then on_pull_state (some "closed") r.pull_request_id repo
      else if is_text "repo:refs_changed" r.event
      then on_refs_change r.pushed_change repo
      else accept
