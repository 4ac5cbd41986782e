-- ===== src/Hooks/Gitlab/Post.antt =====
-- webhook_handlers/views/gitlab.py: `post`, which finds the repository, checks the token and calls the
-- handler of the event.
use codecov_api.Base.{Bool, Option, String, if◌then◌else◌, none, not, some, truthy, ◌&&◌}
use codecov_api.Owner.{Repository}
use codecov_api.Store.{Exec, ◌>>=◌}
use codecov_api.Hooks.{
  Response, accept, attempt, author_service, find_repo, is_id, is_text, or_404, respond, says,
}
use codecov_api.Hooks.Rows.{or_text}
use codecov_api.Hooks.Gitlab.{GitlabRequest, GitlabSettings, check_secret, on_job, on_merge_request}
use codecov_api.Hooks.Gitlab.System.{on_system_hook}

module _ (same : String → String → Bool) (service_name : String) where
  -- The handler of the event.
  unfoldable pub gitlab_handle : GitlabSettings → GitlabRequest → Option Repository → Exec Response
  unfolding on_job on_merge_request on_system_hook
  gitlab_handle settings r maybe_repo =
      if is_text "Push Hook" r.event
      then respond (says "No yaml cached yet.")
      else if is_text "Job Hook" r.event
      then on_job r maybe_repo
      else if is_text "Merge Request Hook" r.event
      then on_merge_request r maybe_repo
      else if is_text "System Hook" r.event
      then on_system_hook same service_name settings r maybe_repo
      else accept

  -- GitLabWebhookHandler.post
  unfoldable pub gitlab_post : GitlabSettings → GitlabRequest → Exec Response
  unfolding find_repo check_secret gitlab_handle
  gitlab_post settings r = do
    let project = or_text r.project_id r.target_project_id
    if truthy project && not (is_text "project_create" r.event_name)
        then (do
          row ← attempt (
              find_repo
                (λ owners q. author_service service_name owners q && is_id project q.service_id))
          repo ← or_404 row
          _ ← check_secret settings r.token repo.webhook_secret
          gitlab_handle settings r (some repo))
        else gitlab_handle settings r none
