-- ===== src/Hooks/Stable/Bitbucket.antt =====
-- webhook_handlers/views/bitbucket.py and bitbucket_server.py: the handlers keep a stable condition.
use text.Mathlib.Text.{starts_with}
use codecov_api.Base.{
  Bool, List, Option, String, [], any, if◌then◌else◌, is_some, is_true, last_str, not, opt_str_eq,
  refl, skip, some, split, str_eq, ℕ, ◌&&◌, ◌||◌, ◌∷◌,
}
use codecov_api.Owner.{Repository}
use codecov_api.Store.{World, notify, pulls_sync, pure, ◌>>=◌}
use codecov_api.Hooks.{
  author_service, delete_branches, is_pull, is_text, need, queue, says, skip_codecov_status,
  skip_not_active, skip_pending_statuses, skip_processing,
}
use codecov_api.Hooks.Rules.{
  Keeps, Keeps-accept, Keeps-attempt, Keeps-bind, Keeps-if, Keeps-need, Keeps-option, Keeps-or_404,
  Keeps-raise, Keeps-respond, Keeps-skip,
}
use codecov_api.Hooks.Stable.{
  IsStable, Keeps-delete_branches, Keeps-find_repo, Keeps-has_complete, Keeps-queue,
  Keeps-update_pulls,
}
use codecov_api.Hooks.Bitbucket.{
  BitbucketRequest, Change, ServerRequest, bitbucket_handle, bitbucket_post, bitbucket_server_post,
  delete_old, drop_last, on_commit_status, on_pull_created, on_pull_state, on_refs_change,
  on_repo_push, server_id, set_state,
}

module _ {I : World → Type 0} (stable : IsStable I) where
  Keeps-on_pull_created : (i : Option ℕ) (repo : Repository) → Keeps I (on_pull_created i repo)
  unfolding on_pull_created
  Keeps-on_pull_created i repo = Keeps-bind _ _ (Keeps-need i) (λ i.
      Keeps-bind _ _ (Keeps-queue stable (pulls_sync repo.repoid (some i)) refl)
        (λ _. Keeps-respond (says "Opening pull request in Codecov")))

  Keeps-on_pull_state :
      (state : Option String) (i : Option ℕ) (repo : Repository)
      → Keeps I (on_pull_state state i repo)
  unfolding on_pull_state
  Keeps-on_pull_state state i repo = Keeps-bind _ _ (Keeps-need i) (λ i.
      Keeps-bind _ _ (Keeps-update_pulls stable (is_pull repo.repoid (some i)) (set_state state))
        (λ _. Keeps-accept))

  Keeps-delete_named :
      (b : Bool) (repoid : ℕ) (name : Option String)
      → Keeps I (if b then (do n ← need name; delete_branches repoid n) else pure tt)
  Keeps-delete_named b repoid name =
      Keeps-if b _ _ (Keeps-bind _ _ (Keeps-need name) (λ n. Keeps-delete_branches stable repoid n))
        Keeps-skip

  Keeps-delete_old : (repoid : ℕ) (cs : List Change) → Keeps I (delete_old repoid cs)
  unfolding delete_old
  Keeps-delete_old repoid [] = Keeps-skip
  Keeps-delete_old repoid (c ∷ cs) =
      Keeps-bind _ _
        (Keeps-delete_named (is_text "branch" c.old_type && not (is_some c.new_ref)) repoid
          c.old_name)
        (λ _. Keeps-delete_old repoid cs)

  Keeps-on_repo_push :
      (changes : Option (List Change)) (repo : Repository) → Keeps I (on_repo_push changes repo)
  unfolding on_repo_push
  Keeps-on_repo_push changes repo = Keeps-bind _ _ (Keeps-need changes) (λ cs.
      Keeps-bind _ _ (Keeps-delete_old repo.repoid cs) (λ _.
        Keeps-if (any (λ (c : Change). is_true c.new_ref) cs) _ _
          (Keeps-respond (says "Synchronize codecov.yml skipped")) Keeps-accept))

  Keeps-on_commit_status :
      (r : BitbucketRequest) (repo : Repository)
      → ((c : String) → Keeps I (queue (notify repo.repoid c)))
      → Keeps I (on_commit_status r repo)
  unfolding on_commit_status
  Keeps-on_commit_status r repo notes = Keeps-bind _ _ (Keeps-need r.status_key) (λ status_key.
      Keeps-if (starts_with status_key "codecov") _ _ (Keeps-respond skip_codecov_status) (
        Keeps-bind _ _ (Keeps-need r.status_state) (λ status_state.
          Keeps-if (str_eq status_state "INPROGRESS") _ _ (Keeps-respond skip_pending_statuses) (
            Keeps-bind _ _ (Keeps-need r.commit_href) (λ href.
              Keeps-bind _ _
                (Keeps-has_complete stable repo.repoid (some (last_str "" (split b'/' href))))
                (λ complete.
                  Keeps-if complete _ _
                    (Keeps-bind _ _ (notes (last_str "" (split b'/' href)))
                      (λ _. Keeps-respond (says "Notify queued")))
                    (Keeps-respond skip_processing)))))))

  -- Given the same of the handler of a status.
  pub Keeps-bitbucket_handle :
      (r : BitbucketRequest) (repo : Repository)
      → Keeps I (on_commit_status r repo)
      → Keeps I (bitbucket_handle r repo)
  unfolding bitbucket_handle
  Keeps-bitbucket_handle r repo status =
      Keeps-if (is_text "pullrequest:created" r.event) _ _
        (Keeps-on_pull_created r.pullrequest_id repo)
        (Keeps-if (is_text "pullrequest:fulfilled" r.event) _ _
          (Keeps-on_pull_state (some "merged") r.pullrequest_id repo)
          (Keeps-if (is_text "pullrequest:rejected" r.event) _ _
            (Keeps-on_pull_state (some "closed") r.pullrequest_id repo)
            (Keeps-if (is_text "repo:push" r.event) _ _ (Keeps-on_repo_push r.changes repo) (
              Keeps-if
                (is_text "repo:commit_status_created" r.event
                  || is_text "repo:commit_status_updated" r.event)
                _ _ status Keeps-accept))))

  Keeps-on_refs_change :
      (change : Option Change) (repo : Repository) → Keeps I (on_refs_change change repo)
  unfolding on_refs_change
  Keeps-on_refs_change change repo = Keeps-bind _ _ (Keeps-need change) (λ c.
      Keeps-bind _ _ (Keeps-need c.old_type) (λ old_type.
        Keeps-bind _ _ (Keeps-delete_named (str_eq old_type "branch") repo.repoid c.old_name) (λ _.
          Keeps-if (is_true c.new_ref) _ _ (Keeps-respond (says "Synchronize codecov.yml skipped"))
            Keeps-accept)))

  Keeps-server_id : (r : ServerRequest) (event : String) → Keeps I (server_id r event)
  Keeps-server_id r event =
      Keeps-if (starts_with event "repo:") _ _ (Keeps-need r.repository_id)
        (Keeps-if (starts_with event "pr:") _ _ (Keeps-need r.pull_repository_id) (Keeps-raise _))

  pub Keeps-bitbucket_server_post : (r : ServerRequest) → Keeps I (bitbucket_server_post r)
  unfolding bitbucket_server_post
  Keeps-bitbucket_server_post r =
      Keeps-bind _ _ (Keeps-option r.event (Keeps-raise _) (λ event. Keeps-server_id r event))
        (λ repo_id.
          Keeps-bind _ _
            (Keeps-attempt _ (
              Keeps-find_repo stable (λ owners q.
                author_service "bitbucket_server" owners q && str_eq q.service_id repo_id)))
            (λ row. Keeps-bind _ _ (Keeps-or_404 row) (λ repo.
              Keeps-if (not repo.active) _ _ (Keeps-respond skip_not_active) (
                Keeps-if (is_text "pr:opened" r.event) _ _
                  (Keeps-on_pull_created r.pull_request_id repo)
                  (Keeps-if (is_text "pr:merged" r.event) _ _
                    (Keeps-on_pull_state (some "merged") r.pull_request_id repo)
                    (Keeps-if (is_text "pr:declined" r.event) _ _
                      (Keeps-on_pull_state (some "closed") r.pull_request_id repo)
                      (Keeps-if (is_text "repo:refs_changed" r.event) _ _
                        (Keeps-on_refs_change r.pushed_change repo) Keeps-accept)))))))

  pub Keeps-bitbucket_post :
      (r : BitbucketRequest)
      → ((i : ℕ) (c : String) → Keeps I (queue (notify i c)))
      → Keeps I (bitbucket_post r)
  unfolding bitbucket_post
  Keeps-bitbucket_post r notes = Keeps-bind _ _ (Keeps-need r.repository_uuid) (λ uuid.
      Keeps-bind _ _
        (Keeps-attempt _ (
          Keeps-find_repo stable (λ owners q.
            author_service "bitbucket" owners q
            && (str_eq q.service_id (drop_last (skip 1 uuid)) && opt_str_eq q.hookid r.hook_uuid))))
        (λ row. Keeps-bind _ _ (Keeps-or_404 row) (λ repo.
          Keeps-if (not repo.active) _ _ (Keeps-respond skip_not_active)
            (Keeps-bitbucket_handle r repo (Keeps-on_commit_status r repo (notes repo.repoid))))))
