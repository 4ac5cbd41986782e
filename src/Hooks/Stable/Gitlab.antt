-- ===== src/Hooks/Stable/Gitlab.antt =====
-- webhook_handlers/views/gitlab.py: every handler but that of a job keeps a stable condition.
use codecov_api.Base.{
  Bool, List, Option, String, [], last_str, mem, none, not, refl, select, some, split, str_eq,
  truthy, ℕ, ◌&&◌, ◌||◌, ◌∷◌,
}
use codecov_api.Owner.{Commit, Owner, Repository}
use codecov_api.Store.{Outcome, World, err, notify, ok, one, pulls_sync, ◌>>=◌}
use codecov_api.Seats.{listed}
use codecov_api.Hooks.{
  author_service, first, found, is_complete, is_id, is_pull, is_text, need, queue, respond, retire,
  says, skip_pending_statuses, skip_processing,
}
use codecov_api.Hooks.Rows.{new_owner, new_repo, opt_is, or_text}
use codecov_api.Hooks.Rules.{
  After, Keeps, Keeps-accept, Keeps-attempt, Keeps-bind, Keeps-if, Keeps-need, Keeps-option,
  Keeps-or_404, Keeps-pure, Keeps-raise, Keeps-respond, Keeps-skip,
}
use codecov_api.Hooks.Stable.{
  IsStable, Keeps-find_repo, Keeps-get_owner, Keeps-insert_owner, Keeps-insert_repo, Keeps-queue,
  Keeps-save, Keeps-save_owner, Keeps-save_repo, Keeps-update_pulls,
}
use codecov_api.Hooks.Gitlab.System.{
  change_permission, change_team, create_project, create_user, get_or_create_project, give_to,
  give_to_first, is_named, is_user, on_system_hook, rename_project, save_user, signed_in,
  transfer_project, with_permission, without_permission,
}
use codecov_api.Hooks.Gitlab.Post.{gitlab_handle, gitlab_post}
use codecov_api.Hooks.Gitlab.{
  GitlabRequest, GitlabSettings, check_secret, close_pull, notify_commit, on_job, on_merge_request,
  present, two_parts, validate_secret,
}

after_commit :
    (I : World → Type 0) (o : Outcome (Option Commit)) (w : World)
    → ((i : ℕ) (c : String) → Keeps I (queue (notify i c)))
    → I w
    → After (λ _. I) I (notify_commit o w)
unfolding notify_commit
after_commit I (err e) w notes h = h
after_commit I (ok none) w notes h = h
after_commit I (ok (some c)) w notes h =
    (Keeps-bind _ _ (notes c.repository c.commitid)
        (λ _. Keeps-respond (says "Notify queued."))).run
      w h

module _ {I : World → Type 0} (stable : IsStable I) where
  Keeps-present : {A : Type 0} (a : Option A) → Keeps I (present a)
  Keeps-present none = Keeps-raise _
  Keeps-present (some a) = Keeps-pure a

  pub Keeps-on_job :
      (r : GitlabRequest) (repo : Option Repository)
      → ((i : ℕ) (c : String) → Keeps I (queue (notify i c)))
      → Keeps I (on_job r repo)
  unfolding on_job
  Keeps-on_job r repo notes =
      Keeps-if (is_text "pending" r.build_status) _ _ (Keeps-respond skip_pending_statuses) (
        Keeps-bind _ _ (Keeps-present repo) (λ repo.
          Keeps-if (not repo.active) _ _ (Keeps-respond skip_processing) (record {
            run = λ w h.
                after_commit I (found (one (select (is_complete repo.repoid r.sha) w.commits))) w
                  notes h;
          })))

  Keeps-two_parts : (parts : List String) → Keeps I (two_parts parts)
  Keeps-two_parts [] = Keeps-raise _
  Keeps-two_parts (a ∷ []) = Keeps-raise _
  Keeps-two_parts (a ∷ b ∷ []) = Keeps-pure _
  Keeps-two_parts (a ∷ b ∷ c ∷ rest) = Keeps-raise _

  Keeps-check_secret :
      (settings : GitlabSettings) (token secret : Option String)
      → Keeps I (check_secret settings token secret)
  unfolding check_secret validate_secret
  Keeps-check_secret settings token none = Keeps-skip
  Keeps-check_secret settings token (some secret) = Keeps-if _ _ _ (Keeps-raise _) Keeps-skip

  Keeps-sync :
      (repo : Repository) (iid : Option ℕ) (message : String)
      → Keeps I
          (do i ← need iid; _ ← queue (pulls_sync repo.repoid (some i)); respond (says message))
  Keeps-sync repo iid message = Keeps-bind _ _ (Keeps-need iid) (λ i.
      Keeps-bind _ _ (Keeps-queue stable (pulls_sync repo.repoid (some i)) refl)
        (λ _. Keeps-respond (says message)))

  Keeps-on_merge_request :
      (r : GitlabRequest) (repo : Option Repository) → Keeps I (on_merge_request r repo)
  unfolding on_merge_request
  Keeps-on_merge_request r repo = Keeps-bind _ _ (Keeps-present repo) (λ repo.
      Keeps-if (is_text "open" r.action) _ _
        (Keeps-sync repo r.iid "Opening pull request in Codecov")
        (Keeps-if (is_text "close" r.action) _ _
          (Keeps-bind _ _ (Keeps-need r.iid) (λ i.
            Keeps-bind _ _ (Keeps-update_pulls stable (is_pull repo.repoid (some i)) close_pull)
              (λ _. Keeps-respond (says "Pull request closed"))))
          (Keeps-if (is_text "merge" r.action) _ _ (Keeps-sync repo r.iid "Pull request merged") (
            Keeps-if (is_text "update" r.action) _ _
              (Keeps-sync repo r.iid "Pull request synchronize queued") Keeps-accept))))

  module _ (same : String → String → Bool) (service_name : String) where
    Keeps-get_or_create_project :
        (author : ℕ) (service_id : Option String) (name : String) (private : Bool)
        → Keeps I (get_or_create_project same service_name author service_id name private)
    unfolding get_or_create_project
    Keeps-get_or_create_project author none name private = Keeps-raise _
    Keeps-get_or_create_project author (some i) name private =
        Keeps-bind _ _ (Keeps-attempt _ (Keeps-find_repo stable _)) (λ row.
          Keeps-option row
            (Keeps-insert_repo stable same
              (λ w. new_repo w.next_repoid author i private "master" name) (λ w e. (refl, refl)))
            (λ r. Keeps-pure r))

    Keeps-create_project : (r : GitlabRequest) → Keeps I (create_project same service_name r)
    unfolding create_project
    Keeps-create_project r = Keeps-bind _ _ (Keeps-present r.path_with_namespace) (λ path.
        Keeps-bind _ _ (Keeps-two_parts (split b'/' path)) (λ (owner_username, repo_name).
          Keeps-bind _ _
            (Keeps-attempt _ (
              Keeps-get_owner stable (λ o.
                str_eq o.service service_name && opt_is same o.username (some owner_username))))
            (λ owner.
              Keeps-option owner (Keeps-respond (says "Repository not created - unknown owner"))
                (λ o.
                  Keeps-bind _ _
                    (Keeps-get_or_create_project o.ownerid r.project_id repo_name
                      (is_text "private" r.project_visibility))
                    (λ _. Keeps-respond (says "Repository created"))))))

    Keeps-rename_project :
        (r : GitlabRequest) (repo : Option Repository)
        → Keeps I (rename_project same service_name r repo)
    unfolding rename_project
    Keeps-rename_project r repo = Keeps-bind _ _ (Keeps-present r.path_with_namespace) (λ path.
        Keeps-bind _ _ (Keeps-present repo) (λ repo.
          Keeps-bind _ _
            (Keeps-save_repo stable repo.repoid
              (λ q. record q { name = last_str "" (split b'/' path) }) (λ q c. c))
            (λ _. Keeps-respond (says "Repository renamed"))))

    Keeps-give_to :
        (repo_name : String) (repo : Option Repository) (o : Option Owner)
        → Keeps I (give_to same service_name repo_name repo o)
    unfolding give_to
    Keeps-give_to repo_name repo none = Keeps-skip
    Keeps-give_to repo_name repo (some o) = Keeps-bind _ _ (Keeps-present repo) (λ repo.
        Keeps-save_repo stable repo.repoid (λ q. record q { author = o.ownerid; name = repo_name })
          (λ q c. c))

    Keeps-give_to_first :
        (username repo_name : String) (repo : Option Repository)
        → Keeps I (give_to_first same service_name username repo_name repo)
    unfolding give_to_first
    Keeps-give_to_first username repo_name repo = record {
      run = λ w h.
          (Keeps-give_to repo_name repo
              (first (select (is_named same service_name username) w.owners))).run
            w h;
    }

    Keeps-transfer_project :
        (r : GitlabRequest) (repo : Option Repository)
        → Keeps I (transfer_project same service_name r repo)
    unfolding transfer_project
    Keeps-transfer_project r repo = Keeps-bind _ _ (Keeps-present r.path_with_namespace) (λ path.
        Keeps-bind _ _ (Keeps-two_parts (split b'/' path)) (λ (owner_username, repo_name).
          Keeps-bind _ _ (Keeps-give_to_first owner_username repo_name repo)
            (λ _. Keeps-respond (says "Repository transfered"))))

    Keeps-save_user :
        (r : GitlabRequest) (row : Option Owner) → Keeps I (save_user same service_name r row)
    unfolding save_user
    Keeps-save_user r (some o) = Keeps-save stable o
    Keeps-save_user r none = Keeps-option r.user_id (Keeps-raise _) (λ i.
        Keeps-insert_owner stable same (λ w.
          record (new_owner w.next_ownerid w.now service_name i r.username) {
            email = r.email;
            name = r.name;
          }))

    Keeps-create_user : (r : GitlabRequest) → Keeps I (create_user same service_name r)
    unfolding create_user
    Keeps-create_user r =
        Keeps-bind _ _ (Keeps-attempt _ (Keeps-get_owner stable (is_user same service_name r)))
          (λ row. Keeps-bind _ _ (Keeps-save_user r row) (λ _. Keeps-respond (says "User created")))

    Keeps-change_permission :
        (r : GitlabRequest) (repo : Option Repository) (user : Option Owner)
        → Keeps I (change_permission same service_name r repo user)
    unfolding change_permission
    Keeps-change_permission r repo none = Keeps-respond (says "User not found or not active")
    Keeps-change_permission r repo (some user) = Keeps-bind _ _ (Keeps-present repo) (λ repo.
        Keeps-if (is_text "user_add_to_team" r.event_name) _ _
          (Keeps-bind _ _ (Keeps-save_owner stable user.ownerid (with_permission repo.repoid user))
            (λ _. Keeps-respond (says "Permission added")))
          (Keeps-if (mem repo.repoid (listed user.permission)) _ _
            (Keeps-bind _ _
              (Keeps-save_owner stable user.ownerid (without_permission repo.repoid user))
              (λ _. Keeps-respond (says "Permission removed")))
            (Keeps-raise _)))

    Keeps-change_team :
        (r : GitlabRequest) (repo : Option Repository)
        → Keeps I (change_team same service_name r repo)
    unfolding change_team
    Keeps-change_team r repo = record {
      run = λ w h.
          (Keeps-change_permission r repo
              (first (select (signed_in same service_name r) w.owners))).run
            w h;
    }

    Keeps-on_system_hook :
        (settings : GitlabSettings) (r : GitlabRequest) (repo : Option Repository)
        → Keeps I (on_system_hook same service_name settings r repo)
    unfolding on_system_hook
    Keeps-on_system_hook settings r repo =
        Keeps-if (not settings.enterprise_license) _ _ (Keeps-raise _) (
          Keeps-if (is_text "project_create" r.event_name) _ _ (Keeps-create_project r) (
            Keeps-if (is_text "project_destroy" r.event_name) _ _
              (Keeps-bind _ _ (Keeps-present repo) (λ repo.
                Keeps-bind _ _ (Keeps-save_repo stable repo.repoid retire (λ q c e. (refl, refl)))
                  (λ _. Keeps-respond (says "Repository deleted"))))
              (Keeps-if (is_text "project_rename" r.event_name) _ _ (Keeps-rename_project r repo) (
                Keeps-if (is_text "project_transfer" r.event_name) _ _
                  (Keeps-transfer_project r repo)
                  (Keeps-if (is_text "user_create" r.event_name) _ _ (Keeps-create_user r) (
                    Keeps-if
                      ((is_text "user_add_to_team" r.event_name
                          || is_text "user_remove_from_team" r.event_name)
                        && is_text "private" r.project_visibility)
                      _ _ (Keeps-change_team r repo) Keeps-accept))))))

    Keeps-gitlab_handle :
        (settings : GitlabSettings) (r : GitlabRequest) (repo : Option Repository)
        → Keeps I (on_job r repo)
        → Keeps I (gitlab_handle same service_name settings r repo)
    unfolding gitlab_handle
    Keeps-gitlab_handle settings r repo job =
        Keeps-if (is_text "Push Hook" r.event) _ _ (Keeps-respond (says "No yaml cached yet.")) (
          Keeps-if (is_text "Job Hook" r.event) _ _ job (
            Keeps-if (is_text "Merge Request Hook" r.event) _ _ (Keeps-on_merge_request r repo) (
              Keeps-if (is_text "System Hook" r.event) _ _ (Keeps-on_system_hook settings r repo)
                Keeps-accept)))

    pub Keeps-gitlab_post :
        (settings : GitlabSettings) (r : GitlabRequest)
        → ((repo : Option Repository) → Keeps I (on_job r repo))
        → Keeps I (gitlab_post same service_name settings r)
    unfolding gitlab_post
    Keeps-gitlab_post settings r job =
        Keeps-if
          (truthy (or_text r.project_id r.target_project_id)
            && not (is_text "project_create" r.event_name))
          _ _
          (Keeps-bind _ _
            (Keeps-attempt _ (
              Keeps-find_repo stable (λ owners q.
                author_service service_name owners q
                && is_id (or_text r.project_id r.target_project_id) q.service_id)))
            (λ row. Keeps-bind _ _ (Keeps-or_404 row) (λ repo.
              Keeps-bind _ _ (Keeps-check_secret settings r.token repo.webhook_secret)
                (λ _. Keeps-gitlab_handle settings r (some repo) (job (some repo))))))
          (Keeps-gitlab_handle settings r none (job none))
