-- ===== src/Hooks/Gitlab/System.antt =====
-- webhook_handlers/views/gitlab.py: the system hooks, which change projects, users and teams.
use codecov_api.Base.{
  Bool, Option, String, [], if◌then◌else◌, is_some, last_str, mem, none, not, opt_str_eq, same_bool,
  select, some, split, str_eq, ℕ, ◌&&◌, ◌++◌, ◌==◌, ◌||◌, ◌∷◌,
}
use codecov_api.Owner.{Owner, Repository}
use codecov_api.Store.{
  Exec, database_error, get_owner, key_error, permission_denied, pure, raise, save, ◌>>=◌,
}
use codecov_api.Seats.{listed}
use codecov_api.Hooks.{
  Response, accept, attempt, find_repo, first, is_id, is_text, respond, retire, save_owner,
  save_repo, says,
}
use codecov_api.Hooks.Rows.{insert_owner, insert_repo, new_owner, new_repo, opt_is}
use codecov_api.Hooks.Gitlab.{GitlabRequest, GitlabSettings, distinct, present, two_parts}

-- The ids of the repositories that a user may read, with one more or one less.
abbrev pub with_permission : ℕ → Owner → Owner → Owner
with_permission i user o = record o {
  permission = some (distinct (listed user.permission ++ i ∷ []));
}

abbrev pub without_permission : ℕ → Owner → Owner → Owner
without_permission i user o = record o {
  permission = some (select (λ j. not (j == i)) (distinct (listed user.permission)));
}

module _ (same : String → String → Bool) (service_name : String) where
  -- Repository.objects.get_or_create(author=..., service_id=..., name=..., private=...): a new row
  -- has the default branch.
  unfoldable pub get_or_create_project : ℕ → Option String → String → Bool → Exec Repository
  unfolding find_repo insert_repo
  get_or_create_project author none name private = raise database_error
  get_or_create_project author (some service_id) name private = do
    row ← attempt (
        find_repo (λ owners r.
          (r.author == author)
          && (str_eq r.service_id service_id && (same r.name name && same_bool r.private private))))
    elim row [
      | some r ↦ pure r
      | none ↦
          (λ w. insert_repo same (new_repo w.next_repoid author service_id private "master" name) w)
    ]

  -- The branch project_create of GitLabWebhookHandler._handle_system_hook_event.
  unfoldable pub create_project : GitlabRequest → Exec Response
  unfolding get_owner get_or_create_project
  create_project r = do
    path ← present r.path_with_namespace
    (owner_username, repo_name) ← two_parts (split b'/' path)
    owner ← attempt (
        get_owner
          (λ o. str_eq o.service service_name && opt_is same o.username (some owner_username)))
    elim owner [
      | none ↦ respond (says "Repository not created - unknown owner")
      | some o ↦ (do
        _ ←
            get_or_create_project o.ownerid r.project_id repo_name
              (is_text "private" r.project_visibility)
        respond (says "Repository created"))
    ]

  -- The branch project_rename.
  unfoldable pub rename_project : GitlabRequest → Option Repository → Exec Response
  unfolding save_repo
  rename_project r maybe_repo = do
    path ← present r.path_with_namespace
    repo ← present maybe_repo
    _ ← save_repo repo.repoid (λ q. record q { name = last_str "" (split b'/' path) })
    respond (says "Repository renamed")

  abbrev pub is_named : String → Owner → Bool
  is_named username o = str_eq o.service service_name && opt_is same o.username (some username)

  -- The new author and the new name, if there is a row for the owner.
  unfoldable pub give_to : String → Option Repository → Option Owner → Exec (Unit {0})
  unfolding save_repo
  give_to repo_name maybe_repo none = pure tt
  give_to repo_name maybe_repo (some o) = do
    repo ← present maybe_repo
    save_repo repo.repoid (λ q. record q { author = o.ownerid; name = repo_name })

  -- The same for the first row of the owner's name.
  unfoldable pub give_to_first : String → String → Option Repository → Exec (Unit {0})
  unfolding give_to
  give_to_first owner_username repo_name maybe_repo w =
      give_to repo_name maybe_repo (first (select (is_named owner_username) w.owners)) w

  -- The branch project_transfer.
  unfoldable pub transfer_project : GitlabRequest → Option Repository → Exec Response
  unfolding give_to_first
  transfer_project r maybe_repo = do
    path ← present r.path_with_namespace
    (owner_username, repo_name) ← two_parts (split b'/' path)
    _ ← give_to_first owner_username repo_name maybe_repo
    respond (says "Repository transfered")

  abbrev pub is_user : GitlabRequest → Owner → Bool
  is_user r o =
      str_eq o.service service_name
      && (is_id r.user_id o.service_id
          && (opt_is same o.username r.username
              && (opt_str_eq o.email r.email && opt_str_eq o.name r.name)))

  -- A row that is found is saved as it is, else one is made.
  unfoldable pub save_user : GitlabRequest → Option Owner → Exec Owner
  unfolding insert_owner save
  save_user r (some o) = save o
  save_user r none = elim r.user_id [
    | none ↦ raise database_error
    | some i ↦ (λ w.
        insert_owner same
          (record (new_owner w.next_ownerid w.now service_name i r.username) {
            email = r.email;
            name = r.name;
          })
          w)
  ]

  -- The branch user_create.
  unfoldable pub create_user : GitlabRequest → Exec Response
  unfolding get_owner save_user
  create_user r = do
    row ← attempt (get_owner (is_user r))
    _ ← save_user r row
    respond (says "User created")

  abbrev pub signed_in : GitlabRequest → Owner → Bool
  signed_in r o =
      str_eq o.service service_name && (is_id r.user_id o.service_id && is_some o.oauth_token)

  -- What user_add_to_team and user_remove_from_team write to the row of the user.
  unfoldable pub change_permission :
      GitlabRequest → Option Repository → Option Owner → Exec Response
  unfolding save_owner
  change_permission r maybe_repo none = respond (says "User not found or not active")
  change_permission r maybe_repo (some user) = do
    repo ← present maybe_repo
    if is_text "user_add_to_team" r.event_name
        then (do
          _ ← save_owner user.ownerid (with_permission repo.repoid user)
          respond (says "Permission added"))
        else if mem repo.repoid (listed user.permission)
        then (do
          _ ← save_owner user.ownerid (without_permission repo.repoid user)
          respond (says "Permission removed"))
        else raise key_error

  -- The branch user_add_to_team and user_remove_from_team of a private project.
  unfoldable pub change_team : GitlabRequest → Option Repository → Exec Response
  unfolding change_permission
  change_team r maybe_repo w =
      change_permission r maybe_repo (first (select (signed_in r) w.owners)) w

  -- GitLabWebhookHandler._handle_system_hook_event
  unfoldable pub on_system_hook : GitlabSettings → GitlabRequest → Option Repository → Exec Response
  unfolding create_project rename_project transfer_project create_user change_team save_repo
  on_system_hook settings r maybe_repo =
      if not settings.enterprise_license
      then raise permission_denied
      else if is_text "project_create" r.event_name
      then create_project r
      else if is_text "project_destroy" r.event_name
      then (do
        repo ← present maybe_repo
        _ ← save_repo repo.repoid retire
        respond (says "Repository deleted"))
      else if is_text "project_rename" r.event_name
      then rename_project r maybe_repo
      else if is_text "project_transfer" r.event_name
      then transfer_project r maybe_repo
      else if is_text "user_create" r.event_name
      then create_user r
      else if (is_text "user_add_to_team" r.event_name
            || is_text "user_remove_from_team" r.event_name)
          && is_text "private" r.project_visibility
      then change_team r maybe_repo
      else accept
