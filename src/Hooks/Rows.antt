-- ===== src/Hooks/Rows.antt =====
-- core/managers.py, `get_or_create_from_git_repo`, and the creation of rows by `get_or_create`.
use codecov_api.Base.{
  Bool, Option, String, [], any, false, if◌then◌else◌, is_some, none, same_bool, some, str_eq, true,
  truthy, ℕ, ◌&&◌, ◌++◌, ◌+◌, ◌==◌, ◌||◌, ◌∷◌,
}
use codecov_api.Owner.{Owner, Repository}
use codecov_api.Store.{Exec, database_error, err, get_owner, ok, pure, raise, ◌>>=◌}
use codecov_api.Hooks.{attempt, find_repo, need, save_repo}

abbrev pub opt_is : (String → String → Bool) → Option String → Option String → Bool
opt_is same none none = true
opt_is same (some s) (some t) = same s t
opt_is same _ _ = false

-- A new row of an owner, with the defaults of the model.
abbrev pub new_owner : ℕ → ℕ → String → String → Option String → Owner
new_owner i now service service_id username = record {
  ownerid = i;
  service = service;
  service_id = service_id;
  username = username;
  email = none;
  name = none;
  stripe_customer_id = none;
  stripe_subscription_id = none;
  stripe_coupon_id = none;
  plan = some "users-basic";
  plan_user_count = some 1;
  plan_auto_activate = some true;
  plan_activated_users = none;
  trial_start_date = none;
  trial_end_date = none;
  trial_status = some "not_started";
  free = 0;
  delinquent = none;
  updatestamp = now;
  organizations = none;
  admins = none;
  integration_id = none;
  parent_service_id = none;
  root_parent_service_id = none;
  max_upload_limit = some 150;
  oauth_token = none;
  permission = none;
  student = false;
}

-- A new row of a repository, with the defaults of the model.
abbrev pub new_repo : ℕ → ℕ → String → Bool → String → String → Repository
new_repo i author service_id private branch name = record {
  repoid = i;
  name = name;
  service_id = service_id;
  author = author;
  private = private;
  active = false;
  activated = false;
  deleted = false;
  branch = branch;
  using_integration = none;
  bot = none;
  hookid = none;
  webhook_secret = none;
  fork = none;
}

module _ (same : String → String → Bool) where
  -- The constraints owner_service_username and owner_service_ids.
  abbrev pub owner_clash : Owner → Owner → Bool
  owner_clash o r =
      str_eq r.service o.service
      && (str_eq r.service_id o.service_id
          || (is_some o.username && opt_is same r.username o.username))

  -- The constraints repos_slug and repos_service_ids.
  abbrev pub repo_clash : Repository → Repository → Bool
  repo_clash o r =
      (r.author == o.author) && (str_eq r.service_id o.service_id || same r.name o.name)

  unfoldable pub insert_owner : Owner → Exec Owner
  insert_owner o w =
      if any (owner_clash o) w.owners
      then (err database_error, w)
      else (ok o, record w { owners = w.owners ++ o ∷ []; next_ownerid = w.next_ownerid + 1 })

  unfoldable pub insert_repo : Repository → Exec Repository
  insert_repo r w =
      if any (repo_clash r) w.repos
      then (err database_error, w)
      else (ok r, record w { repos = w.repos ++ r ∷ []; next_repoid = w.next_repoid + 1 })

  -- Owner.objects.get_or_create(service=..., service_id=..., username=...)
  unfoldable pub get_or_create_owner : String → String → Option String → Exec Owner
  unfolding get_owner insert_owner
  get_or_create_owner service service_id username = do
    row ← attempt (
        get_owner (λ o.
          str_eq o.service service
          && (str_eq o.service_id service_id && opt_is same o.username username)))
    elim row [
      | some o ↦ pure o
      | none ↦ (λ w. insert_owner (new_owner w.next_ownerid w.now service service_id username) w)
    ]

  -- Repository.objects.get_or_create(author=..., service_id=..., private=..., branch=..., name=...):
  -- neither the service_id nor the branch of a row may be NULL.
  unfoldable pub get_or_create_repo :
      ℕ → Option String → Bool → Option String → String → Exec Repository
  unfolding find_repo insert_repo
  get_or_create_repo author none private branch name = raise database_error
  get_or_create_repo author (some service_id) private none name = raise database_error
  get_or_create_repo author (some service_id) private (some branch) name = do
    row ← attempt (
        find_repo (λ owners r.
          (r.author == author)
          && (str_eq r.service_id service_id
              && (same_bool r.private private && (str_eq r.branch branch && same r.name name)))))
    elim row [
      | some r ↦ pure r
      | none ↦ (λ w. insert_repo (new_repo w.next_repoid author service_id private branch name) w)
    ]

-- The repository that a fork was made of, as a dictionary.
pub record ForkRepo : Type 0 where
  pub service_id : Option String
  pub private : Option Bool
  pub branch : Option String
  pub default_branch : Option String
  pub name : Option String

pub record ForkOwner : Type 0 where
  pub username : Option String
  pub service_id : Option String

-- The parent of a fork in the data of GitHub.
pub record Parent : Type 0 where
  pub owner_id : String
  pub owner_login : String
  pub id : String
  pub private : Bool
  pub default_branch : String
  pub name : String

-- The value of "fork": false or missing, a dictionary, or true with the value of "parent".
pub data Fork : Type 0 where
  no_fork : Fork
  fork_of : ForkRepo → ForkOwner → Fork
  forked : Option Parent → Fork

-- A repository in the data of a provider.
pub record GitRepo : Type 0 where
  pub service_id : Option String
  pub id : Option String
  pub private : Option Bool
  pub branch : Option String
  pub default_branch : Option String
  pub name : Option String
  pub fork : Fork
  pub owner_id : Option String

-- `a or b`
abbrev pub or_text : Option String → Option String → Option String
or_text a b = if truthy a then a else b

-- The owner and the repository that a fork is of; a parent that is missing is none.
abbrev pub fork_data : Fork → Option (ForkRepo × ForkOwner)
fork_data no_fork = none
fork_data (fork_of repo owner) = some (repo, owner)
fork_data (forked none) = none
fork_data (forked (some p)) = some (
  (record {
    service_id = some p.id;
    private = some p.private;
    branch = some p.default_branch;
    default_branch = none;
    name = some p.name;
  }),
  (record { username = some p.owner_login; service_id = some p.owner_id }),
)

module _ (same : String → String → Bool) where
  -- The part of get_or_create_from_git_repo for the repository that was forked.
  unfoldable pub link_fork : Repository → Owner → ForkRepo × ForkOwner → Exec Repository
  unfolding get_or_create_owner get_or_create_repo save_repo
  link_fork repo owner (git_fork, git_owner) = do
    username ← need git_owner.username
    owner_service_id ← need git_owner.service_id
    fork_owner ← get_or_create_owner same owner.service owner_service_id (some username)
    service_id ← need git_fork.service_id
    private ← need git_fork.private
    name ← need git_fork.name
    fork ←
        get_or_create_repo same fork_owner.ownerid (some service_id) private
          (or_text git_fork.branch git_fork.default_branch) name
    _ ← save_repo repo.repoid (λ r. record r { fork = some fork.repoid })
    pure (record repo { fork = some fork.repoid })

  -- RepositoryQuerySet.get_or_create_from_git_repo
  unfoldable pub get_or_create_from_git_repo : GitRepo → Owner → Exec Repository
  unfolding get_or_create_repo link_fork
  get_or_create_from_git_repo git_repo owner = do
    private ← need git_repo.private
    name ← need git_repo.name
    repo ←
        get_or_create_repo same owner.ownerid (or_text git_repo.service_id git_repo.id) private
          (or_text git_repo.branch (or_text git_repo.default_branch (some "master"))) name
    elim (fork_data git_repo.fork) [ none ↦ pure repo | some f ↦ link_fork repo owner f ]
