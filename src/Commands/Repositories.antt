-- ===== src/Commands/Repositories.antt =====
-- core/commands: the commands on repositories, flags, branches and pull requests, and
-- timeseries/helpers.py: trigger_backfill.
use Prim.Native.Nat.{◌%◌}
use codecov_api.Base.{
  Bool, List, Option, String, [], any, false, if◌then◌else◌, max, mem, min, none, not, opt_str_eq,
  select, some, str_eq, true, ℕ, ◌&&◌, ◌+◌, ◌-◌, ◌==◌, ◌||◌, ◌∷◌,
}
use codecov_api.Owner.{Branch, Commit, Owner, Pull, Repository, is_admin}
use codecov_api.Accounts.{Dataset, RepositoryFlag, RepositoryToken}
use codecov_api.Store.{
  Exec, Outcome, World, backfill_dataset, err, lift, not_found, ok, pure, raise, unauthorized,
  validation_error, ◌>>=◌,
}
use codecov_api.Seats.{listed}
use codecov_api.Hooks.{first, found, queue}
use codecov_api.Plan.Service.{day}
use codecov_api.Commands.{
  Caller, current_user_part_of_org, logged_in, owner_named, set_accounts, take_fresh,
}

-- RepositoryQuerySet.viewable_repos, of one row.
unfoldable pub is_viewable : Option Owner → Repository → Bool
is_viewable owner repo = (not repo.private && not repo.deleted) || (elim owner [
  | none ↦ false
  | some o ↦ (repo.author == o.ownerid) || mem repo.repoid (listed o.permission)
])

-- viewable_repos(...).filter(author=..., name=..., active=True).first()
unfoldable pub active_repo : Caller → String → String → World → Option Repository
unfolding owner_named is_viewable
active_repo c owner_name repo_name w = elim (owner_named c owner_name w) [
  | none ↦ none
  | some author ↦ first (
      select
        (λ r.
          is_viewable c.current_owner r
          && (r.author == author.ownerid && (str_eq r.name repo_name && r.active)))
        w.repos)
]

abbrev pub found_repo : Caller → String → String → Exec Repository
found_repo c owner_name repo_name w = elim (active_repo c owner_name repo_name w) [
  | none ↦ (err validation_error, w)
  | some r ↦ (ok r, w)
]

unfoldable pub key_of : ℕ → String → List RepositoryToken → Option ℕ
key_of i token_type [] = none
key_of i token_type (t ∷ rows) =
    if t.repository == i && str_eq t.token_type token_type
    then some t.key
    else key_of i token_type rows

unfoldable pub put_key : ℕ → String → ℕ → List RepositoryToken → List RepositoryToken
put_key i token_type key [] = (record { repository = i; token_type = token_type; key = key }) ∷ []
put_key i token_type key (t ∷ rows) =
    if t.repository == i && str_eq t.token_type token_type
    then record t { key = key } ∷ rows
    else t ∷ put_key i token_type key rows

-- RegenerateRepositoryTokenInteractor.execute
unfoldable pub regenerate_repository_token : Caller → String → String → String → Exec ℕ
unfolding active_repo put_key
regenerate_repository_token c repo_name owner_username token_type = do
  repo ← found_repo c owner_username repo_name
  key ← take_fresh
  _ ← set_accounts λ a. record a { repo_tokens = put_key repo.repoid token_type key a.repo_tokens }
  pure key

-- The key that a repository has, or a new one.
unfoldable pub key_or_new : ℕ → String → Option ℕ → Exec (Option ℕ)
unfolding put_key
key_or_new i token_type (some key) = pure (some key)
key_or_new i token_type none = do
  key ← take_fresh
  _ ← set_accounts λ a. record a { repo_tokens = put_key i token_type key a.repo_tokens }
  pure (some key)

-- GetRepositoryTokenInteractor.execute
unfoldable pub get_repository_token : Caller → Repository → Owner → String → Exec (Option ℕ)
unfolding current_user_part_of_org key_or_new key_of
get_repository_token c repository author token_type = do
  _ ← logged_in c
  if not repository.active
      then raise validation_error
      else if not (current_user_part_of_org c.current_owner author)
      then pure none
      else (do
        key ← λ w. (ok (key_of repository.repoid token_type w.accounts.repo_tokens), w)
        key_or_new repository.repoid token_type key)

-- DeleteFlagInteractor.validate, of a user that is authenticated.
unfoldable pub check_flag : Owner → Option Owner → Option Repository → Outcome Repository
unfolding is_admin
check_flag user none repo = err validation_error
check_flag user (some owner) none = err validation_error
check_flag user (some owner) (some repo) = if is_admin owner user then ok repo else err unauthorized

abbrev pub is_flag : ℕ → String → RepositoryFlag → Bool
is_flag i flag_name f = f.repository == i && str_eq f.flag_name flag_name

unfoldable pub mark_deleted : ℕ → String → List RepositoryFlag → List RepositoryFlag
mark_deleted i flag_name [] = []
mark_deleted i flag_name (f ∷ rows) =
    if is_flag i flag_name f
    then record f { deleted = some true } ∷ rows
    else f ∷ mark_deleted i flag_name rows

-- Repository.objects.filter(author_id=owner.pk, name=...).first(), if there is an owner.
unfoldable pub repo_of_owner : Option Owner → String → World → Option Repository
repo_of_owner none name w = none
repo_of_owner (some o) name w =
    first (select (λ r. r.author == o.ownerid && str_eq r.name name) w.repos)

-- DeleteFlagInteractor.execute
unfoldable pub delete_flag : Caller → String → String → String → Exec (Unit {0})
unfolding owner_named repo_of_owner check_flag mark_deleted
delete_flag c owner_username repo_name flag_name = do
  owner ← λ w. (ok (owner_named c owner_username w), w)
  repo ← λ w. (ok (repo_of_owner owner repo_name w), w)
  user ← logged_in c
  found ← lift (check_flag user owner repo)
  known ← λ w. (ok (any (is_flag found.repoid flag_name) w.accounts.flags), w)
  if not known
      then raise not_found
      else (do set_accounts λ a. record a { flags = mark_deleted found.repoid flag_name a.flags })

-- The first and the last of some times.
abbrev pub span : List Commit → Option (ℕ × ℕ)
span [] = none
span (c ∷ cs) = elim (span cs) [
  | none ↦ some (c.timestamp, c.timestamp)
  | some (a, b) ↦ some (min c.timestamp a, max c.timestamp b)
]

-- Midnight of the day of a time.
abbrev pub midnight : ℕ → ℕ
midnight t = t - t % day

-- trigger_backfill: the whole days of the repository's commits.
unfoldable pub trigger_backfill : Dataset → Exec (Unit {0})
trigger_backfill dataset w =
    elim (span (select (λ c. c.repository == dataset.repository) w.commits)) [
      | none ↦ (ok tt, w)
      | some (oldest, newest) ↦
          queue
            (backfill_dataset dataset.name dataset.repository (midnight oldest)
              (midnight (newest + day)))
            w
    ]

-- ActivateMeasurementsInteractor.execute; the argument is settings.TIMESERIES_ENABLED.
unfoldable pub activate_measurements : Bool → Caller → String → String → String → Exec Dataset
unfolding active_repo trigger_backfill
activate_measurements enabled c repo_name owner_name measurement_type = do
  repo ← found_repo c owner_name repo_name
  if not enabled then raise validation_error else (do
    let dataset : Dataset = record { name = measurement_type; repository = repo.repoid }
    known ← λ w. (
      ok (
          any (λ d. str_eq d.name measurement_type && d.repository == repo.repoid)
            w.accounts.datasets),
      w,
    )
    if known then pure dataset else (do
      _ ← set_accounts λ a. record a { datasets = dataset ∷ a.datasets }
      _ ← trigger_backfill dataset
      pure dataset))

-- FetchRepositoryInteractor.execute, without the columns that it annotates.
unfoldable pub fetch_repository : Caller → Owner → String → World → Option Repository
unfolding is_viewable
fetch_repository c owner name w = first (
    select (λ r. is_viewable c.current_owner r && (r.author == owner.ownerid && str_eq r.name name))
      w.repos)

-- FetchBranchInteractor.execute
unfoldable pub fetch_branch : Repository → String → World → Option Branch
fetch_branch repository branch_name w =
    first (select (λ b. b.repository == repository.repoid && str_eq b.name branch_name) w.branches)

-- FetchPullRequestInteractor.execute
unfoldable pub fetch_pull_request : Repository → ℕ → World → Option Pull
fetch_pull_request repository i w =
    first (select (λ p. p.repository == repository.repoid && p.pullid == i) w.pulls)

-- FetchPullRequestsInteractor.execute, by the states that a filter names.
unfoldable pub fetch_pull_requests : Repository → Option (List String) → World → List Pull
fetch_pull_requests repository states w =
    let pulls = select (λ p. p.repository == repository.repoid) w.pulls in
    elim states [
      | none ↦ pulls
      | some [] ↦ pulls
      | some (s ∷ ss) ↦ select (λ p. any (λ v. opt_str_eq p.state (some v)) (s ∷ ss)) pulls
    ]
