-- ===== src/Commands.antt =====
-- codecov/commands/base.py, codecov_auth/helpers.py and services/refresh.py: who calls a command,
-- and what the commands share. A caller is the owner of a request, if it has one; an interactor
-- takes the owner's user, which a row of an owner may lack.
pub mod Owners
pub mod Sentry
pub mod Mutations
pub mod Guards
pub mod Members
pub mod Refreshes
pub mod Tenants
pub mod Tokens
pub mod Repositories
use codecov_api.Base.{
  Bool, List, Option, String, [], false, if◌then◌else◌, ltb, mem, none, not, opt_str_eq, select,
  some, str_eq, true, ℕ, ◌&&◌, ◌+◌, ◌==◌, ◌||◌, ◌∷◌,
}
use codecov_api.Owner.{Owner}
use codecov_api.Accounts.{Accounts, RefreshEntry, TaskState, pending}
use codecov_api.Store.{Exec, World, attribute_error, err, ok, pure, refresh, unauthenticated, ◌>>=◌}
use codecov_api.Seats.{listed}
use codecov_api.Hooks.{queue}

-- The attributes of BaseInteractor; `has_user` tells whether current_owner.user is there, and
-- `request_user` whether the request's user is authenticated.
pub record Caller : Type 0 where
  pub request_user : Bool
  pub current_owner : Option Owner
  pub has_user : Bool
  pub service : String

-- `if not self.current_user.is_authenticated: raise Unauthenticated()`, and then the owner.
abbrev pub logged_in : Caller → Exec Owner
logged_in c w = elim c.current_owner [
  | none ↦ (err unauthenticated, w)
  | some o ↦ (if c.has_user then ok o else err attribute_error, w)
]

unfoldable pub current_user_part_of_org : Option Owner → Owner → Bool
current_user_part_of_org none org = false
current_user_part_of_org (some owner) org =
    (owner.ownerid == org.ownerid) || mem org.ownerid (listed owner.organizations)

abbrev pub first {ℓ} : {A : Type ℓ} → List A → Option A
first [] = none
first (x ∷ xs) = some x

-- Owner.objects.filter(username=..., service=self.service).first()
unfoldable pub owner_named : Caller → String → World → Option Owner
owner_named c username w =
    first
      (select (λ o. opt_str_eq o.username (some username) && str_eq o.service c.service) w.owners)

abbrev pub set_accounts : (Accounts → Accounts) → Exec (Unit {0})
set_accounts f w = (ok tt, record w { accounts = f w.accounts })

-- uuid.uuid4(), or the key of a new row.
abbrev pub take_fresh : Exec ℕ
take_fresh w = (
  ok w.accounts.fresh,
  record w { accounts = record w.accounts { fresh = w.accounts.fresh + 1 } },
)

-- redis.get, at a time: an entry that has expired is not found.
abbrev pub entry_of : ℕ → ℕ → List RefreshEntry → Option TaskState
entry_of i now [] = none
entry_of i now (e ∷ entries) =
    let rest = entry_of i now entries in
    if i == e.owner && ltb now e.until then some e.task else rest

abbrev pub drop_entry : ℕ → List RefreshEntry → List RefreshEntry
drop_entry i entries = select (λ e. not (i == e.owner)) entries

-- RefreshService.is_refreshing: an entry whose task is over, or cannot be read, is deleted.
unfoldable pub is_refreshing : ℕ → Exec Bool
is_refreshing ownerid w = elim (entry_of ownerid w.now w.accounts.refreshes) [
  | none ↦ (ok false, w)
  | some pending ↦ (ok true, w)
  | some other ↦ (
    ok false,
    record w {
      accounts = record w.accounts { refreshes = drop_entry ownerid w.accounts.refreshes };
    },
  )
]

-- The 900 seconds of redis.setex, in microseconds.
abbrev pub refresh_expiry : ℕ
refresh_expiry = 900_000_000

abbrev pub remember_refresh : ℕ → Exec (Unit {0})
remember_refresh ownerid w = (
  ok tt,
  record w {
    accounts = record w.accounts {
      refreshes =
          record { owner = ownerid; task = pending; until = w.now + refresh_expiry }
          ∷ drop_entry ownerid w.accounts.refreshes;
    };
  },
)

-- RefreshService.trigger_refresh: TaskService.refresh gets sync_repos where it expects sync_teams.
unfoldable pub trigger_refresh : ℕ → Option String → Bool → Bool → Bool → Exec (Unit {0})
unfolding is_refreshing
trigger_refresh ownerid username sync_teams sync_repos using_integration = do
  running ← is_refreshing ownerid
  if running then pure tt else (do
    _ ← queue (refresh ownerid username sync_repos sync_teams using_integration)
    remember_refresh ownerid)
