-- ===== src/Accounts.antt =====
-- The rows of codecov_auth/models.py, reports/models.py and timeseries/models.py that the commands
-- of services and resolvers read and write: profiles, tokens, sessions, flags and data sets, and the
-- entries of redis that say that a refresh runs. A random token is a number that the database has
-- not given before.
use codecov_api.Base.{Bool, List, Option, String, [], ℕ}

-- The columns of a row of Owner that only the commands touch, kept apart from the record Owner.
pub record OwnerColumns : Type 0 where
  pub owner : ℕ
  pub business_email : Option String
  pub onboarding_completed : Bool
  pub yaml : Option String
  pub sentry_user_id : Option String
  pub sentry_user_data : Option String

pub record OwnerProfile : Type 0 where
  pub owner : ℕ
  pub type_projects : List String
  pub goals : List String
  pub other_goal : Option String
  pub default_org : Option ℕ
  pub terms_agreement : Option Bool
  pub terms_agreement_at : Option ℕ

pub record UserToken : Type 0 where
  pub external_id : ℕ
  pub name : String
  pub owner : ℕ
  pub token : ℕ
  pub token_type : String

-- codecov_auth.models.Session
pub record LoginSession : Type 0 where
  pub sessionid : ℕ
  pub token : ℕ
  pub name : Option String
  pub owner : ℕ
  pub type : String

pub record OrganizationLevelToken : Type 0 where
  pub owner : ℕ
  pub token : ℕ

pub record RepositoryToken : Type 0 where
  pub repository : ℕ
  pub token_type : String
  pub key : ℕ

pub record RepositoryFlag : Type 0 where
  pub repository : ℕ
  pub flag_name : String
  pub deleted : Option Bool

pub record Dataset : Type 0 where
  pub name : String
  pub repository : ℕ

-- What celery answers about the task whose id an entry of redis holds.
pub data TaskState : Type 0 where
  unreadable successful failed pending : TaskState

-- An entry of redis under "refresh_...", with the time at which it is gone.
pub record RefreshEntry : Type 0 where
  pub owner : ℕ
  pub task : TaskState
  pub until : ℕ

pub record Accounts : Type 0 where
  pub columns : List OwnerColumns
  pub profiles : List OwnerProfile
  pub user_tokens : List UserToken
  pub login_sessions : List LoginSession
  pub org_tokens : List OrganizationLevelToken
  pub repo_tokens : List RepositoryToken
  pub flags : List RepositoryFlag
  pub datasets : List Dataset
  pub refreshes : List RefreshEntry
  pub fresh : ℕ

abbrev pub no_accounts : Accounts
no_accounts = record {
  columns = [];
  profiles = [];
  user_tokens = [];
  login_sessions = [];
  org_tokens = [];
  repo_tokens = [];
  flags = [];
  datasets = [];
  refreshes = [];
  fresh = 1;
}
