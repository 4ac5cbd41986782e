-- ===== src/Login.antt =====
-- codecov_auth/views/base.py: the states of a login at a provider, and the user that a login gives
-- to an owner. Django's sessions, urlparse and the settings are parameters.
use codecov_api.Base.{
  Bool, List, Option, String, [], any, false, if◌then◌else◌, join, ltb, mem_str, none, not, opt_eq,
  select, some, str_eq, true, ℕ, ◌&&◌, ◌+◌, ◌==◌, ◌||◌, ◌∷◌, ◌≡◌,
}
pub mod Links
pub mod States
use codecov_api.Store.{World}
use codecov_api.Commands.{trigger_refresh}

-- What urlparse finds in a text.
pub record Url : Type 0 where
  pub scheme : String
  pub netloc : String
  pub path : String

-- urlparse, which has no value where it raises; the domains that CORS allows, by name and by
-- pattern; and the page of the dashboard for the view's service.
pub record Site : Type 0 where
  pub urlparse : String → Option Url
  pub cors_allowed_origins : List String
  pub matches_origin_regex : String → Bool
  pub dashboard : String

-- An entry of redis under "oauth-state-...", with the time at which it is gone.
pub record Entry : Type 0 where
  pub state : String
  pub url : String
  pub until : ℕ

pub record Redis : Type 0 where
  pub clock : ℕ
  pub stored : List Entry

module _ (site : Site) where
  unfoldable pub is_matching_cors_domains : String → Bool
  is_matching_cors_domains domain =
      mem_str domain site.cors_allowed_origins || site.matches_origin_regex domain

  unfoldable pub is_valid_redirection : String → Bool
  unfolding is_matching_cors_domains
  is_valid_redirection to = elim (site.urlparse to) [
    | none ↦ false
    | some url ↦
        (str_eq url.scheme "" && (str_eq url.netloc "" && not (str_eq url.path "")))
        || is_matching_cors_domains (join url.scheme (join "://" url.netloc))
  ]

  unfoldable pub generate_redirection_url : Option String → String
  unfolding is_valid_redirection
  generate_redirection_url none = site.dashboard
  generate_redirection_url (some to) =
      if not (str_eq to "") && is_valid_redirection to then to else site.dashboard

  -- redis.setex
  unfoldable pub setex : String → ℕ → String → Redis → Redis
  setex state seconds url r = record r {
    stored =
        record { state = state; url = url; until = r.clock + seconds }
        ∷ select (λ e. not (str_eq e.state state)) r.stored;
  }

  -- StateMixin.generate_state, which draws the state at random.
  unfoldable pub generate_state : String → Option String → Redis → Redis
  unfolding generate_redirection_url setex
  generate_state state to r = setex state 500 (generate_redirection_url to) r

unfoldable pub read : String → ℕ → List Entry → Option String
read state now [] = none
read state now (e ∷ es) =
    if str_eq e.state state && ltb now e.until then some e.url else read state now es

-- StateMixin.get_redirection_url_from_state: no value is SuspiciousOperation.
unfoldable pub get_redirection_url_from_state : String → Redis → Option String
unfolding read
get_redirection_url_from_state state r = read state r.clock r.stored

unfoldable pub remove_found : Site → String → ℕ → Redis → Option String → Option Redis
unfolding setex
remove_found site state delay r none = none
remove_found site state delay r (some url) = some (
    if delay == 0
    then record r { stored = select (λ e. not (str_eq e.state state)) r.stored }
    else setex site state delay url r)

-- StateMixin.remove_state: no value is SuspiciousOperation.
unfoldable pub remove_state : Site → String → ℕ → Redis → Option Redis
unfolding get_redirection_url_from_state remove_found
remove_state site state delay r =
    remove_found site state delay r (get_redirection_url_from_state state r)

-- The columns of an owner that a login reads and writes.
pub record Account : Type 0 where
  pub ownerid : ℕ
  pub service : String
  pub username : Option String
  pub email : Option String
  pub name : Option String
  pub staff : Bool
  pub user : Option ℕ

pub record User : Type 0 where
  pub id : ℕ
  pub email : Option String
  pub name : Option String
  pub is_staff : Bool

-- request.user, none where it is anonymous, and request.session["current_owner_id"].
pub record Session : Type 0 where
  pub user : Option ℕ
  pub current_owner_id : Option ℕ

-- django.contrib.auth
pub record Auth : Type 0 where
  pub login : ℕ → Session → Session
  pub logout : Session → Session
  pub login_user : (u : ℕ) (s : Session) → (login u s).user ≡ some u

pub record LoginState : Type 0 where
  pub world : World
  pub accounts : List Account
  pub users : List User
  pub next_user : ℕ
  pub session : Session

-- Owner.save, with the owner's user.
unfoldable pub put_account : Account → List Account → List Account
put_account o [] = o ∷ []
put_account o (r ∷ rows) = if r.ownerid == o.ownerid then o ∷ rows else r ∷ put_account o rows

-- User.objects.create(...), and the owner takes the new user.
unfoldable pub claim_new : Account → LoginState → LoginState
unfolding put_account
claim_new o s = record s {
  users = record { id = s.next_user; email = o.email; name = o.name; is_staff = o.staff } ∷ s.users;
  next_user = s.next_user + 1;
  accounts = put_account (record o { user = some s.next_user }) s.accounts;
}

abbrev pub is_linked : ℕ → String → Account → Bool
is_linked u service a = opt_eq a.user (some u) && str_eq a.service service

-- The end of login_owner: the owner of the session, and a refresh.
unfoldable pub enter : Account → LoginState → LoginState
unfolding trigger_refresh
enter o s = record s {
  session = record s.session { current_owner_id = some o.ownerid };
  world = (trigger_refresh o.ownerid o.username true true false s.world).1;
}

module _ (auth : Auth) where
  abbrev pub log_in : ℕ → LoginState → LoginState
  log_in u s = record s { session = auth.login u s.session }

  abbrev pub log_out : LoginState → LoginState
  log_out s = record s { session = auth.logout s.session }

  -- The owner has no user, and `u` is the user of the request.
  unfoldable pub claim : Account → ℕ → LoginState → LoginState
  unfolding claim_new put_account
  claim o u s =
      if any (is_linked u o.service) s.accounts
      then log_in s.next_user (claim_new o (log_out s))
      else record s { accounts = put_account (record o { user = some u }) s.accounts }

  -- LoginMixin.login_owner, by the user of the request and the user of the owner.
  unfoldable pub login_by : Account → Option ℕ → Option ℕ → LoginState → LoginState
  unfolding claim claim_new enter
  login_by o none (some v) s = enter o (log_in v s)
  login_by o none none s = enter o (log_in s.next_user (claim_new o s))
  login_by o (some u) none s = enter o (claim o u s)
  login_by o (some u) (some v) s = if u == v then enter o s else log_in v (log_out s)

  unfoldable pub login_owner : Account → LoginState → LoginState
  unfolding login_by
  login_owner o s = login_by o s.session.user o.user s
