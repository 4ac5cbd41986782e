-- ===== src/Examples/Logins.antt =====
-- A login with a state, and an owner that gets a user.
use codecov_api.Base.{List, [], arith, false, none, refl, some, ℕ, ◌<◌, ◌∷◌, ◌≡◌}
use codecov_api.Login.{Account, Auth, LoginState, Site, get_redirection_url_from_state, login_owner}
use codecov_api.Login.Links.{AreKnown, EntersAs, IsSeparate, IsSound, login_owner-EntersAs}
use codecov_api.Login.States.{
  IsAccepted, StateOp, generating, get_redirection_url_from_state-IsAccepted, run_ops, waiting,
}
use codecov_api.Examples.{today}

abbrev plain_auth : Auth
plain_auth = record {
  login = λ u s. record s { user = some u };
  logout = λ s. record { user = none; current_owner_id = none };
  login_user = λ u s. refl;
}

abbrev our_site : Site
our_site = record {
  urlparse = λ t. some (record { scheme = ""; netloc = ""; path = t });
  cors_allowed_origins = [];
  matches_origin_regex = λ t. false;
  dashboard = "https://app.codecov.io/gh";
}

abbrev new_account : Account
new_account = record {
  ownerid = 4;
  service = "github";
  username = some "u";
  email = none;
  name = none;
  staff = false;
  user = none;
}

-- Owner 3 of the service has user 1, who is logged in.
abbrev before_login : LoginState
before_login = record {
  world = today;
  accounts = record new_account { ownerid = 3; user = some 1 } ∷ new_account ∷ [];
  users = [];
  next_user = 2;
  session = record { user = some 1; current_owner_id = some 3 };
}

second_user : (login_owner plain_auth new_account before_login).session.user ≡ some 2
unfolding login_owner
second_user = refl

below_two : (u : ℕ) → some 1 ≡ some u → u < 2
below_two u h = ground arith

none_below : (u : ℕ) → none ≡ some u → u < 2
none_below u h = cc

before_login-IsSound : IsSound before_login
before_login-IsSound =
    (((λ u h. refl), ((λ u h. refl), tt)), (below_two, (none_below, tt)), below_two)

login_owner-EntersAs_example :
    EntersAs new_account before_login (login_owner plain_auth new_account before_login)
    × IsSeparate (login_owner plain_auth new_account before_login).accounts
    × AreKnown
        (login_owner plain_auth new_account before_login).next_user
        (login_owner plain_auth new_account before_login).accounts
login_owner-EntersAs_example =
    login_owner-EntersAs plain_auth new_account before_login before_login-IsSound

abbrev asked : List StateOp
asked = generating "s1" (some "/gh/o/r") ∷ waiting 10 ∷ []

asked_url :
    get_redirection_url_from_state "s1" (run_ops our_site asked (record { clock = 0; stored = [] }))
    ≡ some "/gh/o/r"
unfolding run_ops get_redirection_url_from_state
asked_url = refl

get_redirection_url_from_state-IsAccepted_example : IsAccepted our_site "/gh/o/r"
get_redirection_url_from_state-IsAccepted_example =
    get_redirection_url_from_state-IsAccepted our_site asked 0 "s1" "/gh/o/r" asked_url
