-- ===== src/Commands/Tokens.antt =====
-- codecov_auth/commands/owner/interactors: tokens and sessions, and who is an admin.
use codecov_api.Base.{
  Bool, List, Option, String, [], false, if◌then◌else◌, mem, none, not, opt_str_eq, select, some,
  str_eq, true, ℕ, ◌&&◌, ◌++◌, ◌==◌, ◌||◌, ◌∷◌,
}
use codecov_api.Owner.{Owner}
use codecov_api.Accounts.{LoginSession, OrganizationLevelToken, UserToken}
use codecov_api.Store.{
  Exec, Outcome, World, attribute_error, err, lift, ok, pure, raise, save, unauthorized,
  validation_error, ◌>>=◌,
}
use codecov_api.Seats.{listed}
use codecov_api.Access.{Provider}
use codecov_api.Commands.{
  Caller, current_user_part_of_org, first, is_refreshing, logged_in, set_accounts, take_fresh,
}

-- CreateApiTokenInteractor.execute
unfoldable pub create_api_token : Caller → String → Exec LoginSession
create_api_token c name = do
  owner ← logged_in c
  if str_eq name "" then raise validation_error else (do
    sessionid ← take_fresh
    token ← take_fresh
    let session : LoginSession = record {
      sessionid = sessionid;
      token = token;
      name = some name;
      owner = owner.ownerid;
      type = "api";
    }
    _ ← set_accounts λ a. record a { login_sessions = session ∷ a.login_sessions }
    pure session)

-- CreateUserTokenInteractor.execute
unfoldable pub create_user_token : Caller → String → Option String → Exec UserToken
create_user_token c name token_type = do
  owner ← logged_in c
  let chosen_type = elim token_type as (λ _. String) [ none ↦ "api" | some t ↦ t ]
  if str_eq name "" || not (str_eq chosen_type "api") then raise validation_error else (do
    external_id ← take_fresh
    token ← take_fresh
    let row : UserToken = record {
      external_id = external_id;
      name = name;
      owner = owner.ownerid;
      token = token;
      token_type = chosen_type;
    }
    _ ← set_accounts λ a. record a { user_tokens = row ∷ a.user_tokens }
    pure row)

-- DeleteSessionInteractor.execute
unfoldable pub delete_session : Caller → ℕ → Exec (Unit {0})
delete_session c sessionid = do
  owner ← logged_in c
  set_accounts λ a. record a {
    login_sessions =
        select (λ s. not (s.sessionid == sessionid && s.owner == owner.ownerid)) a.login_sessions;
  }

-- RevokeUserTokenInteractor.execute
unfoldable pub revoke_user_token : Caller → ℕ → Exec (Unit {0})
revoke_user_token c tokenid = do
  owner ← logged_in c
  set_accounts λ a. record a {
    user_tokens =
        select (λ t. not (t.external_id == tokenid && t.owner == owner.ownerid)) a.user_tokens;
  }

unfoldable pub org_token_of : ℕ → List OrganizationLevelToken → Option ℕ
org_token_of i [] = none
org_token_of i (t ∷ rows) = if t.owner == i then some t.token else org_token_of i rows

unfoldable pub put_org_token : ℕ → ℕ → List OrganizationLevelToken → List OrganizationLevelToken
put_org_token i token [] = (record { owner = i; token = token }) ∷ []
put_org_token i token (t ∷ rows) =
    if t.owner == i then record t { token = token } ∷ rows else t ∷ put_org_token i token rows

-- GetOrgUploadToken.execute
unfoldable pub get_org_upload_token : Owner → Exec (Option ℕ)
unfolding org_token_of
get_org_upload_token owner w = (ok (org_token_of owner.ownerid w.accounts.org_tokens), w)

-- Owner.objects.filter(name=..., service=self.service).first()
unfoldable pub owner_called : Caller → String → World → Option Owner
owner_called c name w =
    first (select (λ o. opt_str_eq o.name (some name) && str_eq o.service c.service) w.owners)

-- RegenerateOrgUploadTokenInteractor.validate, of a user that is authenticated.
unfoldable pub check_org : Caller → Option Owner → Outcome Owner
unfolding current_user_part_of_org
check_org c none = err validation_error
check_org c (some org) =
    if current_user_part_of_org c.current_owner org then ok org else err unauthorized

-- RegenerateOrgUploadTokenInteractor.execute: the organisation is found by its name. A new row has
-- a random token, and an old one gets another.
unfoldable pub regenerate_org_upload_token : Caller → String → Exec ℕ
unfolding put_org_token check_org owner_called
regenerate_org_upload_token c owner = do
  owner_obj ← λ w. (ok (owner_called c owner w), w)
  _ ← logged_in c
  org ← lift (check_org c owner_obj)
  token ← take_fresh
  _ ← set_accounts λ a. record a { org_tokens = put_org_token org.ownerid token a.org_tokens }
  pure token

-- IsSyncingInteractor.execute
unfoldable pub is_syncing : Caller → Exec Bool
unfolding is_refreshing
is_syncing c = elim c.current_owner [
  | none ↦ raise attribute_error
  | some owner ↦ is_refreshing owner.ownerid
]

-- The answer of the provider, when it gives one: an admin is put into the owner's list.
unfoldable pub known_admin : Outcome Bool → Owner → Owner → Exec Bool
unfolding save
known_admin (err e) owner user = pure false
known_admin (ok true) owner user = elim owner.admins [
  | none ↦ pure false
  | some ids ↦ do _ ← save (record owner { admins = some (ids ++ (user.ownerid ∷ [])) }); pure true
]
known_admin (ok false) owner user = pure (mem user.ownerid (listed owner.admins))

-- GetIsCurrentUserAnAdminInteractor.execute, in the cloud.
unfoldable pub is_current_user_an_admin : Provider → Owner → Option Owner → Exec Bool
unfolding known_admin
is_current_user_an_admin provider owner none = pure false
is_current_user_an_admin provider owner (some user) =
    if owner.ownerid == user.ownerid
    then pure true
    else known_admin (provider.get_is_admin user owner) owner user
