-- ===== src/Commands/Mutations.antt =====
-- graphql_api/types/mutation and graphql_api/helpers/mutation.py: the mutations that run a command,
-- with the guard of those that have one, and the type of the error that they answer.
use codecov_api.Base.{Bool, Option, String, if◌then◌else◌, none, some, ℕ}
use codecov_api.Store.{
  Error, Exec, err, not_found, ok, unauthenticated, unauthorized, validation_error,
}
use codecov_api.Commands.{Caller}
use codecov_api.Commands.Owners.{
  Forms, OnboardParams, cancel_trial_of, onboard_user, save_terms_agreement, set_yaml_on_owner,
  start_trial_of, trigger_sync, update_default_organization, update_profile,
}
use codecov_api.Commands.Sentry.{save_sentry_state}
use codecov_api.Commands.Tokens.{
  create_api_token, create_user_token, delete_session, regenerate_org_upload_token,
  revoke_user_token,
}
use codecov_api.Commands.Repositories.{
  activate_measurements, delete_flag, regenerate_repository_token,
}

-- require_authenticated
abbrev pub require_authenticated {ℓ} : {A : Type ℓ} → Caller → Exec A → Exec A
require_authenticated c resolver w = if c.request_user then resolver w else (err unauthenticated, w)

pub data Mutation : Type 0 where
  create_api_token_with : String → Mutation
  create_user_token_with : String → Option String → Mutation
  delete_session_with revoke_user_token_with : ℕ → Mutation
  onboard_user_with : OnboardParams → Mutation
  update_profile_with : Option String → Option String → Mutation
  regenerate_org_upload_token_with : String → Mutation
  set_yaml_on_owner_with : String → String → Mutation
  sync_with_git_provider : Mutation
  update_default_organization_with : Option String → Mutation
  delete_flag_with : String → String → String → Mutation
  start_trial_with cancel_trial_with : String → Mutation
  save_terms_agreement_with : Option String → Option Bool → Mutation
  save_sentry_state_with : String → Mutation
  regenerate_repository_token_with : String → String → String → Mutation
  activate_measurements_with : String → String → String → Mutation

-- What a mutation answers is left aside here: the commands say it.
abbrev pub quiet {ℓ} : {A : Type ℓ} → Exec A → Exec (Unit {0})
quiet m w = let (r, w') = m w in (elim r [ ok a ↦ ok tt | err e ↦ err e ], w')

module _ (forms : Forms) (timeseries_enabled : Bool) where
  unfoldable pub resolve : Caller → Mutation → Exec (Unit {0})
  unfolding create_api_token create_user_token delete_session revoke_user_token
  resolve c (create_api_token_with name) = quiet (create_api_token c name)
  resolve c (create_user_token_with name token_type) = quiet (create_user_token c name token_type)
  resolve c (delete_session_with i) = delete_session c i
  resolve c (revoke_user_token_with i) = revoke_user_token c i
  resolve c (onboard_user_with params) = quiet (onboard_user forms c params)
  resolve c (update_profile_with email name) = quiet (update_profile forms c email name)
  resolve c (regenerate_org_upload_token_with owner) = quiet (regenerate_org_upload_token c owner)
  resolve c (set_yaml_on_owner_with username yaml) = quiet (set_yaml_on_owner forms c username yaml)
  resolve c sync_with_git_provider = trigger_sync c
  resolve c (update_default_organization_with username) =
      quiet (update_default_organization c username)
  resolve c (delete_flag_with owner repo flag) = delete_flag c owner repo flag
  resolve c (start_trial_with org) = require_authenticated c (start_trial_of c org)
  resolve c (cancel_trial_with org) = require_authenticated c (cancel_trial_of c org)
  resolve c (save_terms_agreement_with email agreed) =
      require_authenticated c (save_terms_agreement c email agreed)
  resolve c (save_sentry_state_with state) =
      require_authenticated c (save_sentry_state forms c state)
  resolve c (regenerate_repository_token_with repo owner token_type) =
      require_authenticated c (quiet (regenerate_repository_token c repo owner token_type))
  resolve c (activate_measurements_with repo owner measurement) =
      require_authenticated c
        (quiet (activate_measurements timeseries_enabled c repo owner measurement))

-- WrappedException.get_graphql_type; other exceptions are not wrapped.
unfoldable pub get_graphql_type : Error → Option String
get_graphql_type unauthenticated = some "UnauthenticatedError"
get_graphql_type unauthorized = some "UnauthorizedError"
get_graphql_type not_found = some "NotFoundError"
get_graphql_type validation_error = some "ValidationError"
get_graphql_type e = none
