-- ===== src/Commands/Guards.antt =====
-- graphql_api/types/mutation: who can change what.
use codecov_api.Base.{Bool, false, none, refl, ◌≡◌}
use codecov_api.Store.{World, err, unauthenticated}
use codecov_api.Commands.{Caller}
use codecov_api.Commands.Owners.{
  Forms, onboard_user, set_yaml_on_owner, trigger_sync, update_default_organization, update_profile,
}
use codecov_api.Commands.Tokens.{
  create_api_token, create_user_token, delete_session, regenerate_org_upload_token,
  revoke_user_token,
}
use codecov_api.Commands.Repositories.{delete_flag}
use codecov_api.Commands.Mutations.{
  Mutation, activate_measurements_with, cancel_trial_with, create_api_token_with,
  create_user_token_with, delete_flag_with, delete_session_with, onboard_user_with,
  regenerate_org_upload_token_with, regenerate_repository_token_with, resolve,
  revoke_user_token_with, save_sentry_state_with, save_terms_agreement_with, set_yaml_on_owner_with,
  start_trial_with, sync_with_git_provider, update_default_organization_with, update_profile_with,
}

-- A caller that is not known: no authenticated user, and no owner.
abbrev pub Unknown : Caller → Type 0
Unknown c = (c.request_user ≡ false) × (c.current_owner ≡ none)

module _ (forms : Forms) (timeseries_enabled : Bool) where
  -- Whatever the mutation, a caller that is not known is answered that it is not authenticated,
  -- and nothing has changed: no row, no token, no task.
  pub resolve-unauthenticated :
      (c : Caller) (m : Mutation) (w : World)
      → Unknown c
      → resolve forms timeseries_enabled c m w ≡ (err unauthenticated, w)
  unfolding resolve create_api_token create_user_token delete_session revoke_user_token onboard_user
      update_profile regenerate_org_upload_token set_yaml_on_owner trigger_sync
      update_default_organization delete_flag
  resolve-unauthenticated c (create_api_token_with name) w (a, b) = rw b refl
  resolve-unauthenticated c (create_user_token_with name token_type) w (a, b) = rw b refl
  resolve-unauthenticated c (delete_session_with i) w (a, b) = rw b refl
  resolve-unauthenticated c (revoke_user_token_with i) w (a, b) = rw b refl
  resolve-unauthenticated c (onboard_user_with params) w (a, b) = rw b refl
  resolve-unauthenticated c (update_profile_with email name) w (a, b) = rw b refl
  resolve-unauthenticated c (regenerate_org_upload_token_with owner) w (a, b) = rw b refl
  resolve-unauthenticated c (set_yaml_on_owner_with username yaml) w (a, b) = rw b refl
  resolve-unauthenticated c sync_with_git_provider w (a, b) = rw b refl
  resolve-unauthenticated c (update_default_organization_with username) w (a, b) = rw b refl
  resolve-unauthenticated c (delete_flag_with owner repo flag) w (a, b) = rw b refl
  resolve-unauthenticated c (start_trial_with org) w (a, b) = rw a refl
  resolve-unauthenticated c (cancel_trial_with org) w (a, b) = rw a refl
  resolve-unauthenticated c (save_terms_agreement_with email agreed) w (a, b) = rw a refl
  resolve-unauthenticated c (save_sentry_state_with state) w (a, b) = rw a refl
  resolve-unauthenticated c (regenerate_repository_token_with repo owner t) w (a, b) = rw a refl
  resolve-unauthenticated c (activate_measurements_with repo owner m) w (a, b) = rw a refl
