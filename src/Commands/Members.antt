-- ===== src/Commands/Members.antt =====
-- codecov_auth/commands and core/commands: what only the members, or the admins, of an organisation
-- can change.
use codecov_api.Base.{
  ==_iff, Bool, Bool-cases, IsIn, Option, Option-cases, String, arith, either_iff, false, inl, inr,
  mem_iff, none, refl, some, true, ◌≡◌, ◌⊎◌,
}
use codecov_api.Owner.{Owner, is_admin}
use codecov_api.Seats.{listed}
use codecov_api.Store.{Error, Exec, Outcome, World, err, ok}
use codecov_api.Commands.{Caller, current_user_part_of_org, owner_named}
use codecov_api.Commands.Mutations.{
  Mutation, activate_measurements_with, cancel_trial_with, create_api_token_with,
  create_user_token_with, delete_flag_with, delete_session_with, onboard_user_with, quiet,
  regenerate_org_upload_token_with, regenerate_repository_token_with, require_authenticated,
  resolve, revoke_user_token_with, save_sentry_state_with, save_terms_agreement_with,
  set_yaml_on_owner_with, start_trial_with, sync_with_git_provider,
  update_default_organization_with, update_profile_with,
}
use codecov_api.Commands.Owners.{
  Forms, authorize, cancel_trial_of, onboard_user, save_terms_agreement, set_yaml_on_owner,
  start_trial_of, trigger_sync, update_default_organization, update_profile, yaml_owner,
}
use codecov_api.Commands.Sentry.{save_sentry_state}
use codecov_api.Commands.Tokens.{
  check_org, create_api_token, create_user_token, delete_session, owner_called,
  regenerate_org_upload_token, revoke_user_token,
}
use codecov_api.Commands.Repositories.{
  activate_measurements, check_flag, delete_flag, regenerate_repository_token,
}

-- The world is as it was, or the condition holds.
abbrev pub UnlessAllowed {ℓ} : {A : Type ℓ} → Type 0 → World → Outcome A × World → Type 0
UnlessAllowed Allowed w answer = (answer.1 ≡ w) ⊎ Allowed

-- The caller's owner is the organisation, or lists it among its organisations.
abbrev pub IsMember : Caller → Owner → Type 0
IsMember c org =
    (user : Owner) × (c.current_owner ≡ some user)
    × ((user.ownerid ≡ org.ownerid) ⊎ IsIn org.ownerid (listed user.organizations))

part-IsMember :
    (c : Caller) (org : Owner)
    → current_user_part_of_org c.current_owner org ≡ true
    → IsMember c org
unfolding current_user_part_of_org
part-IsMember c org h = elim (Option-cases c.current_owner) [
  | inl e ↦ absurd (ground arith)
  | inr (user, e) ↦ (
    user,
    e,
    (either_iff _ _ (==_iff user.ownerid org.ownerid)
          (mem_iff org.ownerid (listed user.organizations))).0
        (rw e at h),
  )
]

-- The user is the organisation, or one of its admins.
abbrev pub IsAdmin : Owner → Owner → Type 0
IsAdmin org user = (org.ownerid ≡ user.ownerid) ⊎ IsIn user.ownerid (listed org.admins)

is_admin-IsAdmin : (org user : Owner) → is_admin org user ≡ true → IsAdmin org user
unfolding is_admin
is_admin-IsAdmin org user h = elim (Option-cases org.admins) [
  | inl e ↦ inl (ground arith)
  | inr (ids, e) ↦
      rw e (
        (either_iff _ _ (==_iff org.ownerid user.ownerid) (mem_iff user.ownerid ids)).0 (rw e at h))
]

set_yaml-missing :
    (forms : Forms) (c : Caller) (username yaml : String) (w : World) (e : Error)
    → yaml_owner c username w ≡ err e
    → (set_yaml_on_owner forms c username yaml w).1 ≡ w
unfolding set_yaml_on_owner
set_yaml-missing forms c username yaml w e h = ground arith

set_yaml-outsider :
    (forms : Forms) (c : Caller) (username yaml : String) (w : World) (org : Owner)
    → yaml_owner c username w ≡ ok org
    → current_user_part_of_org c.current_owner org ≡ false
    → (set_yaml_on_owner forms c username yaml w).1 ≡ w
unfolding set_yaml_on_owner authorize
set_yaml-outsider forms c username yaml w org h n = ground arith

set_yaml-members :
    (forms : Forms) (c : Caller) (username yaml : String) (w : World) (found : Outcome Owner)
    → yaml_owner c username w ≡ found
    → UnlessAllowed
        ((org : Owner) × (yaml_owner c username w ≡ ok org) × IsMember c org)
        w
        (set_yaml_on_owner forms c username yaml w)
set_yaml-members forms c username yaml w (err e) h =
    inl (set_yaml-missing forms c username yaml w e h)
set_yaml-members forms c username yaml w (ok org) h =
    elim (Bool-cases (current_user_part_of_org c.current_owner org)) [
      | inl part ↦ inr (org, h, part-IsMember c org part)
      | inr out ↦ inl (set_yaml-outsider forms c username yaml w org h out)
    ]

regenerate_org-missing :
    (c : Caller) (name : String) (w : World)
    → owner_called c name w ≡ none
    → (regenerate_org_upload_token c name w).1 ≡ w
unfolding regenerate_org_upload_token check_org
regenerate_org-missing c name w h = ground arith

regenerate_org-outsider :
    (c : Caller) (name : String) (w : World) (org : Owner)
    → owner_called c name w ≡ some org
    → current_user_part_of_org c.current_owner org ≡ false
    → (regenerate_org_upload_token c name w).1 ≡ w
unfolding regenerate_org_upload_token check_org
regenerate_org-outsider c name w org h n = ground arith

regenerate_org-members :
    (c : Caller) (name : String) (w : World) (found : Option Owner)
    → owner_called c name w ≡ found
    → UnlessAllowed
        ((org : Owner) × (owner_called c name w ≡ some org) × IsMember c org)
        w
        (regenerate_org_upload_token c name w)
regenerate_org-members c name w none h = inl (regenerate_org-missing c name w h)
regenerate_org-members c name w (some org) h =
    elim (Bool-cases (current_user_part_of_org c.current_owner org)) [
      | inl part ↦ inr (org, h, part-IsMember c org part)
      | inr out ↦ inl (regenerate_org-outsider c name w org h out)
    ]

-- The owner is there, and the caller is one of its admins.
abbrev pub IsAdminThere : Caller → String → World → Type 0
IsAdminThere c name w =
    (org : Owner) × (user : Owner) × (owner_named c name w ≡ some org)
    × (c.current_owner ≡ some user)
    × IsAdmin org user

delete_flag-nobody :
    (c : Caller) (name repo flag : String) (w : World)
    → c.current_owner ≡ none
    → (delete_flag c name repo flag w).1 ≡ w
unfolding delete_flag
delete_flag-nobody c name repo flag w h = ground arith

delete_flag-missing :
    (c : Caller) (name repo flag : String) (w : World) (user : Owner)
    → c.current_owner ≡ some user
    → owner_named c name w ≡ none
    → (delete_flag c name repo flag w).1 ≡ w
unfolding delete_flag check_flag
delete_flag-missing c name repo flag w user u h = ground arith

delete_flag-other :
    (c : Caller) (name repo flag : String) (w : World) (user org : Owner)
    → c.current_owner ≡ some user
    → owner_named c name w ≡ some org
    → is_admin org user ≡ false
    → (delete_flag c name repo flag w).1 ≡ w
unfolding delete_flag check_flag
delete_flag-other c name repo flag w user org u h n = ground arith

delete_flag-admins :
    (c : Caller) (name repo flag : String) (w : World) (current found : Option Owner)
    → c.current_owner ≡ current
    → owner_named c name w ≡ found
    → UnlessAllowed (IsAdminThere c name w) w (delete_flag c name repo flag w)
delete_flag-admins c name repo flag w none found u h = inl (delete_flag-nobody c name repo flag w u)
delete_flag-admins c name repo flag w (some user) none u h =
    inl (delete_flag-missing c name repo flag w user u h)
delete_flag-admins c name repo flag w (some user) (some org) u h =
    elim (Bool-cases (is_admin org user)) [
      | inl admin ↦ inr (org, user, h, u, is_admin-IsAdmin org user admin)
      | inr other ↦ inl (delete_flag-other c name repo flag w user org u h other)
    ]

-- What a mutation asks of its caller: to have an owner, or an authenticated user; for the yaml and
-- the upload token of an organisation to be a member of it, and for its flags to be an admin.
abbrev pub HasOwner : Caller → Type 0
HasOwner c = (user : Owner) × (c.current_owner ≡ some user)

abbrev pub Allowed : Caller → World → Mutation → Type 0
Allowed c w (set_yaml_on_owner_with username yaml) =
    (org : Owner) × (yaml_owner c username w ≡ ok org) × IsMember c org
Allowed c w (regenerate_org_upload_token_with name) =
    (org : Owner) × (owner_called c name w ≡ some org) × IsMember c org
Allowed c w (delete_flag_with name repo flag) = IsAdminThere c name w
Allowed c w (create_api_token_with name) = HasOwner c
Allowed c w (create_user_token_with name token_type) = HasOwner c
Allowed c w (delete_session_with i) = HasOwner c
Allowed c w (revoke_user_token_with i) = HasOwner c
Allowed c w (onboard_user_with params) = HasOwner c
Allowed c w (update_profile_with email name) = HasOwner c
Allowed c w sync_with_git_provider = HasOwner c
Allowed c w (update_default_organization_with username) = HasOwner c
Allowed c w (start_trial_with org) = c.request_user ≡ true
Allowed c w (cancel_trial_with org) = c.request_user ≡ true
Allowed c w (save_terms_agreement_with email agreed) = c.request_user ≡ true
Allowed c w (save_sentry_state_with state) = c.request_user ≡ true
Allowed c w (regenerate_repository_token_with repo owner t) = c.request_user ≡ true
Allowed c w (activate_measurements_with repo owner m) = c.request_user ≡ true

with-owner :
    (c : Caller) (w : World) (m : Exec (Unit {0}))
    → (c.current_owner ≡ none → (m w).1 ≡ w)
    → UnlessAllowed (HasOwner c) w (m w)
with-owner c w m idle = elim (Option-cases c.current_owner) [
  | inl e ↦ inl (idle e)
  | inr (user, e) ↦ inr (user, e)
]

with-user :
    (c : Caller) (w : World) (m : Exec (Unit {0}))
    → UnlessAllowed (c.request_user ≡ true) w (require_authenticated c m w)
with-user c w m = elim (Bool-cases c.request_user) [ inl e ↦ inr e | inr e ↦ inl (rw e refl) ]

module _ (forms : Forms) (enabled : Bool) (c : Caller) (w : World) where
  -- Without an owner or a user, as the mutation asks, the world stays as it was. The yaml and the
  -- upload token of an organisation are only changed by itself and by users that list it among their
  -- organisations, and its flags are only deleted by itself and by its admins: for any other caller
  -- the world stays as it was, too.
  pub resolve-Allowed :
      (m : Mutation) → UnlessAllowed (Allowed c w m) w (resolve forms enabled c m w)
  unfolding resolve create_api_token create_user_token delete_session revoke_user_token onboard_user
      update_profile trigger_sync update_default_organization
  resolve-Allowed (set_yaml_on_owner_with username yaml) =
      set_yaml-members forms c username yaml w (yaml_owner c username w) refl
  resolve-Allowed (regenerate_org_upload_token_with name) =
      regenerate_org-members c name w (owner_called c name w) refl
  resolve-Allowed (delete_flag_with name repo flag) =
      delete_flag-admins c name repo flag w c.current_owner (owner_named c name w) refl refl
  resolve-Allowed (create_api_token_with name) =
      with-owner c w (resolve forms enabled c (create_api_token_with name)) λ e. rw e refl
  resolve-Allowed (create_user_token_with name t) =
      with-owner c w (resolve forms enabled c (create_user_token_with name t)) λ e. rw e refl
  resolve-Allowed (delete_session_with i) =
      with-owner c w (resolve forms enabled c (delete_session_with i)) λ e. rw e refl
  resolve-Allowed (revoke_user_token_with i) =
      with-owner c w (resolve forms enabled c (revoke_user_token_with i)) λ e. rw e refl
  resolve-Allowed (onboard_user_with params) =
      with-owner c w (resolve forms enabled c (onboard_user_with params)) λ e. rw e refl
  resolve-Allowed (update_profile_with email name) =
      with-owner c w (resolve forms enabled c (update_profile_with email name)) λ e. rw e refl
  resolve-Allowed sync_with_git_provider =
      with-owner c w (resolve forms enabled c sync_with_git_provider) λ e. rw e refl
  resolve-Allowed (update_default_organization_with username) =
      with-owner c w (resolve forms enabled c (update_default_organization_with username))
        λ e. rw e refl
  resolve-Allowed (start_trial_with org) = with-user c w (start_trial_of c org)
  resolve-Allowed (cancel_trial_with org) = with-user c w (cancel_trial_of c org)
  resolve-Allowed (save_terms_agreement_with email agreed) =
      with-user c w (save_terms_agreement c email agreed)
  resolve-Allowed (save_sentry_state_with state) = with-user c w (save_sentry_state forms c state)
  resolve-Allowed (regenerate_repository_token_with repo owner t) =
      with-user c w (quiet (regenerate_repository_token c repo owner t))
  resolve-Allowed (activate_measurements_with repo owner m) =
      with-user c w (quiet (activate_measurements enabled c repo owner m))
