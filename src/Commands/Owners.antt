-- ===== src/Commands/Owners.antt =====
-- codecov_auth/commands/owner/interactors: the commands on owners, their profiles and their trials.
-- Django's checks of forms and the libraries that read and validate a yaml are parameters.
use Prim.Native.Char.{code}
use mathlib.Core.Option
use codecov_api.Base.{
  Bool, List, Option, String, [], any, false, if◌then◌else◌, join, mem, mem_str, none, not,
  opt_str_eq, some, str_eq, true, truthy, ℕ, ◌&&◌, ◌==◌, ◌||◌, ◌∷◌,
}
use codecov_api.Owner.{Owner}
use codecov_api.Accounts.{OwnerColumns, OwnerProfile}
use codecov_api.Store.{
  Exec, Outcome, World, database_error, does_not_exist, err, get_owner, invalid_yaml, lift,
  not_found, ok, pure, raise, save, scanner_error, type_error, unauthorized, utcnow,
  validation_error, ◌>>=◌,
}
use codecov_api.Plan.Service.{cancel_trial, init, start_trial}
use codecov_api.Commands.{
  Caller, current_user_part_of_org, logged_in, owner_named, set_accounts, trigger_refresh,
}

-- What an interactor does with an owner that it may not find.
abbrev pub found_owner : Caller → String → Exec Owner
found_owner c username w = elim (owner_named c username w) [
  | none ↦ (err validation_error, w)
  | some o ↦ (ok o, w)
]

-- StartTrialInteractor.execute
unfoldable pub start_trial_of : Caller → String → Exec (Unit {0})
unfolding owner_named init start_trial
start_trial_of c org_username = do
  owner ← found_owner c org_username
  service ← lift (init owner)
  _ ← start_trial service
  pure tt

-- CancelTrialInteractor.execute
unfoldable pub cancel_trial_of : Caller → String → Exec (Unit {0})
unfolding owner_named init cancel_trial
cancel_trial_of c org_username = do
  owner ← found_owner c org_username
  service ← lift (init owner)
  _ ← cancel_trial service
  pure tt

-- The columns that a row of Owner has before a command writes them.
abbrev pub no_columns : ℕ → OwnerColumns
no_columns i = record {
  owner = i;
  business_email = none;
  onboarding_completed = false;
  yaml = none;
  sentry_user_id = none;
  sentry_user_data = none;
}

abbrev pub columns_in : ℕ → List OwnerColumns → OwnerColumns
columns_in i [] = no_columns i
columns_in i (r ∷ rows) = if r.owner == i then r else columns_in i rows

abbrev pub change_columns :
    ℕ → (OwnerColumns → OwnerColumns) → List OwnerColumns → List OwnerColumns
change_columns i f [] = f (no_columns i) ∷ []
change_columns i f (r ∷ rows) = if r.owner == i then f r ∷ rows else r ∷ change_columns i f rows

abbrev pub set_columns : ℕ → (OwnerColumns → OwnerColumns) → Exec (Unit {0})
set_columns i f = set_accounts λ a. record a { columns = change_columns i f a.columns }

abbrev pub no_profile : ℕ → OwnerProfile
no_profile i = record {
  owner = i;
  type_projects = [];
  goals = [];
  other_goal = none;
  default_org = none;
  terms_agreement = none;
  terms_agreement_at = none;
}

-- get_or_create or update_or_create, and then save: the owner's profile, or a new one, is changed.
unfoldable pub change_profile :
    ℕ → (OwnerProfile → OwnerProfile) → List OwnerProfile → List OwnerProfile
change_profile i f [] = f (no_profile i) ∷ []
change_profile i f (p ∷ rows) = if p.owner == i then f p ∷ rows else p ∷ change_profile i f rows

unfoldable pub set_profile : ℕ → (OwnerProfile → OwnerProfile) → Exec (Unit {0})
unfolding change_profile
set_profile i f = set_accounts λ a. record a { profiles = change_profile i f a.profiles }

pub record OnboardParams : Type 0 where
  pub email : Option String
  pub business_email : Option String
  pub type_projects : List String
  pub goals : List String
  pub other_goal : Option String

abbrev pub project_types : List String
project_types = "PERSONAL" ∷ "YOUR_ORG" ∷ "OPEN_SOURCE" ∷ "EDUCATIONAL" ∷ []

abbrev pub goal_choices : List String
goal_choices =
    "STARTING_WITH_TESTS" ∷ "IMPROVE_COVERAGE" ∷ "MAINTAIN_COVERAGE" ∷ "TEAM_REQUIREMENTS" ∷ "OTHER"
    ∷ []

-- A MultipleChoiceField, which is required.
abbrev pub chosen : List String → List String → Bool
chosen choices [] = false
chosen choices (x ∷ xs) = not (any (λ v. not (mem_str v choices)) (x ∷ xs))

-- What jwt.decode makes of a state: its user and all its claims, or an error, which decode_state
-- catches or not.
pub data Token : Type 0 where
  claims : Option String → String → Token
  undecodable refused : Token

pub record Forms : Type 0 where
  pub jwt_decode : String → Token
  pub is_email : String → Bool
  pub safe_load : String → Outcome (Option String)
  pub validate_yaml : String → Outcome String

abbrev pub or_not_found : Outcome Owner → Outcome Owner
or_not_found (ok o) = ok o
or_not_found (err does_not_exist) = err not_found
or_not_found (err e) = err e

-- SetYamlOnOwnerInteractor.get_owner
unfoldable pub yaml_owner : Caller → String → World → Outcome Owner
unfolding get_owner
yaml_owner c username w =
    or_not_found
      (get_owner (λ o. opt_str_eq o.username (some username) && str_eq o.service c.service) w).0

-- SetYamlOnOwnerInteractor.authorize
unfoldable pub authorize : Caller → Owner → Outcome (Unit {0})
unfolding current_user_part_of_org
authorize c owner =
    if not (current_user_part_of_org c.current_owner owner) then err unauthorized else ok tt

module _ (forms : Forms) where
  abbrev pub email_field : Option String → Bool
  email_field none = true
  email_field (some s) = str_eq s "" || forms.is_email s

  -- OnboardForm.is_valid
  unfoldable pub onboard_form : OnboardParams → Bool
  onboard_form p =
      email_field p.email
      && (email_field p.business_email
          && (chosen project_types p.type_projects && chosen goal_choices p.goals))

  -- OnboardUserInteractor.execute
  unfoldable pub onboard_user : Caller → OnboardParams → Exec Owner
  unfolding onboard_form set_profile save
  onboard_user c params = do
    owner ← logged_in c
    completed ← λ w. (ok (columns_in owner.ownerid w.accounts.columns).onboarding_completed, w)
    if completed || not (onboard_form params)
        then raise (if completed then unauthorized else validation_error)
        else (do
          _ ←
              set_columns owner.ownerid λ r. record r {
                onboarding_completed = true;
                business_email = params.business_email;
              }
          owner' ← save (record owner { email = params.email })
          _ ← set_profile owner.ownerid λ p. record p {
            type_projects = params.type_projects;
            goals = params.goals;
            other_goal = params.other_goal;
          }
          pure owner')

  -- UpdateProfileInteractor.execute: an empty value leaves the field.
  unfoldable pub update_profile : Caller → Option String → Option String → Exec Owner
  unfolding save
  update_profile c email name = do
    owner ← logged_in c
    if not (email_field email) then raise validation_error else (do
      let emailed = if truthy email then record owner { email = email } else owner
      save (if truthy name then record emailed { name = name } else emailed))

  -- html.escape(s, quote=False)
  unfoldable pub escape : String → String
  escape String.[] = ""
  escape (String.◌∷◌ c s) =
      let rest = escape s in
      if code c == b'&'
      then join "&amp;" rest
      else (if code c == b'<'
          then join "&lt;" rest
          else (if code c == b'>' then join "&gt;" rest else String.◌∷◌ c rest))

  -- SetYamlOnOwnerInteractor.convert_yaml_to_dict, which only catches the errors of the scanner and
  -- of the validation; another error of yaml is `yaml_error`.
  unfoldable pub convert_yaml_to_dict : String → Outcome (Option String)
  unfolding escape
  convert_yaml_to_dict yaml_input = elim (forms.safe_load (escape yaml_input)) [
    | err scanner_error ↦ err validation_error
    | err e ↦ err e
    | ok none ↦ ok none
    | ok (some dict) ↦ elim (forms.validate_yaml dict) [
      | err invalid_yaml ↦ err validation_error
      | err e ↦ err e
      | ok valid ↦ ok (some valid)
    ]
  ]

  -- SetYamlOnOwnerInteractor.execute
  unfoldable pub set_yaml_on_owner : Caller → String → String → Exec Owner
  unfolding yaml_owner authorize convert_yaml_to_dict save
  set_yaml_on_owner c username yaml_input = do
    _ ← logged_in c
    owner ← λ w. (yaml_owner c username w, w)
    _ ← lift (authorize c owner)
    yaml ← lift (convert_yaml_to_dict yaml_input)
    _ ← set_columns owner.ownerid λ r. record r { yaml = yaml }
    save owner

-- SaveTermsAgreementInteractor.execute: without an owner the row of a profile is refused.
unfoldable pub save_terms_agreement : Caller → Option String → Option Bool → Exec (Unit {0})
unfolding set_profile save
save_terms_agreement c business_email none = raise validation_error
save_terms_agreement c business_email (some agreed) = elim c.current_owner [
  | none ↦ raise database_error
  | some owner ↦ do
    t ← utcnow
    _ ←
        set_profile owner.ownerid
          λ p. record p { terms_agreement = some agreed; terms_agreement_at = some t }
    if not (truthy business_email) then pure tt else (do
      _ ← set_columns owner.ownerid λ r. record r { business_email = business_email }
      _ ← save owner
      pure tt)
]

-- TriggerSyncInteractor.execute
unfoldable pub trigger_sync : Caller → Exec (Unit {0})
unfolding trigger_refresh
trigger_sync c = do
  owner ← logged_in c
  trigger_refresh owner.ownerid owner.username true true false

-- UpdateDefaultOrganizationInteractor.validate, of a user that is authenticated.
unfoldable pub check_default : Owner → Option Owner → Outcome (Unit {0})
check_default owner none = ok tt
check_default owner (some o) = elim owner.organizations [
  | none ↦ err type_error
  | some ids ↦
      if mem o.ownerid ids || (o.ownerid == owner.ownerid) then ok tt else err validation_error
]

-- UpdateDefaultOrganizationInteractor.execute
unfoldable pub update_default_organization : Caller → Option String → Exec (Option String)
unfolding owner_named set_profile check_default
update_default_organization c default_org_username = do
  default_org ←
      λ w. (ok (elim default_org_username [ none ↦ none | some u ↦ owner_named c u w ]), w)
  owner ← logged_in c
  _ ← lift (check_default owner default_org)
  _ ←
      set_profile owner.ownerid
        λ p. record p { default_org = Option.map (λ o. o.ownerid) default_org }
  pure default_org_username
