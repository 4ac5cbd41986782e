-- ===== src/Plan/Service.antt =====
-- plan/service.py: `PlanService`, the plan and the trial of one organisation.
use codecov_api.Base.{
  Option, String, arith, if◌then◌else◌, is_some, lookup, ltb, none, not, opt_eq, some, true, truthy,
  ℕ, ◌&&◌, ◌*◌, ◌+◌, ◌≡◌,
}
use codecov_api.Owner.{Owner}
use codecov_api.Store.{
  Exec, Outcome, err, lift, ok, pure, raise, save, type_error, utcnow, validation_error,
  value_error, ◌>>=◌,
}
use codecov_api.Plan.Constants.{user_plan_representations}
use codecov_api.Plan.{
  PlanData, TrialStatus, basic_plan_name, cannot_trial, expired, not_started, ongoing,
  sentry_trial_days, trial_value, value,
}

pub record PlanService : Type 0 where
  pub current_org : Owner
  pub plan_data : PlanData

-- USER_PLAN_REPRESENTATIONS.get(plan)
unfoldable pub find_plan : Option String → Option PlanData
find_plan none = none
find_plan (some name) = lookup name user_plan_representations

-- PlanService.__init__
unfoldable pub init : Owner → Outcome PlanService
unfolding find_plan
init org = elim (find_plan org.plan) [
  | none ↦ err value_error
  | some p ↦ ok (record { current_org = org; plan_data = p })
]

pub init_org : (o : Owner) (s : PlanService) → init o ≡ ok s → o ≡ s.current_org
unfolding init
init_org o s h = ground arith

unfoldable pub saved : PlanData → Owner → Exec PlanService
saved p org = do org' ← save org; pure (record { current_org = org'; plan_data = p })

unfoldable pub update_plan : String → ℕ → PlanService → Exec PlanService
unfolding find_plan saved save
update_plan name user_count s = elim (find_plan (some name)) [
  | none ↦ raise value_error
  | some p ↦ saved p (record s.current_org { plan = some name; plan_user_count = some user_count })
]

pub update_plan_unknown :
    (name : String) (user_count : ℕ) (s : PlanService)
    → find_plan (some name) ≡ none
    → update_plan name user_count s ≡ raise value_error
unfolding update_plan
update_plan_unknown name user_count s e = rw (e, update_plan)

pub update_plan_known :
    (name : String) (user_count : ℕ) (s : PlanService) (p : PlanData)
    → find_plan (some name) ≡ some p
    → update_plan name user_count s
      ≡ saved p (record s.current_org { plan = some name; plan_user_count = some user_count })
unfolding update_plan
update_plan_known name user_count s p e = rw (e, update_plan)

-- The data of the old plan stays in `plan_data`.
unfoldable pub set_default_plan_data : PlanService → Exec PlanService
unfolding saved save
set_default_plan_data s = saved s.plan_data (record s.current_org {
  plan = some (value basic_plan_name);
  plan_activated_users = none;
  plan_user_count = some 1;
  stripe_subscription_id = none;
})

-- One day in microseconds.
abbrev pub day : ℕ
day = 86_400_000_000

-- `utcnow() > trial_end_date`, which has no meaning for a missing end.
unfoldable pub ended : Owner → ℕ → Outcome TrialStatus
ended org t = elim org.trial_end_date [
  | none ↦ err type_error
  | some end ↦ if ltb end t then ok expired else ok ongoing
]

-- PlanService.trial_status, at the time `t`.
unfoldable pub trial_status : Owner → ℕ → Outcome TrialStatus
unfolding ended
trial_status org t =
    if not (is_some org.trial_start_date) && not (is_some org.trial_end_date)
    then ok not_started
    else if opt_eq org.trial_start_date org.trial_end_date && truthy org.stripe_customer_id
    then ok cannot_trial
    else ended org t

unfoldable pub start_if : PlanService → TrialStatus → Exec PlanService
unfolding saved save
start_if s not_started = do
  start_date ← utcnow
  saved s.plan_data (record s.current_org {
    trial_start_date = some start_date;
    trial_end_date = some (start_date + sentry_trial_days * day);
    plan_auto_activate = some true;
  })
start_if s _ = raise validation_error

unfoldable pub start_trial : PlanService → Exec PlanService
unfolding start_if trial_status
start_trial s = do t ← utcnow; status ← lift (trial_status s.current_org t); start_if s status

unfoldable pub cancel_if : PlanService → TrialStatus → Exec PlanService
unfolding set_default_plan_data
cancel_if s ongoing = do
  t ← utcnow
  set_default_plan_data (record s {
    current_org = record s.current_org {
      trial_status = some (trial_value expired);
      trial_end_date = some t;
    };
  })
cancel_if s _ = raise validation_error

unfoldable pub cancel_trial : PlanService → Exec PlanService
unfolding cancel_if trial_status
cancel_trial s = do t ← utcnow; status ← lift (trial_status s.current_org t); cancel_if s status

unfoldable pub expire_if : PlanService → TrialStatus → Exec PlanService
unfolding saved save
expire_if s not_started = do
  t ← utcnow
  saved s.plan_data (record s.current_org { trial_end_date = some t })
expire_if s ongoing = do
  t ← utcnow
  saved s.plan_data (record s.current_org { trial_end_date = some t })
expire_if s _ = pure s

unfoldable pub expire_trial : PlanService → Exec PlanService
unfolding expire_if trial_status
expire_trial s = do t ← utcnow; status ← lift (trial_status s.current_org t); expire_if s status
