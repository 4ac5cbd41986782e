-- ===== src/Examples/Plans.antt =====
-- Plans and trials on concrete organisations.
use codecov_api.Base.{List, [], none, refl, some, true, ℕ, ◌*◌, ◌+◌, ◌∷◌, ◌≡◌}
use codecov_api.Owner.{Owner}
use codecov_api.Store.{World, err, ok, put_owner, validation_error}
use codecov_api.Plan.{
  PlanData, basic_plan_name, codecov_pro, codecov_pro_monthly, expired, marketing_value, monthly,
  price, price_monthly, trial_value, value,
}
use codecov_api.Plan.Service.{PlanService, cancel_trial, day, start_trial}
use codecov_api.Plan.Trial.{PlanOp, cancels, defaults, expires, run, start_trial_once}
use codecov_api.Examples.{acme, today, user_of}

abbrev pro : PlanData
pro = record {
  marketing_name = marketing_value codecov_pro;
  plan_value = value codecov_pro_monthly;
  billing_rate = some monthly;
  base_unit_price = price price_monthly;
  benefits =
      "Configurable # of users" ∷ "Unlimited public repositories" ∷ "Unlimited private repositories"
      ∷ "Priority Support" ∷ [];
  monthly_uploads_limit = none;
  trial_days = none;
}

abbrev before : PlanService
before = record { current_org = acme; plan_data = pro }

abbrev begun : PlanService
begun = record {
  current_org = record acme {
    trial_start_date = some 1_000_000;
    trial_end_date = some (1_000_000 + 14 * day);
    plan_auto_activate = some true;
    updatestamp = 1_000_000;
  };
  plan_data = pro;
}

abbrev stored : Owner → World
stored o = record today { owners = o ∷ user_of 2 ∷ user_of 3 ∷ user_of 4 ∷ [] }

begins : start_trial before today ≡ (ok begun, stored begun.current_org)
unfolding start_trial put_owner
begins = refl

abbrev cancelled : PlanService
cancelled = record {
  current_org = record begun.current_org {
    trial_status = some (trial_value expired);
    trial_end_date = some 1_000_000;
    plan = some (value basic_plan_name);
    plan_activated_users = none;
    plan_user_count = some 1;
    stripe_subscription_id = none;
  };
  plan_data = pro;
}

ends : cancel_trial begun (stored begun.current_org) ≡ (ok cancelled, stored cancelled.current_org)
unfolding cancel_trial put_owner
ends = refl

-- A trial that is cancelled after a minute and expires a day later.
abbrev calls : List (ℕ × PlanOp)
calls = (60_000_000, cancels) ∷ (day, expires) ∷ (1, defaults) ∷ []

start_trial_once_example :
    let after = run calls (begun, stored begun.current_org) in
    start_trial after.0 after.1 ≡ (err validation_error, after.1)
start_trial_once_example =
    start_trial_once before begun today (stored begun.current_org) calls begins
