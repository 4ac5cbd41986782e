-- ===== src/Billing/Proration.antt =====
-- services/billing.py: the proration of a change of plan.
use codecov_api.Base.{
  Bool, Option, String, false, if◌then◌else◌, is_some, ltb, none, nonzero, not, some, str_eq, true,
  ℕ, ◌&&◌, ◌==◌, ◌||◌,
}
use codecov_api.Owner.{Owner}
use codecov_api.Plan.{PlanBillingRate, monthly, same_rate, yearly}
use codecov_api.Plan.Service.{find_plan}
use codecov_api.Billing.{DesiredPlan}

-- The billing rate of a plan, where the plan is known.
unfoldable pub rate_of : Option String → Option PlanBillingRate
rate_of name = elim (find_plan name) [ none ↦ none | some p ↦ p.billing_rate ]

abbrev pub is_rate : PlanBillingRate → Option PlanBillingRate → Bool
is_rate r none = false
is_rate r (some q) = same_rate r q

abbrev pub known : Option String → Bool
known name = is_some (find_plan name)

abbrev pub same_rates : Option PlanBillingRate → Option PlanBillingRate → Bool
same_rates none none = true
same_rates none (some r) = false
same_rates (some q) none = false
same_rates (some q) (some r) = same_rate q r

abbrev pub seat_count : Option ℕ → ℕ
seat_count none = 0
seat_count (some n) = n

-- StripeService._is_upgrading_seats
unfoldable pub is_upgrading_seats : Owner → DesiredPlan → Bool
is_upgrading_seats owner desired =
    nonzero owner.plan_user_count && ltb (seat_count owner.plan_user_count) desired.seats

-- StripeService._is_extending_term
unfoldable pub is_extending_term : Owner → DesiredPlan → Bool
is_extending_term owner desired =
    is_rate monthly (rate_of owner.plan) && is_rate yearly (rate_of (some desired.plan_value))

-- StripeService._is_similar_plan
unfoldable pub is_similar_plan : Owner → DesiredPlan → Bool
is_similar_plan owner desired =
    (known owner.plan
      && (known (some desired.plan_value)
          && same_rates (rate_of owner.plan) (rate_of (some desired.plan_value))))
    && (nonzero owner.plan_user_count && (seat_count owner.plan_user_count == desired.seats))

-- StripeService._get_proration_params
unfoldable pub get_proration_params : Owner → DesiredPlan → String
unfolding is_upgrading_seats is_extending_term is_similar_plan
get_proration_params owner desired =
    if is_upgrading_seats owner desired
      || (is_extending_term owner desired || is_similar_plan owner desired)
    then "always_invoice"
    else "none"

-- The test `proration_behavior != "none"` of modify_subscription.
unfoldable pub is_upgrading : Owner → DesiredPlan → Bool
unfolding get_proration_params
is_upgrading owner desired = not (str_eq (get_proration_params owner desired) "none")
