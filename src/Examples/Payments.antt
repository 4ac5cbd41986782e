-- ===== src/Examples/Payments.antt =====
-- Subscriptions and events of Stripe on concrete organisations.
use codecov_api.Plan.Constants.{user_plan_representations}
use mathlib.Core.Option
use codecov_api.Base.{
  All, String, [], get_elem?, if◌then◌else◌, lookup, not, refl, some, subst, true, truthy, ℕ, ◌&&◌,
  ◌==◌, ◌∷◌, ◌≡◌,
}
use codecov_api.Owner.{Owner}
use codecov_api.Store.{World, err, ok, ok-injective, put_owner, value_error}
use codecov_api.Seats.Count.{keys, row_of}
use codecov_api.Plan.Service.{find_plan}
use codecov_api.Billing.Proration.{is_upgrading}
use codecov_api.Billing.Payment.{apply_cancellation_discount, modify_now, modify_subscription}
use codecov_api.Billing.Webhooks.{customer_subscription_deleted, post, subscription_deleted}
use codecov_api.Billing.Upgrade.{
  items_call, modify_now_unsupported, modify_subscription_row, with_plan,
}
use codecov_api.Billing.Effects.{customer_subscription_deleted_lem, inactive, on_basic_plan}
use codecov_api.Billing.Frame.Rows.{IsSupported}
use codecov_api.Billing.Frame.Post.{post-IsSupported}
use codecov_api.Billing.Service.{stripe_service, update_plan}
use codecov_api.Billing.Coupon.{Named, apply_cancellation_discount_once}
use codecov_api.Billing.Frame.Client.{update_plan-IsSupported}
use codecov_api.Examples.{accepting, acme, more_seats, settings, sub, today, user_of}

known_plans : All IsSupported today.owners
unfolding find_plan user_plan_representations lookup
known_plans = (refl, (refl, (refl, (refl, tt))))

post-IsSupported_example :
    (keys (post settings accepting (some (subscription_deleted sub)) today).1.owners
      ≡ keys today.owners)
    × All IsSupported (post settings accepting (some (subscription_deleted sub)) today).1.owners
post-IsSupported_example =
    post-IsSupported settings accepting (some (subscription_deleted sub)) today known_plans

abbrev bought : World
bought = record today {
  owners = with_plan acme more_seats 1_000_000 ∷ user_of 2 ∷ user_of 3 ∷ user_of 4 ∷ [];
}

modify_subscription_row_example :
    row_of 1 (modify_subscription settings accepting (user_of 2) acme more_seats today).1.owners ≡ (
      if is_upgrading acme more_seats && not (truthy sub.schedule)
      then some (with_plan acme more_seats 1_000_000)
      else some acme)
modify_subscription_row_example =
    modify_subscription_row settings accepting (user_of 2) acme more_seats today
      (modify_subscription settings accepting (user_of 2) acme more_seats today).1 sub refl refl
      (unfold modify_subscription user_plan_representations in refl)

-- An organisation on a plan that is not offered any more.
abbrev veteran : Owner
veteran = record acme { plan = some "v4-50m" }

modify_now_unsupported_example :
    let r = modify_now settings accepting (user_of 2) veteran sub more_seats today in
    (r.0 ≡ err value_error)
    × (r.1.owners ≡ today.owners)
    × (r.1.stripe_log ≡ items_call (user_of 2) veteran more_seats sub "plan_pro" ∷ [])
modify_now_unsupported_example =
    modify_now_unsupported settings accepting (user_of 2) veteran more_seats today sub "plan_pro"
      "sched_1" (unfold find_plan lookup user_plan_representations in refl) (unfold lookup in refl)
      refl

customer_subscription_deleted_lem_example :
    let w' = (customer_subscription_deleted sub today).1 in
    (row_of 1 w'.owners ≡ some (on_basic_plan acme 1_000_000))
    × ((n : ℕ)
        → get_elem? w'.repos n
          ≡ Option.map (λ r. if r.author == 1 then inactive r else r) (get_elem? today.repos n))
customer_subscription_deleted_lem_example =
    customer_subscription_deleted_lem sub acme today refl
      (unfold find_plan lookup user_plan_representations in refl)

update_plan-IsSupported_example :
    (keys
        (update_plan settings accepting (stripe_service (user_of 2)) acme more_seats today).1.owners
      ≡ keys today.owners)
    × All IsSupported
        (update_plan settings accepting (stripe_service (user_of 2)) acme more_seats today).1.owners
update_plan-IsSupported_example =
    update_plan-IsSupported settings accepting (stripe_service (user_of 2)) acme more_seats today
      refl (unfold find_plan lookup user_plan_representations in refl) known_plans

coupons-Named : Named accepting
coupons-Named log i id q = subst (λ (x : String). truthy (some x) ≡ true) (ok-injective q) refl

abbrev discounted : Owner
discounted = record acme { stripe_coupon_id = some "sched_1"; updatestamp = 1_000_000 }

apply_cancellation_discount_once_example :
    apply_cancellation_discount settings accepting (user_of 2) discounted today ≡ (ok tt, today)
apply_cancellation_discount_once_example =
    apply_cancellation_discount_once settings accepting accepting (user_of 2) acme discounted today
      (apply_cancellation_discount settings accepting (user_of 2) acme today).1 today coupons-Named
      refl (unfold apply_cancellation_discount lookup user_plan_representations in refl)
      (unfold apply_cancellation_discount lookup user_plan_representations put_owner in refl)
