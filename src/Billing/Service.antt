-- ===== src/Billing/Service.antt =====
-- services/billing.py: `EnterprisePaymentService` and `BillingService`.
use codecov_api.Base.{Option, String, has_key, if◌then◌else◌, is_some, none, some}
use codecov_api.Owner.{Owner}
use codecov_api.Store.{Exec, lift, pure, ◌>>=◌}
use codecov_api.Plan.Constants.{free_plan_representations, pro_plans}
use codecov_api.Plan.Service.{init, set_default_plan_data}
use codecov_api.Billing.{DesiredPlan, Settings, Stripe}
use codecov_api.Billing.Payment.{
  apply_cancellation_discount, create_checkout_session, delete_subscription, modify_subscription,
  update_payment_method,
}

-- The payment service of BillingService. EnterprisePaymentService does nothing.
pub data PaymentService : Type 0 where
  enterprise : PaymentService
  stripe_service : Owner → PaymentService

-- BillingService.__init__ with no payment service given.
unfoldable pub choose : Settings → Owner → PaymentService
choose settings user = if settings.is_enterprise then enterprise else stripe_service user

module _ (settings : Settings) (stripe : Stripe) where
  unfoldable pub cancel : PaymentService → Owner → Exec (Unit {0})
  unfolding delete_subscription
  cancel enterprise owner = pure tt
  cancel (stripe_service user) owner = delete_subscription settings stripe user owner

  unfoldable pub change : PaymentService → Owner → DesiredPlan → Exec (Unit {0})
  unfolding modify_subscription
  change enterprise owner desired = pure tt
  change (stripe_service user) owner desired =
      modify_subscription settings stripe user owner desired

  unfoldable pub checkout : PaymentService → Owner → DesiredPlan → Exec (Option String)
  unfolding create_checkout_session
  checkout enterprise owner desired = pure none
  checkout (stripe_service user) owner desired = do
    session ← create_checkout_session settings stripe user owner desired
    pure (some session)

  -- BillingService.update_plan: the id of the checkout session, where there is one.
  unfoldable pub update_plan : PaymentService → Owner → DesiredPlan → Exec (Option String)
  unfolding cancel change checkout init set_default_plan_data has_key
  update_plan service owner desired =
      if has_key desired.plan_value free_plan_representations
      then (if is_some owner.stripe_subscription_id
          then (do _ ← cancel service owner; pure none)
          else (do plan ← lift (init owner); _ ← set_default_plan_data plan; pure none))
      else if has_key desired.plan_value pro_plans
      then (if is_some owner.stripe_subscription_id
          then (do _ ← change service owner desired; pure none)
          else checkout service owner desired)
      else pure none

  -- BillingService.update_payment_method
  unfoldable pub pay_with : PaymentService → Owner → String → Exec (Unit {0})
  unfolding update_payment_method
  pay_with enterprise owner method = pure tt
  pay_with (stripe_service user) owner method =
      update_payment_method settings stripe user owner method

  -- BillingService.apply_cancellation_discount
  unfoldable pub discount : PaymentService → Owner → Exec (Unit {0})
  unfolding apply_cancellation_discount
  discount enterprise owner = pure tt
  discount (stripe_service user) owner = apply_cancellation_discount settings stripe user owner
