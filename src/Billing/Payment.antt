-- ===== src/Billing/Payment.antt =====
-- services/billing.py: `StripeService`.
use Prim.Native.String.{◌++◌ as ◌+++◌}
use codecov_api.Base.{
  Bool, Dict, List, Option, String, [], if◌then◌else◌, is_some, lookup, none, nonzero, not,
  opt_str_eq, select, some, truthy, ℕ, ◌&&◌, ◌++◌, ◌+◌, ◌||◌, ◌∷◌,
}
use codecov_api.Owner.{Owner}
use codecov_api.Store.{
  Exec, Metadata, account_changed_plan, account_increased_users, apply_coupon,
  attach_payment_method, cancel_at_period_end, create_coupon, create_schedule, create_session, err,
  key_error, lift, modify_items, modify_schedule, ok, pure, release_schedule, save,
  set_default_payment_method, utcnow, ◌>>=◌,
}
use codecov_api.Plan.{monthly, not_started}
use codecov_api.Plan.Constants.{user_plan_representations}
use codecov_api.Plan.Service.{PlanService, init, trial_status, update_plan}
use codecov_api.Billing.{
  DesiredPlan, Invoice, Settings, Stripe, Subscription, request, retrieve_subscription,
}
use codecov_api.Billing.Proration.{
  get_proration_params, is_rate, is_upgrading, is_upgrading_seats, seat_count,
}

-- StripeService._get_checkout_session_and_subscription_metadata
abbrev pub metadata_of : Owner → Owner → Metadata
metadata_of requesting_user owner = record {
  service = owner.service;
  obo_organization = owner.ownerid;
  username = owner.username;
  obo_name = requesting_user.name;
  obo_email = requesting_user.email;
  obo = requesting_user.ownerid;
}

-- A nullable text, None where it is empty.
abbrev pub present : Option String → Option String
present s = if truthy s then s else none

-- d[k], with the KeyError of a missing key.
abbrev pub item {ℓ} : {A : Type ℓ} → Option A → Exec A
item none w = (err key_error, w)
item (some v) w = (ok v, w)

abbrev short_services : Dict String
short_services = ("github", "gh") ∷ ("bitbucket", "bb") ∷ ("gitlab", "gl") ∷ []

abbrev shown : Option String → String
shown none = "None"
shown (some s) = s

module _ (settings : Settings) (stripe : Stripe) (requesting_user : Owner) where
  -- settings.STRIPE_PLAN_IDS[name]
  abbrev pub stripe_plan_id : String → Exec String
  stripe_plan_id name = item (lookup name settings.stripe_plan_ids)

  -- StripeService._segment_modify_subscription
  unfoldable pub segment_modify_subscription : Owner → DesiredPlan → Exec (Unit {0})
  segment_modify_subscription owner desired w =
      let seats_event =
        account_increased_users requesting_user.ownerid owner.ownerid desired.seats
          (seat_count owner.plan_user_count) desired.plan_value in
      let plan_event =
        account_changed_plan requesting_user.ownerid owner.ownerid desired.plan_value owner.plan in
      let changed =
        if not (opt_str_eq owner.plan (some desired.plan_value)) then plan_event ∷ [] else [] in
      let increased = if is_upgrading_seats owner desired then seats_event ∷ [] else [] in
      (ok tt, record w { segment_log = w.segment_log ++ (changed ++ increased) })

  -- StripeService._modify_subscription_schedule; SCHEDULE_RELEASE_OFFSET is 10.
  unfoldable pub modify_subscription_schedule :
      Owner → Subscription → String → DesiredPlan → Exec String
  unfolding lookup
  modify_subscription_schedule owner subscription schedule_id desired = do
    current_id ← stripe_plan_id subscription.item_plan_name
    desired_id ← stripe_plan_id desired.plan_value
    request stripe (
        modify_schedule schedule_id
          (record {
            start_date = subscription.current_period_start;
            end_date = subscription.current_period_end;
            plan_id = current_id;
            quantity = subscription.item_quantity;
          })
          (record {
            start_date = subscription.current_period_end;
            end_date = subscription.current_period_end + 10;
            plan_id = desired_id;
            quantity = desired.seats;
          })
          (metadata_of requesting_user owner))

  -- The branch of modify_subscription that changes the subscription at once.
  unfoldable pub modify_now : Owner → Subscription → DesiredPlan → Exec (Unit {0})
  unfolding segment_modify_subscription init update_plan get_proration_params lookup
  modify_now owner subscription desired = do
    desired_id ← stripe_plan_id desired.plan_value
    _ ← request stripe (
        modify_items owner.stripe_subscription_id subscription.item_id desired_id desired.seats
          (metadata_of requesting_user owner) (get_proration_params owner desired))
    _ ← segment_modify_subscription owner desired
    service ← lift (init owner)
    _ ← update_plan desired.plan_value desired.seats service
    pure tt

  abbrev pub ensure_schedule : Owner → Option String → Exec String
  ensure_schedule owner none = request stripe (create_schedule owner.stripe_subscription_id)
  ensure_schedule owner (some id) = pure id

  -- The branch that leaves the change to a schedule, which is created where there is none.
  unfoldable pub modify_later : Owner → Subscription → DesiredPlan → Exec (Unit {0})
  unfolding modify_subscription_schedule
  modify_later owner subscription desired = do
    schedule_id ← ensure_schedule owner (present subscription.schedule)
    _ ← modify_subscription_schedule owner subscription schedule_id desired
    pure tt

  -- StripeService.modify_subscription
  unfoldable pub modify_subscription : Owner → DesiredPlan → Exec (Unit {0})
  unfolding modify_now modify_later is_upgrading
  modify_subscription owner desired = do
    subscription ← retrieve_subscription stripe owner.stripe_subscription_id
    if is_upgrading owner desired && not (truthy subscription.schedule)
        then modify_now owner subscription desired
        else modify_later owner subscription desired

  abbrev release : Option String → Exec String
  release none = pure ""
  release (some id) = request stripe (release_schedule id)

  -- StripeService.delete_subscription
  unfoldable pub delete_subscription : Owner → Exec (Unit {0})
  delete_subscription owner = do
    subscription ← retrieve_subscription stripe owner.stripe_subscription_id
    _ ← release (present subscription.schedule)
    _ ← request stripe (cancel_at_period_end owner.stripe_subscription_id)
    pure tt

  base_path : Owner → String → String
  base_path owner short = "/plan/" +++ (short +++ ("/" +++ shown owner.username))

  -- StripeService._get_success_and_cancel_url
  unfoldable pub get_success_and_cancel_url : Owner → Exec (String × String)
  unfolding base_path lookup
  get_success_and_cancel_url owner = do
    short ← item (lookup owner.service short_services)
    let url = settings.dashboard_url +++ base_path owner short
    pure (url +++ "?success", url +++ "?cancel")

  -- The trial days of the session, and where its billing address comes from.
  abbrev offer : Option ℕ → PlanService → Exec (Option ℕ × String)
  offer none service = pure (none, "required")
  offer (some days) service = do
    t ← utcnow
    status ← lift (trial_status service.current_org t)
    pure (elim status [ not_started ↦ (some days, "auto") | _ ↦ (none, "required") ])

  -- StripeService.create_checkout_session: the id of the session.
  unfoldable pub create_checkout_session : Owner → DesiredPlan → Exec String
  unfolding get_success_and_cancel_url init trial_status lookup
  create_checkout_session owner desired = do
    urls ← get_success_and_cancel_url owner
    desired_id ← stripe_plan_id desired.plan_value
    plan ← item (lookup desired.plan_value user_plan_representations)
    service ← lift (init owner)
    terms ← offer plan.trial_days service
    request stripe (
        create_session (record {
          billing_address_collection = terms.1;
          client_reference_id = owner.ownerid;
          success_url = urls.0;
          cancel_url = urls.1;
          plan_id = desired_id;
          quantity = desired.seats;
          metadata = metadata_of requesting_user owner;
          trial_period_days = terms.0;
          customer_email = if truthy owner.stripe_customer_id then none else owner.email;
          customer = present owner.stripe_customer_id;
        }))

  -- StripeService.update_payment_method
  unfoldable pub update_payment_method : Owner → String → Exec (Unit {0})
  update_payment_method owner payment_method =
      if is_some owner.stripe_subscription_id
      then (do
        _ ← request stripe (attach_payment_method payment_method owner.stripe_customer_id)
        _ ← request stripe (set_default_payment_method payment_method owner.stripe_customer_id)
        pure tt)
      else pure tt

  -- StripeService.apply_cancellation_discount
  unfoldable pub apply_cancellation_discount : Owner → Exec (Unit {0})
  unfolding init save
  apply_cancellation_discount owner =
      if is_some owner.stripe_subscription_id
      then (do
        service ← lift (init owner)
        if is_rate monthly service.plan_data.billing_rate && not (truthy owner.stripe_coupon_id)
            then (do
              coupon ← request stripe (create_coupon owner.ownerid)
              owner' ← save (record owner { stripe_coupon_id = some coupon })
              _ ← request stripe (apply_coupon owner'.stripe_customer_id owner'.stripe_coupon_id)
              pure tt)
            else pure tt)
      else pure tt

  -- StripeService.get_subscription
  unfoldable pub get_subscription : Owner → Exec (Option Subscription)
  get_subscription owner =
      if truthy owner.stripe_subscription_id
      then (do
        subscription ← retrieve_subscription stripe owner.stripe_subscription_id
        pure (some subscription))
      else pure none

  -- StripeService.get_schedule: the id of the schedule that is retrieved.
  unfoldable pub get_schedule : Owner → Exec (Option String)
  get_schedule owner =
      if truthy owner.stripe_subscription_id
      then (do
        subscription ← retrieve_subscription stripe owner.stripe_subscription_id
        pure (present subscription.schedule))
      else pure none

  -- StripeService.get_invoice
  unfoldable pub get_invoice : Owner → String → Exec (Option Invoice)
  get_invoice owner id w = elim (stripe.retrieve_invoice w.stripe_log id) [
    | err e ↦ (err e, w)
    | ok none ↦ (ok none, w)
    | ok (some invoice) ↦ (
      ok (
          if opt_str_eq invoice.invoice_customer owner.stripe_customer_id
          then some invoice
          else none),
      w,
    )
  ]

-- StripeService.filter_invoices_by_status; REMOVED_INVOICE_STATUSES is draft and void.
abbrev pub filter_invoices_by_status : Invoice → Bool
filter_invoices_by_status invoice =
    truthy invoice.invoice_status
    && not (
        opt_str_eq invoice.invoice_status (some "draft")
        || opt_str_eq invoice.invoice_status (some "void"))

-- StripeService.filter_invoices_by_total
abbrev pub filter_invoices_by_total : Invoice → Bool
filter_invoices_by_total invoice = nonzero invoice.total

-- StripeService.list_filtered_invoices
unfoldable pub list_filtered_invoices : Stripe → Owner → ℕ → Exec (List Invoice)
list_filtered_invoices stripe owner limit w = elim owner.stripe_customer_id [
  | none ↦ (ok [], w)
  | some customer ↦ elim (stripe.list_invoices w.stripe_log customer limit) [
    | err e ↦ (err e, w)
    | ok invoices ↦
        (ok (select filter_invoices_by_total (select filter_invoices_by_status invoices)), w)
  ]
]
