-- ===== src/Billing/Webhooks.antt =====
-- billing/views.py: `StripeWebhookHandler`, which brings what happened at Stripe into the database.
use codecov_api.Base.{
  Bool, Dict, List, Option, String, [], false, has_key, if◌then◌else◌, ltb, none, nonzero, not,
  opt_str_eq, some, str_eq, true, truthy, ℕ, ◌&&◌, ◌++◌, ◌==◌, ◌||◌, ◌∷◌,
}
use codecov_api.Owner.{Owner}
use codecov_api.Store.{
  Event, Exec, account_cancelled_subscription, account_changed_plan, account_completed_checkout,
  account_decreased_users, account_increased_users, account_paid_subscription, attribute_error,
  deactivate_repos, get_owner, identify_user, index_error, lift, modify_default_payment_method, ok,
  pure, raise, save, track, trial_ended, trial_started, update_owners, utcnow, value_error, ◌>>=◌,
}
use codecov_api.Plan.{not_started}
use codecov_api.Plan.Constants.{pro_plans}
use codecov_api.Plan.Service.{
  PlanService, init, set_default_plan_data, start_trial, trial_status, update_plan,
}
use codecov_api.Billing.{Settings, Stripe, Subscription, request, retrieve_subscription}
use codecov_api.Billing.Proration.{seat_count}
use codecov_api.Billing.Service.{choose, pay_with}

-- The events, by the kind of their type, with what the handlers read of their objects. A type for
-- which there is no handler is `other`.
pub data WebhookEvent : Type 0 where
  payment_succeeded payment_failed : String → String → WebhookEvent
  subscription_deleted subscription_created : Subscription → WebhookEvent
  subscription_updated : Subscription → Option String → WebhookEvent
  schedule_created schedule_released : String → WebhookEvent
  schedule_updated : Option String → Option String → WebhookEvent
  customer_created : WebhookEvent
  customer_updated : Option String → List (String × Option String) → WebhookEvent
  checkout_completed : ℕ → Option String → Option String → WebhookEvent
  other : String → WebhookEvent

abbrev pub event_type : WebhookEvent → String
event_type (payment_succeeded _ _) = "invoice.payment_succeeded"
event_type (payment_failed _ _) = "invoice.payment_failed"
event_type (subscription_deleted _) = "customer.subscription.deleted"
event_type (subscription_created _) = "customer.subscription.created"
event_type (subscription_updated _ _) = "customer.subscription.updated"
event_type (schedule_created _) = "subscription_schedule.created"
event_type (schedule_released _) = "subscription_schedule.released"
event_type (schedule_updated _ _) = "subscription_schedule.updated"
event_type customer_created = "customer.created"
event_type (customer_updated _ _) = "customer.updated"
event_type (checkout_completed _ _ _) = "checkout.session.completed"
event_type (other name) = name

-- StripeWebhookEvents.subscribed_events
abbrev pub subscribed_events : List String
subscribed_events =
    "checkout.session.completed" ∷ "customer.created" ∷ "customer.subscription.created"
    ∷ "customer.subscription.updated" ∷ "customer.subscription.deleted" ∷ "customer.updated"
    ∷ "invoice.payment_failed" ∷ "invoice.payment_succeeded" ∷ "subscription_schedule.created"
    ∷ "subscription_schedule.released" ∷ "subscription_schedule.updated" ∷ []

-- The owners with these Stripe ids.
abbrev pub pays : String → String → Owner → Bool
pays customer subscription o =
    opt_str_eq o.stripe_customer_id (some customer)
    && opt_str_eq o.stripe_subscription_id (some subscription)

abbrev pub has_id : ℕ → Owner → Bool
has_id i o = o.ownerid == i

-- invoice_payment_succeeded
unfoldable pub invoice_payment_succeeded : String → String → Exec (Unit {0})
unfolding get_owner save
invoice_payment_succeeded customer subscription = do
  owner ← get_owner (pays customer subscription)
  owner' ← save (record owner { delinquent = some false })
  track (account_paid_subscription owner'.ownerid owner'.plan)

abbrev pub set_delinquent : Owner → Owner
set_delinquent o = record o { delinquent = some true }

-- invoice_payment_failed
unfoldable pub invoice_payment_failed : String → String → Exec (Unit {0})
unfolding update_owners
invoice_payment_failed customer subscription = do
  _ ← update_owners (pays customer subscription) set_delinquent
  pure tt

-- The free plan, with every repository of the owner deactivated.
unfoldable pub cancel_to_free : Owner → Exec (Unit {0})
unfolding init set_default_plan_data deactivate_repos
cancel_to_free owner = do
  service ← lift (init owner)
  _ ← set_default_plan_data service
  deactivate_repos owner.ownerid

-- customer_subscription_deleted
unfoldable pub customer_subscription_deleted : Subscription → Exec (Unit {0})
unfolding get_owner cancel_to_free
customer_subscription_deleted subscription = do
  owner ← get_owner (pays subscription.customer subscription.id)
  _ ← cancel_to_free owner
  track (account_cancelled_subscription owner.ownerid subscription.plan_name)

-- The events of subscription_schedule_released, by the change of the seats and of the plan.
abbrev pub release_events : Owner → Subscription → List Event
release_events owner s =
    (if nonzero owner.plan_user_count && ltb s.item_quantity (seat_count owner.plan_user_count)
      then account_decreased_users s.obo owner.ownerid s.item_quantity
          (seat_count owner.plan_user_count) s.item_plan_name
        ∷ []
      else [])
    ++ ((if nonzero owner.plan_user_count && ltb (seat_count owner.plan_user_count) s.item_quantity
          then account_increased_users s.obo owner.ownerid s.item_quantity
              (seat_count owner.plan_user_count) s.item_plan_name
            ∷ []
          else [])
        ++ (if not (opt_str_eq owner.plan (some s.item_plan_name))
            then account_changed_plan s.obo owner.ownerid s.item_plan_name owner.plan ∷ []
            else []))

abbrev pub track_all : List Event → Exec (Unit {0})
track_all es w = (ok tt, record w { segment_log = w.segment_log ++ es })

-- The trial that begins with a subscription that Stripe reports as trialing.
unfoldable pub begin_trial : Subscription → PlanService → Exec (Unit {0})
unfolding init trial_status start_trial
begin_trial subscription service = do
  let owner = service.current_org
  _ ← track (trial_started owner.ownerid subscription.plan_name subscription.quantity)
  again ← lift (init owner)
  t ← utcnow
  status ← lift (trial_status owner t)
  elim status [ not_started ↦ (do _ ← start_trial again; pure tt) | _ ↦ pure tt ]

-- customer_subscription_created
unfoldable pub customer_subscription_created : Subscription → Exec (Unit {0})
unfolding get_owner save init update_plan begin_trial has_key
customer_subscription_created subscription =
    if not (truthy subscription.plan_id)
    then pure tt
    else if not (has_key subscription.plan_name pro_plans)
    then pure tt
    else (do
      owner ← get_owner (has_id subscription.obo_organization)
      owner' ← save (record owner {
        stripe_subscription_id = some subscription.id;
        stripe_customer_id = some subscription.customer;
      })
      service ← lift (init owner')
      service' ← update_plan subscription.plan_name subscription.quantity service
      if str_eq subscription.status "trialing" then begin_trial subscription service' else pure tt)

-- checkout_session_completed
unfoldable pub checkout_session_completed : ℕ → Option String → Option String → Exec (Unit {0})
unfolding get_owner save
checkout_session_completed reference customer plan = do
  owner ← get_owner (has_id reference)
  owner' ← save (record owner { stripe_customer_id = customer })
  track (account_completed_checkout owner'.ownerid plan)

module _ (settings : Settings) (stripe : Stripe) where
  -- subscription_schedule_created
  unfoldable pub subscription_schedule_created : String → Exec (Unit {0})
  subscription_schedule_created id = do _ ← retrieve_subscription stripe (some id); pure tt

  abbrev named : String → Dict String → Bool
  named id [] = false
  named id ((name, i) ∷ ids) = str_eq i id || named id ids

  -- subscription_schedule_updated: `plan` is that of the second phase, where there is one.
  unfoldable pub subscription_schedule_updated : Option String → Option String → Exec (Unit {0})
  subscription_schedule_updated subscription plan =
      if truthy subscription
      then (do
        _ ← retrieve_subscription stripe subscription
        elim plan [
          | none ↦ raise index_error
          | some id ↦ if named id settings.stripe_plan_ids then pure tt else raise value_error
        ])
      else pure tt

  -- subscription_schedule_released
  unfoldable pub subscription_schedule_released : String → Exec (Unit {0})
  unfolding get_owner init update_plan
  subscription_schedule_released id = do
    subscription ← retrieve_subscription stripe (some id)
    owner ← get_owner (has_id subscription.obo_organization)
    service ← lift (init owner)
    _ ← track_all (release_events owner subscription)
    _ ← update_plan subscription.plan_name subscription.quantity service
    pure tt

  unfoldable pub pay_if : Owner → Option String → Exec (Unit {0})
  unfolding pay_with choose
  pay_if owner none = pure tt
  pay_if owner (some method) = pay_with settings stripe (choose settings owner) owner method

  abbrev pub ended_events : Owner → Subscription → Option String → List Event
  ended_events owner s previous =
      if opt_str_eq previous (some "trialing")
      then trial_ended owner.ownerid s.plan_name s.quantity ∷ []
      else []

  -- The part of customer_subscription_updated for a subscription without a schedule.
  unfoldable pub apply_subscription : Owner → Subscription → Option String → Exec (Unit {0})
  unfolding init cancel_to_free update_plan has_key
  apply_subscription owner subscription previous = do
    service ← lift (init owner)
    if str_eq subscription.status "incomplete_expired"
        then cancel_to_free owner
        else if not (has_key subscription.plan_name pro_plans)
        then pure tt
        else (do
          _ ← track_all (ended_events owner subscription previous)
          _ ← update_plan subscription.plan_name subscription.quantity service
          track (identify_user owner.ownerid))

  -- customer_subscription_updated
  unfoldable pub customer_subscription_updated : Subscription → Option String → Exec (Unit {0})
  unfolding get_owner pay_if apply_subscription
  customer_subscription_updated subscription previous = do
    owner ← get_owner (pays subscription.customer subscription.id)
    _ ← pay_if owner (
        if truthy subscription.default_payment_method
        then subscription.default_payment_method
        else none)
    if truthy subscription.schedule then pure tt else apply_subscription owner subscription previous

  -- customer_updated
  unfoldable pub on_customer_updated :
      Option String → List (String × Option String) → Exec (Unit {0})
  on_customer_updated method [] = pure tt
  on_customer_updated method ((id, old) ∷ subscriptions) =
      let rest = on_customer_updated method subscriptions in
      if opt_str_eq method old
      then rest
      else (do _ ← request stripe (modify_default_payment_method id method); rest)

  -- The handler of each event.
  unfoldable pub handle : WebhookEvent → Exec (Unit {0})
  handle (payment_succeeded customer subscription) = invoice_payment_succeeded customer subscription
  handle (payment_failed customer subscription) = invoice_payment_failed customer subscription
  handle (subscription_deleted s) = customer_subscription_deleted s
  handle (subscription_created s) = customer_subscription_created s
  handle (subscription_updated s previous) = customer_subscription_updated s previous
  handle (schedule_created id) = subscription_schedule_created id
  handle (schedule_released id) = subscription_schedule_released id
  handle (schedule_updated subscription plan) = subscription_schedule_updated subscription plan
  handle customer_created = pure tt
  handle (customer_updated method subscriptions) = on_customer_updated method subscriptions
  handle (checkout_completed reference customer plan) =
      checkout_session_completed reference customer plan
  handle (other name) = raise attribute_error

  abbrev pub is_subscribed : String → List String → Bool
  is_subscribed name [] = false
  is_subscribed name (e ∷ es) = str_eq e name || is_subscribed name es

  -- StripeWebhookHandler.post: `none` is an event whose signature does not verify. The answer is
  -- the HTTP status.
  unfoldable pub post : Option WebhookEvent → Exec ℕ
  unfolding handle
  post none = pure 400
  post (some e) =
      if not (is_subscribed (event_type e) subscribed_events)
      then pure 204
      else (do _ ← handle e; pure 204)
