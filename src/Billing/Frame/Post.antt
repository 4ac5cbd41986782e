-- ===== src/Billing/Frame/Post.antt =====
-- billing/views.py: the handlers that ask Stripe, and `post` over all of them.
use codecov_api.Base.{
  All, List, Option, String, [], arith, has_key, if◌then◌else◌, none, not, opt_str_eq, refl, some,
  str_eq, truthy, ℕ, ◌∷◌, ◌≡◌,
}
use codecov_api.Owner.{Owner}
use codecov_api.Store.{
  Exec, World, account_completed_checkout, attribute_error, get_owner, identify_user, lift,
  modify_default_payment_method, pure, save, track, ◌>>=◌,
}
use codecov_api.Store.Ensures.{Anything, Ensures-bind, Ensures-frame, Ensures-if, Ensures-raise}
use codecov_api.Plan.Service.{PlanService, init, update_plan}
use codecov_api.Plan.Constants.{pro_plans}
use codecov_api.Seats.Count.{keys}
use codecov_api.Billing.{Settings, Stripe, Subscription, request, retrieve_subscription}
use codecov_api.Billing.Webhooks.{
  WebhookEvent, apply_subscription, cancel_to_free, checkout_completed, checkout_session_completed,
  customer_created, customer_subscription_updated, customer_updated, ended_events, event_type,
  handle, has_id, is_subscribed, on_customer_updated, other, pay_if, payment_failed,
  payment_succeeded, pays, post, release_events, schedule_created, schedule_released,
  schedule_updated, subscribed_events, subscription_created, subscription_deleted,
  subscription_schedule_created, subscription_schedule_released, subscription_schedule_updated,
  subscription_updated, track_all,
}
use codecov_api.Billing.Frame.{All-Fits-IsSupported, Fits, Inv-init, IsSupported}
use codecov_api.Billing.Frame.Methods.{init-Ensures, update_plan-Ensures}
use codecov_api.Billing.Frame.Handlers.{
  Keeps, by_frame, by_get, by_save, by_service, cancel_to_free-Keeps, created-Keeps, deleted-Keeps,
  keep_nothing, payment_failed-Keeps, payment_succeeded-Keeps, track-Keeps,
}

module _ (ks : List ℕ) (settings : Settings) (stripe : Stripe) where
  checkout-Keeps :
      (reference : ℕ) (customer plan : Option String)
      → Keeps ks (checkout_session_completed reference customer plan)
  unfolding checkout_session_completed
  checkout-Keeps reference customer plan = by_get ks (has_id reference) found λ o f.
      by_save ks (named o) done f
        λ o' f'. track-Keeps ks (account_completed_checkout o'.ownerid plan)
    where
      named : Owner → Owner
      named o = record o { stripe_customer_id = customer }

      done : Owner → Exec (Unit {0})
      done o = track (account_completed_checkout o.ownerid plan)

      found : Owner → Exec (Unit {0})
      found o = save (named o) >>= done

  schedule_created-Keeps :
      (id : String) → Keeps ks (subscription_schedule_created settings stripe id)
  unfolding subscription_schedule_created
  schedule_created-Keeps id =
      by_frame ks (retrieve_subscription stripe (some id)) (λ _. pure tt) (λ w. refl)
        λ _. keep_nothing ks

  schedule_updated-Keeps :
      (s p : Option String) → Keeps ks (subscription_schedule_updated settings stripe s p)
  unfolding subscription_schedule_updated
  schedule_updated-Keeps s p =
      Ensures-frame (subscription_schedule_updated settings stripe s p) (λ w. ground arith)

  schedule_released-Keeps :
      (id : String) → Keeps ks (subscription_schedule_released settings stripe id)
  unfolding subscription_schedule_released
  schedule_released-Keeps id =
      by_frame ks (retrieve_subscription stripe (some id)) retrieved (λ w. refl)
        λ s. by_get ks (has_id s.obo_organization) (found s) λ o f.
          by_service ks (lift (init o)) (served s o) (init-Ensures ks o f) λ service g.
            by_frame ks (track_all (release_events o s)) (tracked s service) (λ w. refl)
              λ _.
                by_service ks (update_plan s.plan_name s.quantity service) (λ _. pure tt)
                  (update_plan-Ensures ks s.plan_name s.quantity service g.0) λ _ _. keep_nothing ks
    where
      tracked : Subscription → PlanService → Unit {0} → Exec (Unit {0})
      tracked s service _ = update_plan s.plan_name s.quantity service >>= λ _. pure tt

      served : Subscription → Owner → PlanService → Exec (Unit {0})
      served s o service = track_all (release_events o s) >>= tracked s service

      found : Subscription → Owner → Exec (Unit {0})
      found s o = lift (init o) >>= served s o

      retrieved : Subscription → Exec (Unit {0})
      retrieved s = get_owner (has_id s.obo_organization) >>= found s

  apply-Keeps :
      (o : Owner) (s : Subscription) (previous : Option String)
      → Fits ks o
      → Keeps ks (apply_subscription settings stripe o s previous)
  unfolding apply_subscription
  apply-Keeps o s previous f =
      by_service ks (lift (init o)) served (init-Ensures ks o f) λ service g.
        Ensures-if (str_eq s.status "incomplete_expired") _ _ (λ _. cancel_to_free-Keeps ks o f)
          λ _.
            Ensures-if (not (has_key s.plan_name pro_plans)) _ _ (λ _. keep_nothing ks)
              λ _.
                by_frame ks (track_all (ended_events settings stripe o s previous))
                  (tracked service) (λ w. refl)
                  λ _.
                    by_service ks (update_plan s.plan_name s.quantity service)
                      (λ _. track (identify_user o.ownerid))
                      (update_plan-Ensures ks s.plan_name s.quantity service g.0)
                      λ _ _. track-Keeps ks (identify_user o.ownerid)
    where
      tracked : PlanService → Unit {0} → Exec (Unit {0})
      tracked service _ =
          update_plan s.plan_name s.quantity service >>= λ _. track (identify_user o.ownerid)

      served : PlanService → Exec (Unit {0})
      served service =
          if str_eq s.status "incomplete_expired"
          then cancel_to_free o
          else if not (has_key s.plan_name pro_plans)
          then pure tt
          else track_all (ended_events settings stripe o s previous) >>= tracked service

  pay_if-Keeps : (o : Owner) (method : Option String) → Keeps ks (pay_if settings stripe o method)
  unfolding pay_if
  pay_if-Keeps o method = Ensures-frame (pay_if settings stripe o method) (same method)
    where
      same : (m : Option String) (w : World) → (pay_if settings stripe o m w).1.owners ≡ w.owners
      same none w = refl
      same (some m) w = ground arith

  updated-Keeps :
      (s : Subscription) (previous : Option String)
      → Keeps ks (customer_subscription_updated settings stripe s previous)
  unfolding customer_subscription_updated
  updated-Keeps s previous = by_get ks (pays s.customer s.id) found λ o f.
      Ensures-bind Anything Anything (pay_if settings stripe o method) (λ _. rest o)
        (pay_if-Keeps o method)
        λ _ _.
          Ensures-if (truthy s.schedule) _ _ (λ _. keep_nothing ks)
            (λ _. apply-Keeps o s previous f)
    where
      method : Option String
      method = if truthy s.default_payment_method then s.default_payment_method else none

      rest : Owner → Exec (Unit {0})
      rest o =
          if truthy s.schedule then pure tt else apply_subscription settings stripe o s previous

      found : Owner → Exec (Unit {0})
      found o = pay_if settings stripe o method >>= λ _. rest o

  customer_updated-Keeps :
      (method : Option String) (subscriptions : List (String × Option String))
      → Keeps ks (on_customer_updated settings stripe method subscriptions)
  unfolding on_customer_updated
  customer_updated-Keeps method [] = keep_nothing ks
  customer_updated-Keeps method ((id, old) ∷ subscriptions) =
      Ensures-if (opt_str_eq method old) _ _ (λ _. customer_updated-Keeps method subscriptions)
        λ _.
          by_frame ks (request stripe (modify_default_payment_method id method))
            (λ _. on_customer_updated settings stripe method subscriptions) (λ w. refl)
            λ _. customer_updated-Keeps method subscriptions

  handle-Keeps : (e : WebhookEvent) → Keeps ks (handle settings stripe e)
  unfolding handle
  handle-Keeps (payment_succeeded c s) = payment_succeeded-Keeps ks c s
  handle-Keeps (payment_failed c s) = payment_failed-Keeps ks c s
  handle-Keeps (subscription_deleted s) = deleted-Keeps ks s
  handle-Keeps (subscription_created s) = created-Keeps ks s
  handle-Keeps (subscription_updated s previous) = updated-Keeps s previous
  handle-Keeps (schedule_created id) = schedule_created-Keeps id
  handle-Keeps (schedule_released id) = schedule_released-Keeps id
  handle-Keeps (schedule_updated s p) = schedule_updated-Keeps s p
  handle-Keeps customer_created = keep_nothing ks
  handle-Keeps (customer_updated method subscriptions) = customer_updated-Keeps method subscriptions
  handle-Keeps (checkout_completed r c p) = checkout-Keeps r c p
  handle-Keeps (other name) = Ensures-raise Anything attribute_error

  post-Keeps : (e : Option WebhookEvent) → Keeps ks (post settings stripe e)
  unfolding post
  post-Keeps none = Ensures-frame (pure 400) (λ w. refl)
  post-Keeps (some e) =
      Ensures-if (not (is_subscribed settings stripe (event_type e) subscribed_events)) _ _
        (λ _. Ensures-frame (pure 204) (λ w. refl))
        λ _.
          Ensures-bind Anything Anything (handle settings stripe e) (λ _. pure 204) (handle-Keeps e)
            λ _ _. Ensures-frame (pure 204) (λ w. refl)

-- If every owner is on a known plan, then whatever event arrives, and whether its handler succeeds
-- or raises, no owner is added or removed, and every owner is on a known plan afterwards.
pub post-IsSupported :
    (settings : Settings) (stripe : Stripe) (e : Option WebhookEvent) (w : World)
    → All IsSupported w.owners
    → (keys (post settings stripe e w).1.owners ≡ keys w.owners)
      × All IsSupported (post settings stripe e w).1.owners
post-IsSupported settings stripe e w h =
    let r =
      (post-Keeps (keys w.owners) settings stripe e).kept w
        (refl, Inv-init w.owners (keys w.owners) (λ i m. m) h) in
    (r.0, All-Fits-IsSupported (keys w.owners) (post settings stripe e w).1.owners r.1)
