-- ===== src/Billing/Frame/Client.antt =====
-- services/billing.py: what a change of plan that a client asks for keeps.
use codecov_api.Base.{
  All, List, Option, String, arith, has_key, if◌then◌else◌, is_some, mem, none, not, refl, some,
  true, truthy, ℕ, ◌&&◌, ◌≡◌,
}
use codecov_api.Owner.{Owner}
use codecov_api.Store.{Exec, World, lift, modify_items, pure, ◌>>=◌}
use codecov_api.Store.Ensures.{Anything, Ensures-bind, Ensures-frame, Ensures-if, Ensures-pure}
use codecov_api.Plan.Service.{PlanService, init, set_default_plan_data}
use codecov_api.Billing.{
  DesiredPlan, Settings, Stripe, Subscription, request, retrieve_subscription,
}
use codecov_api.Billing.Proration.{get_proration_params, is_upgrading}
use codecov_api.Billing.Payment.{
  create_checkout_session, delete_subscription, ensure_schedule, metadata_of, modify_later,
  modify_now, modify_subscription, modify_subscription_schedule, present,
  segment_modify_subscription, stripe_plan_id,
}
use codecov_api.Plan.Service
use codecov_api.Billing.Service.{
  PaymentService, cancel, change, checkout, enterprise, stripe_service, update_plan,
}
use codecov_api.Plan.Constants.{free_plan_representations, pro_plans}
use codecov_api.Seats.Count.{keys}
use codecov_api.Billing.Frame.{All-Fits-IsSupported, Fits, Inv-init, IsSupported}
use codecov_api.Billing.Frame.Methods.{init-Ensures, set_default-Ensures, update_plan-Ensures}
use codecov_api.Billing.Frame.Handlers.{Keeps, by_frame, by_service, keep_nothing}

module _ (ks : List ℕ) (settings : Settings) (stripe : Stripe) (user owner : Owner) where
  modify_now-Keeps :
      (s : Subscription) (desired : DesiredPlan)
      → Fits ks owner
      → Keeps ks (modify_now settings stripe user owner s desired)
  unfolding modify_now
  modify_now-Keeps s desired f =
      by_frame ks (stripe_plan_id settings stripe user desired.plan_value) priced
        (λ w. ground arith)
        λ id.
          by_frame ks (asked id) (λ _. told) (λ w. refl)
            λ _.
              by_frame ks (segment_modify_subscription settings stripe user owner desired)
                (λ _. stored) (λ w. unfold segment_modify_subscription in refl)
                λ _.
                  by_service ks (lift (init owner)) changed (init-Ensures ks owner f) λ service g.
                    by_service ks (Service.update_plan desired.plan_value desired.seats service)
                      (λ _. pure tt)
                      (update_plan-Ensures ks desired.plan_value desired.seats service g.0)
                      λ _ _. keep_nothing ks
    where
      changed : PlanService → Exec (Unit {0})
      changed service =
          Service.update_plan desired.plan_value desired.seats service >>= λ _. pure tt

      stored : Exec (Unit {0})
      stored = lift (init owner) >>= changed

      told : Exec (Unit {0})
      told = segment_modify_subscription settings stripe user owner desired >>= λ _. stored

      asked : String → Exec String
      asked id = request stripe (
          modify_items owner.stripe_subscription_id s.item_id id desired.seats
            (metadata_of user owner) (get_proration_params owner desired))

      priced : String → Exec (Unit {0})
      priced id = asked id >>= λ _. told

  ensure_schedule-owners :
      (id : Option String) (w : World)
      → (ensure_schedule settings stripe user owner id w).1.owners ≡ w.owners
  ensure_schedule-owners none w = refl
  ensure_schedule-owners (some id) w = refl

  modify_later-Keeps :
      (s : Subscription) (desired : DesiredPlan)
      → Keeps ks (modify_later settings stripe user owner s desired)
  unfolding modify_later
  modify_later-Keeps s desired =
      by_frame ks (ensure_schedule settings stripe user owner (present s.schedule))
        (λ id.
          modify_subscription_schedule settings stripe user owner s id desired >>= λ _. pure tt)
        (ensure_schedule-owners (present s.schedule))
        λ id.
          by_frame ks (modify_subscription_schedule settings stripe user owner s id desired)
            (λ _. pure tt) (λ w. unfold modify_subscription_schedule in ground arith)
            λ _. keep_nothing ks

  delete_subscription-Keeps : Keeps ks (delete_subscription settings stripe user owner)
  unfolding delete_subscription
  delete_subscription-Keeps =
      Ensures-frame (delete_subscription settings stripe user owner) (λ w. ground arith)

  create_checkout_session-owners :
      (desired : DesiredPlan) (w : World)
      → (create_checkout_session settings stripe user owner desired w).1.owners ≡ w.owners
  unfolding create_checkout_session
  create_checkout_session-owners desired w = ground arith

  modify_subscription-Keeps :
      (desired : DesiredPlan)
      → Fits ks owner
      → Keeps ks (modify_subscription settings stripe user owner desired)
  unfolding modify_subscription
  modify_subscription-Keeps desired f =
      by_frame ks (retrieve_subscription stripe owner.stripe_subscription_id) changed (λ w. refl)
        λ s.
          Ensures-if (is_upgrading owner desired && not (truthy s.schedule)) _ _
            (λ _. modify_now-Keeps s desired f) λ _. modify_later-Keeps s desired
    where
      changed : Subscription → Exec (Unit {0})
      changed s =
          if is_upgrading owner desired && not (truthy s.schedule)
          then modify_now settings stripe user owner s desired
          else modify_later settings stripe user owner s desired

module _ (ks : List ℕ) (settings : Settings) (stripe : Stripe) where
  cancel-Keeps : (p : PaymentService) (owner : Owner) → Keeps ks (cancel settings stripe p owner)
  unfolding cancel
  cancel-Keeps enterprise owner = keep_nothing ks
  cancel-Keeps (stripe_service user) owner = delete_subscription-Keeps ks settings stripe user owner

  change-Keeps :
      (p : PaymentService) (owner : Owner) (desired : DesiredPlan)
      → Fits ks owner
      → Keeps ks (change settings stripe p owner desired)
  unfolding change
  change-Keeps enterprise owner desired f = keep_nothing ks
  change-Keeps (stripe_service user) owner desired f =
      modify_subscription-Keeps ks settings stripe user owner desired f

  session-Keeps :
      (p : PaymentService) (owner : Owner) (desired : DesiredPlan)
      → Keeps ks (checkout settings stripe p owner desired)
  unfolding checkout
  session-Keeps enterprise owner desired = Ensures-pure Anything none tt
  session-Keeps (stripe_service user) owner desired =
      by_frame ks (create_checkout_session settings stripe user owner desired)
        (λ session. pure (some session))
        (create_checkout_session-owners ks settings stripe user owner desired)
        λ session. Ensures-pure Anything (some session) tt

  abbrev no_session : Exec (Option String)
  no_session = pure none

  nothing_more : Keeps ks no_session
  nothing_more = Ensures-pure Anything none tt

  update_plan-Keeps :
      (p : PaymentService) (owner : Owner) (desired : DesiredPlan)
      → Fits ks owner
      → Keeps ks (update_plan settings stripe p owner desired)
  unfolding update_plan
  update_plan-Keeps p owner desired f =
      Ensures-if (has_key desired.plan_value free_plan_representations) _ _
        (λ _.
          Ensures-if (is_some owner.stripe_subscription_id) _ _
            (λ _.
              Ensures-bind Anything Anything (cancel settings stripe p owner) (λ _. pure none)
                (cancel-Keeps p owner) λ _ _. nothing_more)
            (λ _.
              by_service ks (lift (init owner)) (λ s. set_default_plan_data s >>= λ _. pure none)
                (init-Ensures ks owner f)
                λ s g.
                  by_service ks (set_default_plan_data s) (λ _. pure none)
                    (set_default-Ensures ks s g.0) λ _ _. nothing_more))
        (λ _.
          Ensures-if (has_key desired.plan_value pro_plans) _ _
            (λ _.
              Ensures-if (is_some owner.stripe_subscription_id) _ _
                (λ _.
                  Ensures-bind Anything Anything (change settings stripe p owner desired)
                    (λ _. pure none) (change-Keeps p owner desired f) λ _ _. nothing_more)
                (λ _. session-Keeps p owner desired))
            (λ _. nothing_more))

-- If every owner is on a known plan, then whatever plan a client asks for one of them, with any
-- payment service, and whether the change succeeds or raises, no owner is added or removed, and
-- every owner is on a known plan afterwards.
pub update_plan-IsSupported :
    (settings : Settings) (stripe : Stripe) (p : PaymentService) (owner : Owner)
    (desired : DesiredPlan) (w : World)
    → mem owner.ownerid (keys w.owners) ≡ true
    → IsSupported owner
    → All IsSupported w.owners
    → (keys (update_plan settings stripe p owner desired w).1.owners ≡ keys w.owners)
      × All IsSupported (update_plan settings stripe p owner desired w).1.owners
update_plan-IsSupported settings stripe p owner desired w m o h =
    let r =
      (update_plan-Keeps (keys w.owners) settings stripe p owner desired (m, o)).kept w
        (refl, Inv-init w.owners (keys w.owners) (λ i m. m) h) in
    (
      r.0,
      All-Fits-IsSupported (keys w.owners) (update_plan settings stripe p owner desired w).1.owners
          r.1,
    )
