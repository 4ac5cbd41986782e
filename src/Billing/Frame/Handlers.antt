-- ===== src/Billing/Frame/Handlers.antt =====
-- billing/views.py: no event from Stripe adds or removes an owner, or leaves one on an unknown plan.
use codecov_api.Base.{
  Bool, List, String, false, has_key, if◌then◌else◌, not, refl, some, str_eq, truthy, ℕ, ◌≡◌,
}
use codecov_api.Owner.{Owner}
use codecov_api.Store.{
  Event, Exec, World, account_cancelled_subscription, account_paid_subscription, deactivate_repos,
  get_owner, lift, pure, save, track, trial_started, utcnow, ◌>>=◌,
}
use codecov_api.Store.Ensures.{
  Anything, Ensures, Ensures-bind, Ensures-frame, Ensures-if, Ensures-pure,
}
use codecov_api.Plan.{TrialStatus, not_started}
use codecov_api.Plan.Constants.{pro_plans}
use codecov_api.Plan.Service.{
  PlanService, init, set_default_plan_data, start_trial, trial_status, update_plan,
}
use codecov_api.Billing.{Subscription}
use codecov_api.Billing.Webhooks.{
  begin_trial, cancel_to_free, customer_subscription_created, customer_subscription_deleted, has_id,
  invoice_payment_failed, invoice_payment_succeeded, pays,
}
use codecov_api.Billing.Frame.{Fits, Inv, Inv-update_rows}
use codecov_api.Billing.Frame.Methods.{
  FitsService, get_owner-Ensures, init-Ensures, save-Ensures, set_default-Ensures,
  start_trial-Ensures, update_plan-Ensures,
}

module _ (ks : List ℕ) where
  abbrev pub Keeps : {A : Type 0} → Exec A → Type 0
  Keeps m = Ensures (Inv ks) Anything m

  module _ {A : Type 0} where
    pub by_frame :
        {B : Type 0} (m : Exec A) (f : A → Exec B)
        → ((w : World) → (m w).1.owners ≡ w.owners)
        → ((a : A) → Keeps (f a))
        → Keeps (m >>= f)
    by_frame m f same k = Ensures-bind Anything Anything m f (Ensures-frame m same) (λ a _. k a)

    forget : (Q : A → Type 0) (m : Exec A) → Ensures (Inv ks) Q m → Keeps m
    forget Q m k = record { kept = k.kept; gives = λ w a r e. tt }

    pub by_get :
        (p : Owner → Bool) (f : Owner → Exec A)
        → ((o : Owner) → Fits ks o → Keeps (f o))
        → Keeps (get_owner p >>= f)
    by_get p f k = Ensures-bind (Fits ks) Anything (get_owner p) f (get_owner-Ensures ks p) k

    pub by_save :
        (o : Owner) (f : Owner → Exec A)
        → Fits ks o
        → ((o : Owner) → Fits ks o → Keeps (f o))
        → Keeps (save o >>= f)
    by_save o f q k = Ensures-bind (Fits ks) Anything (save o) f (save-Ensures ks o q) k

    pub by_service :
        (m : Exec PlanService) (f : PlanService → Exec A)
        → Ensures (Inv ks) (FitsService ks) m
        → ((s : PlanService) → FitsService ks s → Keeps (f s))
        → Keeps (m >>= f)
    by_service m f km k = Ensures-bind (FitsService ks) Anything m f km k

  pub keep_nothing : Keeps (pure (tt {0}))
  keep_nothing = Ensures-pure Anything tt tt

  pub track-Keeps : (e : Event) → Keeps (track e)
  track-Keeps e = Ensures-frame (track e) (λ w. refl)

  pub payment_succeeded-Keeps : (c s : String) → Keeps (invoice_payment_succeeded c s)
  unfolding invoice_payment_succeeded
  payment_succeeded-Keeps c s = by_get (pays c s) found λ o f.
      by_save (cleared o) paid f λ o' f'. track-Keeps (account_paid_subscription o'.ownerid o'.plan)
    where
      cleared : Owner → Owner
      cleared o = record o { delinquent = some false }

      paid : Owner → Exec (Unit {0})
      paid o = track (account_paid_subscription o.ownerid o.plan)

      found : Owner → Exec (Unit {0})
      found o = save (cleared o) >>= paid

  pub payment_failed-Keeps : (c s : String) → Keeps (invoice_payment_failed c s)
  unfolding invoice_payment_failed
  payment_failed-Keeps c s = record {
    kept = λ w r. Inv-update_rows ks (pays c s) w.owners r;
    gives = λ w a r e. tt;
  }

  pub cancel_to_free-Keeps : (o : Owner) → Fits ks o → Keeps (cancel_to_free o)
  unfolding cancel_to_free
  cancel_to_free-Keeps o f =
      by_service (lift (init o)) (λ s. set_default_plan_data s >>= λ _. deactivate_repos o.ownerid)
        (init-Ensures ks o f)
        λ s g.
          by_service (set_default_plan_data s) (λ _. deactivate_repos o.ownerid)
            (set_default-Ensures ks s g.0)
            λ t h. Ensures-frame (deactivate_repos o.ownerid) (λ w. refl)

  pub deleted-Keeps : (s : Subscription) → Keeps (customer_subscription_deleted s)
  unfolding customer_subscription_deleted
  deleted-Keeps s =
      by_get (pays s.customer s.id)
        (λ o.
          cancel_to_free o >>= λ _. track (account_cancelled_subscription o.ownerid s.plan_name))
        λ o f.
          Ensures-bind Anything Anything (cancel_to_free o)
            (λ _. track (account_cancelled_subscription o.ownerid s.plan_name))
            (cancel_to_free-Keeps o f)
            λ _ _. track-Keeps (account_cancelled_subscription o.ownerid s.plan_name)

  begin_trial-Keeps :
      (s : Subscription) (service : PlanService)
      → FitsService ks service
      → Keeps (begin_trial s service)
  unfolding begin_trial
  begin_trial-Keeps s service f =
      by_frame (track (trial_started service.current_org.ownerid s.plan_name s.quantity))
        (λ _. rest) (λ w. refl)
        λ _.
          by_service (lift (init service.current_org)) checked
            (init-Ensures ks service.current_org f)
            λ again g.
              by_frame utcnow (timed again) (λ w. refl)
                λ t.
                  by_frame (lift (trial_status service.current_org t)) (started again) (λ w. refl)
                    (started-Keeps again g)
    where
      started : PlanService → TrialStatus → Exec (Unit {0})
      started again status = elim status [
        | not_started ↦ (do _ ← start_trial again; pure tt)
        | _ ↦ pure tt
      ]

      timed : PlanService → ℕ → Exec (Unit {0})
      timed again t = lift (trial_status service.current_org t) >>= started again

      checked : PlanService → Exec (Unit {0})
      checked again = utcnow >>= timed again

      rest : Exec (Unit {0})
      rest = lift (init service.current_org) >>= checked

      started-Keeps :
          (again : PlanService)
          → FitsService ks again
          → (status : TrialStatus) → Keeps (started again status)
      started-Keeps again g not_started =
          by_service (start_trial again) (λ _. pure tt) (start_trial-Ensures ks again g)
            λ _ _. keep_nothing
      started-Keeps again g _ = keep_nothing

  pub created-Keeps : (s : Subscription) → Keeps (customer_subscription_created s)
  unfolding customer_subscription_created
  created-Keeps s =
      Ensures-if (not (truthy s.plan_id)) _ _ (λ _. keep_nothing)
        λ _.
          Ensures-if (not (has_key s.plan_name pro_plans)) _ _ (λ _. keep_nothing)
            λ _. by_get (has_id s.obo_organization) found λ o f.
              by_save (linked o) served f λ o' f'.
                by_service (lift (init o')) updated (init-Ensures ks o' f') λ service g.
                  by_service (update_plan s.plan_name s.quantity service) trialed
                    (update_plan-Ensures ks s.plan_name s.quantity service g.0)
                    λ service' g'.
                      Ensures-if (str_eq s.status "trialing") _ _
                        (λ _. begin_trial-Keeps s service' g') (λ _. keep_nothing)
    where
      linked : Owner → Owner
      linked o = record o {
        stripe_subscription_id = some s.id;
        stripe_customer_id = some s.customer;
      }

      trialed : PlanService → Exec (Unit {0})
      trialed service = if str_eq s.status "trialing" then begin_trial s service else pure tt

      updated : PlanService → Exec (Unit {0})
      updated service = update_plan s.plan_name s.quantity service >>= trialed

      served : Owner → Exec (Unit {0})
      served o = lift (init o) >>= updated

      found : Owner → Exec (Unit {0})
      found o = save (linked o) >>= served
