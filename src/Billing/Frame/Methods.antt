-- ===== src/Billing/Frame/Methods.antt =====
-- The methods of `Store` and `PlanService` keep `Inv`.
use codecov_api.Base.{
  Bool, List, Option-cases, String, inl, inr, is_some, lookup, mem, none, refl, some, subst, true,
  ℕ, ◌*◌, ◌+◌, ◌≡◌,
}
use codecov_api.Owner.{Owner}
use codecov_api.Store.{
  get_owner, lift, ok-injective, pure, save, utcnow, validation_error, value_error, ◌>>=◌,
}
use codecov_api.Store.Ensures.{
  Anything, Ensures, Ensures-bind, Ensures-frame, Ensures-lift, Ensures-pure, Ensures-raise,
}
use codecov_api.Plan.{PlanData, TrialStatus, basic_plan_name, not_started, sentry_trial_days, value}
use codecov_api.Plan.Constants.{user_plan_representations}
use codecov_api.Plan.Service.{
  PlanService, day, find_plan, init, init_org, saved, set_default_plan_data, start_if, start_trial,
  trial_status, update_plan, update_plan_known, update_plan_unknown,
}
use codecov_api.Billing.Frame.Rows.{Fits, Inv, Inv-put_owner, get_owner-Fits}

module _ (ks : List ℕ) where
  abbrev pub FitsService : PlanService → Type 0
  FitsService s = Fits ks s.current_org

  pub save-Ensures : (o : Owner) → Fits ks o → Ensures (Inv ks) (Fits ks) (save o)
  unfolding save
  save-Ensures o f = record {
    kept = λ w r. Inv-put_owner ks (record o { updatestamp = w.now }) w.owners f r;
    gives = λ w a r e. subst (Fits ks) (ok-injective {a = record o { updatestamp = w.now }} e) f;
  }

  pub get_owner-Ensures : (p : Owner → Bool) → Ensures (Inv ks) (Fits ks) (get_owner p)
  get_owner-Ensures p = record {
    kept = λ w r. (unfold get_owner in r);
    gives = λ w o r e. get_owner-Fits ks p w o r e;
  }

  pub init-Ensures : (o : Owner) → Fits ks o → Ensures (Inv ks) FitsService (lift (init o))
  init-Ensures o f = Ensures-lift FitsService (init o) (λ s e. subst (Fits ks) (init_org o s e) f)

  saved-Ensures : (p : PlanData) (o : Owner) → Fits ks o → Ensures (Inv ks) FitsService (saved p o)
  unfolding saved
  saved-Ensures p o f =
      Ensures-bind (Fits ks) FitsService (save o)
        (λ o'. pure (record { current_org = o'; plan_data = p })) (save-Ensures o f)
        (λ o' f'. Ensures-pure FitsService (record { current_org = o'; plan_data = p }) f')

  basic_is_known : is_some (find_plan (some (value basic_plan_name))) ≡ true
  unfolding find_plan user_plan_representations lookup
  basic_is_known = refl

  pub set_default-Ensures :
      (s : PlanService)
      → mem s.current_org.ownerid ks ≡ true
      → Ensures (Inv ks) FitsService (set_default_plan_data s)
  unfolding set_default_plan_data
  set_default-Ensures s m =
      saved-Ensures s.plan_data
        (record s.current_org {
          plan = some (value basic_plan_name);
          plan_activated_users = none;
          plan_user_count = some 1;
          stripe_subscription_id = none;
        })
        (m, basic_is_known)

  pub update_plan-Ensures :
      (name : String) (count : ℕ) (s : PlanService)
      → mem s.current_org.ownerid ks ≡ true
      → Ensures (Inv ks) FitsService (update_plan name count s)
  update_plan-Ensures name count s m = elim (Option-cases (find_plan (some name))) [
    | inl e ↦ rw (update_plan_unknown name count s e) (Ensures-raise FitsService value_error)
    | inr (p, e) ↦ rw (update_plan_known name count s p e) (
        saved-Ensures p (record s.current_org { plan = some name; plan_user_count = some count })
          (m, rw e))
  ]

  start_if-Ensures :
      (s : PlanService) (status : TrialStatus)
      → FitsService s
      → Ensures (Inv ks) FitsService (start_if s status)
  unfolding start_if
  start_if-Ensures s not_started f =
      Ensures-bind Anything FitsService utcnow
        (λ t. saved s.plan_data (record s.current_org {
          trial_start_date = some t;
          trial_end_date = some (t + sentry_trial_days * day);
          plan_auto_activate = some true;
        }))
        (Ensures-frame utcnow (λ w. refl))
        (λ t _.
          saved-Ensures s.plan_data
            (record s.current_org {
              trial_start_date = some t;
              trial_end_date = some (t + sentry_trial_days * day);
              plan_auto_activate = some true;
            })
            f)
  start_if-Ensures s _ f = Ensures-raise FitsService validation_error

  pub start_trial-Ensures :
      (s : PlanService) → FitsService s → Ensures (Inv ks) FitsService (start_trial s)
  unfolding start_trial
  start_trial-Ensures s f =
      Ensures-bind Anything FitsService utcnow
        (λ t. lift (trial_status s.current_org t) >>= start_if s) (Ensures-frame utcnow (λ w. refl))
        (λ t _.
          Ensures-bind Anything FitsService (lift (trial_status s.current_org t)) (start_if s)
            (Ensures-frame (lift (trial_status s.current_org t)) (λ w. refl))
            (λ status _. start_if-Ensures s status f))
