-- ===== src/Billing/Upgrade.antt =====
-- services/billing.py: when a change of plan takes effect, and what reaches the database.
use codecov_api.Base.{
  Bool-cases, List, Option, Option-cases, String, [], ap, arith, if◌then◌else◌, inl, inr, lookup,
  none, not, refl, some, subst, sym, truthy, ℕ, ◌&&◌, ◌++◌, ◌+◌, ◌∙◌, ◌∷◌, ◌≡◌,
}
use codecov_api.Owner.{Owner}
use codecov_api.Store.{
  >>=-eq-ok, Outcome, StripeCall, World, err, modify_items, modify_schedule, ok, pure, put_owner,
  value_error, ◌>>=◌,
}
use codecov_api.Seats.Count.{row_of, row_of-put_owner}
use codecov_api.Plan.Service.{find_plan}
use codecov_api.Billing.{DesiredPlan, Settings, Stripe, Subscription}
use codecov_api.Billing.Proration.{get_proration_params, is_upgrading}
use codecov_api.Billing.Payment.{
  ensure_schedule, metadata_of, modify_later, modify_now, modify_subscription,
  modify_subscription_schedule, present,
}

abbrev pub last {ℓ} : {A : Type ℓ} → List A → Option A
last [] = none
last (x ∷ []) = some x
last (x ∷ y ∷ xs) = last (y ∷ xs)

last-append {ℓ} : {A : Type ℓ} (xs : List A) (x : A) → last (xs ++ x ∷ []) ≡ some x
last-append [] x = refl
last-append (y ∷ []) x = refl
last-append (y ∷ z ∷ xs) x = last-append (z ∷ xs) x

-- The request puts the desired plan into a schedule behind the plan in force.
abbrev pub Schedules : Settings → Subscription → DesiredPlan → Option StripeCall → Type 0
Schedules settings s desired (some (modify_schedule id old new metadata)) =
    (old.quantity ≡ s.item_quantity)
    × (lookup s.item_plan_name settings.stripe_plan_ids ≡ some old.plan_id)
    × (old.end_date ≡ s.current_period_end)
    × (new.start_date ≡ old.end_date)
    × (new.quantity ≡ desired.seats)
    × (lookup desired.plan_value settings.stripe_plan_ids ≡ some new.plan_id)
Schedules settings s desired _ = ⊥

module _ (settings : Settings) (stripe : Stripe) (user owner : Owner) (desired : DesiredPlan)
    (w w' : World) (s : Subscription) where
  -- The request, given the ids of the two plans.
  abbrev phases : String → String → String → StripeCall
  phases id c d =
      modify_schedule id
        (record {
          start_date = s.current_period_start;
          end_date = s.current_period_end;
          plan_id = c;
          quantity = s.item_quantity;
        })
        (record {
          start_date = s.current_period_end;
          end_date = s.current_period_end + 10;
          plan_id = d;
          quantity = desired.seats;
        })
        (metadata_of user owner)

  modify_subscription_schedule_lem :
      (id id' : String)
      → modify_subscription_schedule settings stripe user owner s id desired w ≡ (ok id', w')
      → (w'.owners ≡ w.owners) × Schedules settings s desired (last w'.stripe_log)
  unfolding modify_subscription_schedule
  modify_subscription_schedule_lem id id' h =
      elim (Option-cases (lookup s.item_plan_name settings.stripe_plan_ids)) [
        | inl e ↦ absurd (ground arith)
        | inr (c, ec) ↦ elim (Option-cases (lookup desired.plan_value settings.stripe_plan_ids)) [
          | inl e ↦ absurd (ground arith)
          | inr (d, ed) ↦ (
            ground arith,
            let e : last w'.stripe_log ≡ some (phases id c d) =
                  ground (arith, last-append w.stripe_log (phases id c d)) in
                subst (Schedules settings s desired) (sym e) (refl, ec, refl, refl, refl, ed),
          )
        ]
      ]

ensure_schedule_owners :
    (settings : Settings) (stripe : Stripe) (user owner : Owner) (w v : World)
    (schedule : Option String) (id : String)
    → ensure_schedule settings stripe user owner schedule w ≡ (ok id, v)
    → v.owners ≡ w.owners
ensure_schedule_owners settings stripe user owner w v none id h = ground arith
ensure_schedule_owners settings stripe user owner w v (some id) id' h = ground arith

-- A change that is not invoiced at once, or that meets a schedule, leaves the database alone. Where
-- it succeeds, its last request to Stripe puts the new plan into a schedule: the plan in force keeps
-- its seats to the end of its period, and the new one begins there.
pub modify_later-Schedules :
    (settings : Settings) (stripe : Stripe) (user owner : Owner) (desired : DesiredPlan)
    (w w' : World) (s : Subscription)
    → modify_later settings stripe user owner s desired w ≡ (ok tt, w')
    → (w'.owners ≡ w.owners) × Schedules settings s desired (last w'.stripe_log)
unfolding modify_later
modify_later-Schedules settings stripe user owner desired w w' s h =
    let (id, v, e, rest) =
      >>=-eq-ok (ensure_schedule settings stripe user owner (present s.schedule))
        (λ id.
          modify_subscription_schedule settings stripe user owner s id desired >>= λ _. pure tt)
        w h in
    let (id', u, e', done) =
      >>=-eq-ok (modify_subscription_schedule settings stripe user owner s id desired)
        (λ _. pure tt) v rest in
    let (same, planned) =
      modify_subscription_schedule_lem settings stripe user owner desired v u s id id' e' in
    let kept : v.owners ≡ w.owners =
      ensure_schedule_owners settings stripe user owner w v (present s.schedule) id e in
    subst (λ (x : World). (x.owners ≡ w.owners) × Schedules settings s desired (last x.stripe_log))
      (ap (λ (p : Outcome (Unit {0}) × World). p.1) done) (same ∙ kept, planned)

abbrev pub with_plan : Owner → DesiredPlan → ℕ → Owner
with_plan owner desired t = record owner {
  plan = some desired.plan_value;
  plan_user_count = some desired.seats;
  updatestamp = t;
}

modify_now_rows :
    (settings : Settings) (stripe : Stripe) (user owner : Owner) (desired : DesiredPlan)
    (w w' : World) (s : Subscription)
    → modify_now settings stripe user owner s desired w ≡ (ok tt, w')
    → w'.owners ≡ put_owner (with_plan owner desired w.now) w.owners
unfolding modify_now
modify_now_rows settings stripe user owner desired w w' s h = ground arith

-- When a change of plan succeeds for an organisation that is as in its row, this row has the new
-- plan and the new seats at once if the change is invoiced and the subscription that Stripe
-- answers with has no schedule; otherwise it is as before.
pub modify_subscription_row :
    (settings : Settings) (stripe : Stripe) (user owner : Owner) (desired : DesiredPlan)
    (w w' : World) (s : Subscription)
    → stripe.retrieve w.stripe_log owner.stripe_subscription_id ≡ ok s
    → row_of owner.ownerid w.owners ≡ some owner
    → modify_subscription settings stripe user owner desired w ≡ (ok tt, w')
    → row_of owner.ownerid w'.owners ≡ (
        if is_upgrading owner desired && not (truthy s.schedule)
        then some (with_plan owner desired w.now)
        else some owner)
unfolding modify_subscription
modify_subscription_row settings stripe user owner desired w w' s found stored h =
    elim (Bool-cases (is_upgrading owner desired && not (truthy s.schedule))) [
      | inl now ↦ rw now (
          rw (modify_now_rows settings stripe user owner desired w w' s (ground arith))
            (row_of-put_owner (with_plan owner desired w.now) w.owners))
      | inr later ↦ rw later (
          rw (modify_later-Schedules settings stripe user owner desired w w' s (ground arith)).0
            stored)
    ]

-- The request that changes a subscription at once.
abbrev pub items_call : Owner → Owner → DesiredPlan → Subscription → String → StripeCall
items_call user owner desired s plan_id =
    modify_items owner.stripe_subscription_id s.item_id plan_id desired.seats
      (metadata_of user owner) (get_proration_params owner desired)

-- An organisation whose plan is not among the known ones loses a paid upgrade to a plan that is
-- sold: once Stripe has accepted the change, a ValueError is raised, and the rows of all owners
-- are as before.
pub modify_now_unsupported :
    (settings : Settings) (stripe : Stripe) (user owner : Owner) (desired : DesiredPlan) (w : World)
    (s : Subscription) (plan_id answer : String)
    → find_plan owner.plan ≡ none
    → lookup desired.plan_value settings.stripe_plan_ids ≡ some plan_id
    → stripe.respond w.stripe_log (items_call user owner desired s plan_id) ≡ ok answer
    → ((modify_now settings stripe user owner s desired w).0 ≡ err value_error)
      × ((modify_now settings stripe user owner s desired w).1.owners ≡ w.owners)
      × ((modify_now settings stripe user owner s desired w).1.stripe_log
          ≡ w.stripe_log ++ items_call user owner desired s plan_id ∷ [])
unfolding modify_now
modify_now_unsupported settings stripe user owner desired w s plan_id answer legacy priced
      accepted =
    ground arith
