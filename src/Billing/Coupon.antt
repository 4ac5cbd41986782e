-- ===== src/Billing/Coupon.antt =====
-- services/billing.py: the coupon that `apply_cancellation_discount` gives is given once.
use codecov_api.Base.{
  Bool, Bool-cases, List, Option-cases, String, ap, arith, false, inl, inr, is_some, not, refl,
  some, subst, sym, true, truthy, ℕ, ◌&&◌, ◌∙◌, ◌≡◌, ◌⊎◌,
}
use codecov_api.Owner.{Owner}
use codecov_api.Seats.Count.{row_of, row_of-put_owner}
use codecov_api.Plan.Service.{PlanService, find_plan, init}
use codecov_api.Store.{Outcome, StripeCall, World, create_coupon, err, ok, put_owner}
use codecov_api.Plan.{monthly}
use codecov_api.Billing.Proration.{is_rate}
use codecov_api.Billing.{Settings, Stripe}
use codecov_api.Billing.Payment.{apply_cancellation_discount}

-- Every coupon that Stripe makes has a name.
abbrev pub Named : Stripe → Type 0
Named stripe =
    (log : List StripeCall) (i : ℕ) (id : String)
    → stripe.respond log (create_coupon i) ≡ ok id
    → truthy (some id) ≡ true

abbrev Given : Owner → World → World → Type 0
Given owner w w' =
    (id : String) × (w'.owners
      ≡ put_owner (record owner { stripe_coupon_id = some id; updatestamp = w.now }) w.owners)
    × (truthy (some id) ≡ true)
    × ((service : PlanService) × (init owner ≡ ok service))

abbrev offered : Owner → PlanService → Bool
offered owner service =
    is_rate monthly service.plan_data.billing_rate && not (truthy owner.stripe_coupon_id)

module _ (settings : Settings) (stripe : Stripe) (user owner : Owner) where
  abbrev Idle : Type 0
  Idle =
      (other : Stripe) (v : World)
      → apply_cancellation_discount settings other user owner v ≡ (ok tt, v)

  idle_unsubscribed : is_some owner.stripe_subscription_id ≡ false → Idle
  unfolding apply_cancellation_discount
  idle_unsubscribed e other v = ground arith

  idle_unoffered :
      (service : PlanService) → init owner ≡ ok service → offered owner service ≡ false → Idle
  unfolding apply_cancellation_discount
  idle_unoffered service i e other v = ground arith

  given :
      (w w' : World) (service : PlanService) (r : Outcome String)
      → Named stripe
      → init owner ≡ ok service
      → is_some owner.stripe_subscription_id ≡ true
      → offered owner service ≡ true
      → stripe.respond w.stripe_log (create_coupon owner.ownerid) ≡ r
      → apply_cancellation_discount settings stripe user owner w ≡ (ok tt, w')
      → Given owner w w'
  unfolding apply_cancellation_discount
  given w w' service (ok id) named i sub e q h =
      (id, ground arith, named w.stripe_log owner.ownerid id q, (service, i))
  given w w' service (err x) named i sub e q h = absurd (ground arith)

  idle_or_Given :
      (w w' : World) (r : Outcome PlanService)
      → init owner ≡ r
      → Named stripe
      → apply_cancellation_discount settings stripe user owner w ≡ (ok tt, w')
      → ((w'.owners ≡ w.owners) × Idle) ⊎ Given owner w w'
  idle_or_Given w w' r i named h = elim (Bool-cases (is_some owner.stripe_subscription_id)) [
    | inr e ↦ inl (unfold apply_cancellation_discount in ground arith, idle_unsubscribed e)
    | inl e ↦ subscribed r i e
  ]
    where
      subscribed :
          (r : Outcome PlanService)
          → init owner ≡ r
          → is_some owner.stripe_subscription_id ≡ true
          → ((w'.owners ≡ w.owners) × Idle) ⊎ Given owner w w'
      subscribed (ok service) i e = elim (Bool-cases (offered owner service)) [
        | inr o ↦
            inl (unfold apply_cancellation_discount in ground arith, idle_unoffered service i o)
        | inl o ↦ inr (
            given w w' service (stripe.respond w.stripe_log (create_coupon owner.ownerid)) named i e
              o refl h)
      ]
      subscribed (err x) i e = absurd (unfold apply_cancellation_discount in ground arith)

init_coupon :
    (owner : Owner) (service : PlanService) (id : String) (t : ℕ)
    → init owner ≡ ok service
    → init (record owner { stripe_coupon_id = some id; updatestamp = t })
      ≡ ok (record {
        current_org = record owner { stripe_coupon_id = some id; updatestamp = t };
        plan_data = service.plan_data;
      })
unfolding init
init_coupon owner service id t i = elim (Option-cases (find_plan owner.plan)) [
  | inl e ↦ absurd (ground arith)
  | inr (p, e) ↦ ground arith
]

-- With a coupon an organisation is not offered another one.
idle_with_coupon :
    (settings : Settings) (stripe : Stripe) (user owner : Owner) (service : PlanService)
    (id : String) (t : ℕ) (v : World)
    → init owner ≡ ok service
    → truthy (some id) ≡ true
    → apply_cancellation_discount settings stripe user
        (record owner { stripe_coupon_id = some id; updatestamp = t })
        v
      ≡ (ok tt, v)
unfolding apply_cancellation_discount
idle_with_coupon settings stripe user owner service id t v i n =
    ground (arith, init_coupon owner service id t i)

some-injective : {a b : Owner} → some a ≡ some b → a ≡ b
some-injective h = cc

-- Where every coupon that Stripe makes has a name, and the organisation is as in its row, a
-- cancellation discount that succeeds is given once: asked for again with the row that the first
-- call leaves, in any later state and with any Stripe, it sends no request and writes nothing.
pub apply_cancellation_discount_once :
    (settings : Settings) (stripe stripe' : Stripe) (user owner o : Owner) (w w' v : World)
    → Named stripe
    → row_of owner.ownerid w.owners ≡ some owner
    → apply_cancellation_discount settings stripe user owner w ≡ (ok tt, w')
    → row_of owner.ownerid w'.owners ≡ some o
    → apply_cancellation_discount settings stripe' user o v ≡ (ok tt, v)
apply_cancellation_discount_once settings stripe stripe' user owner o w w' v named stored h found =
    elim (idle_or_Given settings stripe user owner w w' (init owner) refl named h) [
      | inl (same, idle) ↦
          subst (λ (x : Owner). apply_cancellation_discount settings stripe' user x v ≡ (ok tt, v))
            (some-injective (sym stored ∙ sym (ap (row_of owner.ownerid) same) ∙ found))
            (idle stripe' v)
      | inr (id, rows, n, (service, i)) ↦
          subst (λ (x : Owner). apply_cancellation_discount settings stripe' user x v ≡ (ok tt, v))
            (some-injective (
              sym (
                row_of-put_owner (record owner { stripe_coupon_id = some id; updatestamp = w.now })
                  w.owners)
              ∙ sym (ap (row_of owner.ownerid) rows)
              ∙ found))
            (idle_with_coupon settings stripe' user owner service id w.now v i n)
    ]
