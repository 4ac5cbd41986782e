-- ===== src/Billing/Effects.antt =====
-- billing/views.py: what single events do to the rows of owners and repositories.
use mathlib.Core.Option
use codecov_api.Base.{
  Bool, List, Option-cases, String, [], arith, false, get_elem?, has_key, if◌then◌else◌, inl, inr,
  is_some, lookup, none, refl, select, some, str_eq, suc, true, truthy, zero, ℕ, ◌==◌, ◌∷◌, ◌≡◌,
}
use codecov_api.Owner.{Owner, Repository}
use codecov_api.Seats.Count.{row_of, row_of-put_owner}
use codecov_api.Plan.Tables.{lookup-pro_plans}
use codecov_api.Store.{World, deactivate_repo_rows, ok, put_owner, update_rows}
use codecov_api.Plan.{basic_plan_name, value}
use codecov_api.Plan.Constants.{pro_plans}
use codecov_api.Plan.Service.{find_plan}
use codecov_api.Billing.{Subscription}
use codecov_api.Billing.Webhooks.{
  cancel_to_free, customer_subscription_created, customer_subscription_deleted, has_id,
  invoice_payment_failed, pays, set_delinquent,
}

row_of-update_rows :
    (p : Owner → Bool) (i : ℕ) (rows : List Owner)
    → row_of i (update_rows p set_delinquent rows)
      ≡ Option.map (λ o. if p o then set_delinquent o else o) (row_of i rows)
unfolding update_rows
row_of-update_rows p i [] = refl
row_of-update_rows p i (o ∷ rows) = ground (arith, row_of-update_rows p i rows)

-- A failed payment marks the owners with its Stripe ids as delinquent, and changes no other row and
-- no other field.
pub invoice_payment_failed_rows :
    (customer subscription : String) (w : World) (i : ℕ)
    → row_of i (invoice_payment_failed customer subscription w).1.owners
      ≡ Option.map
          (λ o. if pays customer subscription o then set_delinquent o else o)
          (row_of i w.owners)
unfolding invoice_payment_failed
invoice_payment_failed_rows customer subscription w i =
    row_of-update_rows (pays customer subscription) i w.owners

abbrev pub inactive : Repository → Repository
inactive r = record r { active = false; activated = false }

get_elem?-deactivate :
    (author n : ℕ) (rows : List Repository)
    → get_elem? (deactivate_repo_rows author rows) n
      ≡ Option.map (λ r. if r.author == author then inactive r else r) (get_elem? rows n)
unfolding deactivate_repo_rows
get_elem?-deactivate author n [] = refl
get_elem?-deactivate author zero (r ∷ rows) = ground arith
get_elem?-deactivate author (suc n) (r ∷ rows) = get_elem?-deactivate author n rows

-- The row of an owner on the basic plan, as the code leaves it at the time `t`.
abbrev pub on_basic_plan : Owner → ℕ → Owner
on_basic_plan o t = record o {
  plan = some (value basic_plan_name);
  plan_activated_users = none;
  plan_user_count = some 1;
  stripe_subscription_id = none;
  updatestamp = t;
}

module _ (s : Subscription) (o : Owner) (w : World) where
  cancel_to_free_lem :
      is_some (find_plan o.plan) ≡ true
      → (cancel_to_free o w).0 ≡ ok tt
        × ((cancel_to_free o w).1.owners ≡ put_owner (on_basic_plan o w.now) w.owners)
        × ((cancel_to_free o w).1.repos ≡ deactivate_repo_rows o.ownerid w.repos)
  unfolding cancel_to_free
  cancel_to_free_lem known = ground arith

  deleted_rows :
      select (pays s.customer s.id) w.owners ≡ o ∷ []
      → is_some (find_plan o.plan) ≡ true
      → ((customer_subscription_deleted s w).1.owners ≡ put_owner (on_basic_plan o w.now) w.owners)
        × ((customer_subscription_deleted s w).1.repos ≡ deactivate_repo_rows o.ownerid w.repos)
  unfolding customer_subscription_deleted
  deleted_rows found known = (ground arith, ground arith)

  -- When a subscription is deleted, the one owner that it belongs to, on a known plan, goes back
  -- to the basic plan with one seat, no activated users and no subscription; its repositories are
  -- deactivated, and all other repositories stay as they are.
  pub customer_subscription_deleted_lem :
      select (pays s.customer s.id) w.owners ≡ o ∷ []
      → is_some (find_plan o.plan) ≡ true
      → let w' = (customer_subscription_deleted s w).1 in
        (row_of o.ownerid w'.owners ≡ some (on_basic_plan o w.now))
        × ((n : ℕ)
            → get_elem? w'.repos n
              ≡ Option.map
                  (λ r. if r.author == o.ownerid then inactive r else r)
                  (get_elem? w.repos n))
  customer_subscription_deleted_lem found known =
      let (owners, repos) = deleted_rows found known in
      (
        rw owners (row_of-put_owner (on_basic_plan o w.now) w.owners),
        λ n. rw repos (get_elem?-deactivate o.ownerid n w.repos),
      )

  abbrev linked : Owner
  linked = record o {
    stripe_subscription_id = some s.id;
    stripe_customer_id = some s.customer;
    updatestamp = w.now;
  }

  abbrev subscribed : Owner
  subscribed = record linked { plan = some s.plan_name; plan_user_count = some s.quantity }

  sold_known : has_key s.plan_name pro_plans ≡ true → is_some (find_plan (some s.plan_name)) ≡ true
  unfolding has_key find_plan
  sold_known h = elim (Option-cases (lookup s.plan_name pro_plans)) [
    | inl e ↦ absurd (ground arith)
    | inr (p, e) ↦ rw (lookup-pro_plans s.plan_name p e)
  ]

  created_rows :
      select (has_id s.obo_organization) w.owners ≡ o ∷ []
      → is_some (find_plan o.plan) ≡ true
      → truthy s.plan_id ≡ true
      → has_key s.plan_name pro_plans ≡ true
      → str_eq s.status "trialing" ≡ false
      → (customer_subscription_created s w).1.owners
        ≡ put_owner subscribed (put_owner linked w.owners)
  unfolding customer_subscription_created
  created_rows found known bought sold status = ground (arith, sold_known sold)

  -- When a subscription to a plan on sale is created, not as a trial, and the one owner that it
  -- names is on a known plan, the row of this owner gets the subscription's ids, plan and seats,
  -- and keeps its other fields.
  pub customer_subscription_created_lem :
      select (has_id s.obo_organization) w.owners ≡ o ∷ []
      → is_some (find_plan o.plan) ≡ true
      → truthy s.plan_id ≡ true
      → has_key s.plan_name pro_plans ≡ true
      → str_eq s.status "trialing" ≡ false
      → row_of o.ownerid (customer_subscription_created s w).1.owners
        ≡ some (record o {
          stripe_subscription_id = some s.id;
          stripe_customer_id = some s.customer;
          plan = some s.plan_name;
          plan_user_count = some s.quantity;
          updatestamp = w.now;
        })
  customer_subscription_created_lem found known bought sold status =
      rw (created_rows found known bought sold status)
        (row_of-put_owner subscribed (put_owner linked w.owners))
