-- ===== src/Billing.antt =====
-- services/billing.py and billing/views.py: what they take from the settings and from Stripe.
pub mod Proration
pub mod Payment
pub mod Service
pub mod Webhooks
pub mod Upgrade
pub mod Coupon
pub mod Frame
pub mod Effects
use codecov_api.Base.{Bool, Dict, List, Option, String, [], ℕ, ◌++◌, ◌∷◌}
use codecov_api.Store.{Exec, Outcome, StripeCall}

-- The settings that billing reads.
pub record Settings : Type 0 where
  pub stripe_plan_ids : Dict String
  pub dashboard_url : String
  pub is_enterprise : Bool

-- What the code reads of a Stripe subscription. The item is `items.data[0]`.
pub record Subscription : Type 0 where
  pub id : String
  pub customer : String
  pub schedule : Option String
  pub status : String
  pub plan_id : Option String
  pub plan_name : String
  pub quantity : ℕ
  pub item_id : String
  pub item_plan_name : String
  pub item_quantity : ℕ
  pub current_period_start : ℕ
  pub current_period_end : ℕ
  pub default_payment_method : Option String
  pub obo_organization : ℕ
  pub obo : ℕ

pub record Invoice : Type 0 where
  pub invoice_customer : Option String
  pub invoice_status : Option String
  pub total : Option ℕ

-- The library `stripe`, with the service behind it: what it answers may depend on all requests
-- that were made before. A request answers with the id of what it made or changed.
pub record Stripe : Type 0 where
  pub retrieve : List StripeCall → Option String → Outcome Subscription
  pub retrieve_invoice : List StripeCall → String → Outcome (Option Invoice)
  pub list_invoices : List StripeCall → String → ℕ → Outcome (List Invoice)
  pub respond : List StripeCall → StripeCall → Outcome String

-- A plan that was asked for, with its number of seats.
pub record DesiredPlan : Type 0 where
  pub plan_value : String
  pub seats : ℕ

module _ (stripe : Stripe) where
  abbrev pub request : StripeCall → Exec String
  request c w = (stripe.respond w.stripe_log c, record w { stripe_log = w.stripe_log ++ c ∷ [] })

  abbrev pub retrieve_subscription : Option String → Exec Subscription
  retrieve_subscription id w = (stripe.retrieve w.stripe_log id, w)
