-- ===== src/Store.antt =====
-- The state that a request works on: the clock, the rows of the database, and the calls that were
-- made to Stripe and to Segment. A method that raises keeps what it wrote before.
pub mod Ensures
use codecov_api.Base.{
  Bool, List, Option, String, [], ap, arith, false, if◌then◌else◌, length, refl, select, ℕ, ◌++◌,
  ◌==◌, ◌∷◌, ◌≡◌,
}
use codecov_api.Accounts.{Accounts}
use codecov_api.Owner.{Branch, Commit, Owner, Pull, ReportSession, Repository}

-- The exceptions that the modelled code raises or lets through.
pub data Error : Type 0 where
  value_error validation_error key_error index_error type_error attribute_error : Error
  name_error throttled does_not_exist multiple_objects not_found permission_denied : Error
  stripe_error provider_error license_error database_error : Error
  unauthenticated unauthorized scanner_error invalid_yaml yaml_error : Error

pub data Outcome {ℓ} (A : Type ℓ) : Type ℓ where
  ok : A → Outcome A
  err : Error → Outcome A

-- One phase of a subscription's schedule.
pub record Phase : Type 0 where
  pub start_date : ℕ
  pub end_date : ℕ
  pub plan_id : String
  pub quantity : ℕ

-- StripeService._get_checkout_session_and_subscription_metadata
pub record Metadata : Type 0 where
  pub service : String
  pub obo_organization : ℕ
  pub username : Option String
  pub obo_name : Option String
  pub obo_email : Option String
  pub obo : ℕ

-- The parameters of stripe.checkout.Session.create.
pub record SessionParams : Type 0 where
  pub billing_address_collection : String
  pub client_reference_id : ℕ
  pub success_url : String
  pub cancel_url : String
  pub plan_id : String
  pub quantity : ℕ
  pub metadata : Metadata
  pub trial_period_days : Option ℕ
  pub customer_email : Option String
  pub customer : Option String

-- A request to Stripe that changes something there.
pub data StripeCall : Type 0 where
  release_schedule : String → StripeCall
  cancel_at_period_end : Option String → StripeCall
  modify_items : Option String → String → String → ℕ → Metadata → String → StripeCall
  create_schedule : Option String → StripeCall
  modify_schedule : String → Phase → Phase → Metadata → StripeCall
  create_session : SessionParams → StripeCall
  attach_payment_method set_default_payment_method : String → Option String → StripeCall
  create_coupon : ℕ → StripeCall
  apply_coupon : Option String → Option String → StripeCall
  modify_default_payment_method : String → Option String → StripeCall

-- An event that is tracked by services/segment.py.
pub data Event : Type 0 where
  account_paid_subscription : ℕ → Option String → Event
  account_cancelled_subscription : ℕ → String → Event
  account_changed_plan : ℕ → ℕ → String → Option String → Event
  account_increased_users account_decreased_users : ℕ → ℕ → ℕ → ℕ → String → Event
  account_completed_checkout : ℕ → Option String → Event
  account_activated_user : ℕ → ℕ → Event
  account_activated_repository_on_upload : ℕ → ℕ → Event
  account_installed_source_control_service_app : Option ℕ → ℕ → Event
  account_uninstalled_source_control_service_app : Option ℕ → ℕ → Event
  trial_started trial_ended : ℕ → String → ℕ → Event
  identify_user : ℕ → Event

-- A task that is queued by services/task.
pub data Task : Type 0 where
  status_set_pending : ℕ → String → String → Bool → Task
  notify : ℕ → String → Task
  pulls_sync : ℕ → Option ℕ → Task
  refresh : ℕ → Option String → Bool → Bool → Bool → Task
  backfill_dataset : String → ℕ → ℕ → ℕ → Task
  sync_plans : String → String → String → Task

-- The two next keys are those that the database gives to a new owner and a new repository.
pub record World : Type 0 where
  pub now : ℕ
  pub owners : List Owner
  pub repos : List Repository
  pub commits : List Commit
  pub branches : List Branch
  pub pulls : List Pull
  pub sessions : List ReportSession
  pub next_ownerid : ℕ
  pub next_repoid : ℕ
  pub tasks : List Task
  pub stripe_log : List StripeCall
  pub segment_log : List Event
  pub accounts : Accounts

abbrev pub Exec {ℓ} : Type ℓ → Type ℓ
Exec A = World → Outcome A × World

module _ {ℓ} {A : Type ℓ} where
  abbrev pub pure : A → Exec A
  pure a w = (ok a, w)

  abbrev pub raise : Error → Exec A
  raise e w = (err e, w)

  abbrev pub lift : Outcome A → Exec A
  lift r w = (r, w)

infixl 5 ◌>>=◌ ◌>>◌
abbrev pub ◌>>=◌ {ℓ κ} : {A : Type ℓ} {B : Type κ} → Exec A → (A → Exec B) → Exec B
◌>>=◌ m f w = let (r, w') = m w in elim r [ ok a ↦ f a w' | err e ↦ (err e, w') ]

abbrev pub ◌>>◌ {ℓ κ} : {A : Type ℓ} {B : Type κ} → Exec A → Exec B → Exec B
m >> k = m >>= λ _. k

pub ok-injective {ℓ} : {A : Type ℓ} {a b : A} → ok a ≡ ok b → a ≡ b
ok-injective h = cc

-- An action that succeeds is two that do.
pub >>=-eq-ok {ℓ κ} :
    {A : Type ℓ} {B : Type κ} (m : Exec A) (f : A → Exec B) (w : World) {b : B} {w' : World}
    → (m >>= f) w ≡ (ok b, w')
    → (a : A) × (v : World) × (m w ≡ (ok a, v)) × (f a v ≡ (ok b, w'))
>>=-eq-ok {A} {B} m f w {b} {w'} h = go (m w).0 (m w).1 refl h
  where
    go :
        (r : Outcome A) (v : World)
        → m w ≡ (r, v)
        → (elim r as (λ _. Outcome B × World) [ ok a ↦ f a v | err e ↦ (err e, v) ]) ≡ (ok b, w')
        → (a : A) × (v : World) × (m w ≡ (ok a, v)) × (f a v ≡ (ok b, w'))
    go (ok a) v e h = (a, v, e, h)
    go (err x) v e h = absurd (ground arith)

-- What follows an action depends on it only through its answer and its world.
pub >>=-cong {ℓ κ} :
    {A : Type ℓ} {B : Type κ} (m m' : Exec A) (f : A → Exec B) (w : World)
    → m w ≡ m' w
    → (m >>= f) w ≡ (m' >>= f) w
>>=-cong {A} {B} m m' f w e =
    ap
      (λ (p : Outcome A × World). elim p.0 as (λ _. Outcome B × World) [
        | ok a ↦ f a p.1
        | err x ↦ (err x, p.1)
      ])
      e

-- datetime.utcnow(), timezone.now()
abbrev pub utcnow : Exec ℕ
utcnow w = (ok w.now, w)

abbrev pub track : Event → Exec (Unit {0})
track e w = (ok tt, record w { segment_log = w.segment_log ++ e ∷ [] })

-- The row with the owner's key is replaced; without one a row is added.
unfoldable pub put_owner : Owner → List Owner → List Owner
put_owner o [] = o ∷ []
put_owner o (r ∷ rows) = if r.ownerid == o.ownerid then o ∷ rows else r ∷ put_owner o rows

-- Owner.save: every field is written, with a new `updatestamp`.
unfoldable pub save : Owner → Exec Owner
save o w =
    let stamped : Owner = record o { updatestamp = w.now } in
    (ok stamped, record w { owners = put_owner stamped w.owners })

abbrev pub one {ℓ} : {A : Type ℓ} → List A → Outcome A
one [] = err does_not_exist
one (a ∷ []) = ok a
one (a ∷ b ∷ rest) = err multiple_objects

-- Owner.objects.get(...)
unfoldable pub get_owner : (Owner → Bool) → Exec Owner
get_owner p w = (one (select p w.owners), w)

unfoldable pub update_rows : (Owner → Bool) → (Owner → Owner) → List Owner → List Owner
update_rows p f [] = []
update_rows p f (r ∷ rows) = (if p r then f r else r) ∷ update_rows p f rows

-- Owner.objects.filter(...).update(...): the number of rows that were changed.
unfoldable pub update_owners : (Owner → Bool) → (Owner → Owner) → Exec ℕ
unfolding update_rows
update_owners p f w =
    (ok (length (select p w.owners)), record w { owners = update_rows p f w.owners })

unfoldable pub deactivate_repo_rows : ℕ → List Repository → List Repository
deactivate_repo_rows author [] = []
deactivate_repo_rows author (r ∷ rows) =
    (if r.author == author then record r { active = false; activated = false } else r)
    ∷ deactivate_repo_rows author rows

-- owner.repository_set.update(active=False, activated=False)
unfoldable pub deactivate_repos : ℕ → Exec (Unit {0})
unfolding deactivate_repo_rows
deactivate_repos author w = (ok tt, record w { repos = deactivate_repo_rows author w.repos })
