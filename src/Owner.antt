-- ===== src/Owner.antt =====
-- codecov_auth/models.py: the fields of `Owner` that the modelled code reads or writes, and of
-- `Repository` (core/models.py) those that it changes. Times are counted in microseconds.
use text.Mathlib.Text.{starts_with}
use codecov_api.Base.{Bool, List, Option, String, false, mem, none, not, some, true, ℕ, ◌==◌, ◌||◌}

pub record Owner : Type 0 where
  pub ownerid : ℕ
  pub service : String
  pub service_id : String
  pub username : Option String
  pub email : Option String
  pub name : Option String
  pub stripe_customer_id : Option String
  pub stripe_subscription_id : Option String
  pub stripe_coupon_id : Option String
  pub plan : Option String
  pub plan_user_count : Option ℕ
  pub plan_auto_activate : Option Bool
  pub plan_activated_users : Option (List ℕ)
  pub trial_start_date : Option ℕ
  pub trial_end_date : Option ℕ
  pub trial_status : Option String
  pub free : ℕ
  pub delinquent : Option Bool
  pub updatestamp : ℕ
  pub organizations : Option (List ℕ)
  pub admins : Option (List ℕ)
  pub integration_id : Option ℕ
  pub parent_service_id : Option String
  pub root_parent_service_id : Option String
  pub max_upload_limit : Option ℕ
  pub oauth_token : Option String
  pub permission : Option (List ℕ)
  pub student : Bool

pub record Repository : Type 0 where
  pub repoid : ℕ
  pub name : String
  pub service_id : String
  pub author : ℕ
  pub private : Bool
  pub active : Bool
  pub activated : Bool
  pub deleted : Bool
  pub branch : String
  pub using_integration : Option Bool
  pub bot : Option ℕ
  pub hookid : Option String
  pub webhook_secret : Option String
  pub fork : Option ℕ

-- Commit of core/models.py.
pub record Commit : Type 0 where
  pub repository : ℕ
  pub commitid : String
  pub branch : Option String
  pub merged : Option Bool
  pub pullid : Option ℕ
  pub parent_commit_id : Option String
  pub state : Option String
  pub timestamp : ℕ

-- ReportSession of reports/models.py, with the commit of its report.
pub record ReportSession : Type 0 where
  pub repository : ℕ
  pub commitid : String
  pub state : String
  pub upload_type : String
  pub created_at : ℕ

-- Branch of core/models.py.
pub record Branch : Type 0 where
  pub repository : ℕ
  pub name : String

-- Pull of core/models.py.
pub record Pull : Type 0 where
  pub repository : ℕ
  pub pullid : ℕ
  pub title : Option String
  pub state : Option String

-- Owner.has_legacy_plan
unfoldable pub has_legacy_plan : Owner → Bool
has_legacy_plan o = elim o.plan [ none ↦ true | some p ↦ not (starts_with p "users") ]

-- Owner.is_admin
unfoldable pub is_admin : Owner → Owner → Bool
is_admin o user =
    (o.ownerid == user.ownerid) || elim o.admins [ none ↦ false | some ids ↦ mem user.ownerid ids ]
