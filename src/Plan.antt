-- ===== src/Plan.antt =====
-- plan/constants.py: the enumerations and the record of a plan's data.
pub mod Constants
pub mod Tables
pub mod Service
pub mod Trial
use codecov_api.Base.{Bool, List, Option, String, false, true, ℕ}

pub data PlanName : Type 0 where
  basic_plan_name trial_plan_name codecov_pro_monthly codecov_pro_yearly : PlanName
  sentry_monthly sentry_yearly ghm_plan_name free_plan_name : PlanName
  codecov_pro_monthly_legacy codecov_pro_yearly_legacy : PlanName
  enterprise_cloud_monthly enterprise_cloud_yearly : PlanName

-- PlanName.….value
abbrev pub value : PlanName → String
value basic_plan_name = "users-basic"
value trial_plan_name = "users-trial"
value codecov_pro_monthly = "users-pr-inappm"
value codecov_pro_yearly = "users-pr-inappy"
value sentry_monthly = "users-sentrym"
value sentry_yearly = "users-sentryy"
value ghm_plan_name = "users"
value free_plan_name = "users-free"
value codecov_pro_monthly_legacy = "users-inappm"
value codecov_pro_yearly_legacy = "users-inappy"
value enterprise_cloud_monthly = "users-enterprisem"
value enterprise_cloud_yearly = "users-enterprisey"

pub data PlanMarketingName : Type 0 where
  codecov_pro sentry_pro enterprise_cloud github_marketplace free basic trial : PlanMarketingName

abbrev pub marketing_value : PlanMarketingName → String
marketing_value codecov_pro = "Pro Team"
marketing_value sentry_pro = "Pro Team for Sentry"
marketing_value enterprise_cloud = "Enterprise Cloud"
marketing_value github_marketplace = "Github Marketplace"
marketing_value free = "Developer"
marketing_value basic = "Developer"
marketing_value trial = "Developer"

pub data PlanBillingRate : Type 0 where
  monthly yearly : PlanBillingRate

abbrev pub same_rate : PlanBillingRate → PlanBillingRate → Bool
same_rate monthly monthly = true
same_rate yearly yearly = true
same_rate _ _ = false

pub data PlanPrice : Type 0 where
  price_monthly price_yearly codecov_free codecov_basic codecov_trial ghm_price : PlanPrice

abbrev pub price : PlanPrice → ℕ
price price_monthly = 12
price price_yearly = 10
price codecov_free = 0
price codecov_basic = 0
price codecov_trial = 0
price ghm_price = 12

pub data TrialStatus : Type 0 where
  not_started ongoing expired cannot_trial : TrialStatus

-- TrialStatus.….value
abbrev pub trial_value : TrialStatus → String
trial_value not_started = "not_started"
trial_value ongoing = "ongoing"
trial_value expired = "expired"
trial_value cannot_trial = "cannot_trial"

-- MonthlyUploadLimits.CODECOV_BASIC_PLAN
abbrev pub basic_upload_limit : ℕ
basic_upload_limit = 250

-- TrialDaysAmount.CODECOV_SENTRY
abbrev pub sentry_trial_days : ℕ
sentry_trial_days = 14

pub record PlanData : Type 0 where
  pub marketing_name : String
  pub plan_value : String
  pub billing_rate : Option PlanBillingRate
  pub base_unit_price : ℕ
  pub benefits : List String
  pub monthly_uploads_limit : Option ℕ
  pub trial_days : Option ℕ
