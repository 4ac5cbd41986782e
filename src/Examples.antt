-- ===== src/Examples.antt =====
-- Concrete organisations, users and answers of Stripe, and runs of the theorems on them.
mod Plans
mod Places
mod Payments
mod Diffs
mod Segments
mod Webhooks
mod Uploads
mod Visits
mod Trees
mod Logins
mod Mutations
use codecov_api.Accounts.{no_accounts}
use codecov_api.Base.{[], false, none, some, true, ℕ, ◌∷◌}
use codecov_api.Owner.{Owner, Repository}
use codecov_api.Store.{World, err, ok, stripe_error}
use codecov_api.Plan.Service.{trial_status}
use codecov_api.Billing.{DesiredPlan, Settings, Stripe, Subscription}

-- A user, who is no student.
abbrev pub user_of : ℕ → Owner
user_of i = record {
  ownerid = i;
  service = "github";
  service_id = "900";
  username = some "codecov-user";
  email = none;
  name = none;
  stripe_customer_id = none;
  stripe_subscription_id = none;
  stripe_coupon_id = none;
  plan = some "users-basic";
  plan_user_count = some 1;
  plan_auto_activate = none;
  plan_activated_users = none;
  trial_start_date = none;
  trial_end_date = none;
  trial_status = none;
  free = 0;
  delinquent = some false;
  updatestamp = 0;
  organizations = some (1 ∷ []);
  admins = none;
  integration_id = none;
  parent_service_id = none;
  root_parent_service_id = none;
  max_upload_limit = some 150;
  oauth_token = none;
  permission = none;
  student = false;
}

-- An organisation on the plan for pull request authors, with three seats, two of them taken.
abbrev pub acme : Owner
acme = record (user_of 1) {
  stripe_customer_id = some "cus_1";
  stripe_subscription_id = some "sub_1";
  plan = some "users-pr-inappm";
  plan_user_count = some 3;
  plan_auto_activate = some true;
  plan_activated_users = some (2 ∷ 3 ∷ []);
  organizations = some [];
}

abbrev pub repo_of : ℕ → Repository
repo_of i = record {
  repoid = i;
  name = "api";
  service_id = "77";
  author = 1;
  private = true;
  active = true;
  activated = true;
  deleted = false;
  branch = "main";
  using_integration = none;
  bot = none;
  hookid = none;
  webhook_secret = none;
  fork = none;
}

abbrev pub today : World
today = record {
  now = 1_000_000;
  owners = acme ∷ user_of 2 ∷ user_of 3 ∷ user_of 4 ∷ [];
  repos = repo_of 10 ∷ [];
  commits = [];
  branches = [];
  pulls = [];
  sessions = [];
  next_ownerid = 5;
  next_repoid = 11;
  tasks = [];
  stripe_log = [];
  segment_log = [];
  accounts = no_accounts;
}

abbrev pub sub : Subscription
sub = record {
  id = "sub_1";
  customer = "cus_1";
  schedule = none;
  status = "active";
  plan_id = some "plan_1";
  plan_name = "users-pr-inappy";
  quantity = 5;
  item_id = "si_1";
  item_plan_name = "users-pr-inappm";
  item_quantity = 3;
  current_period_start = 100;
  current_period_end = 200;
  default_payment_method = none;
  obo_organization = 1;
  obo = 2;
}

-- A service that accepts every request.
abbrev pub accepting : Stripe
accepting = record {
  retrieve = λ _ _. ok sub;
  retrieve_invoice = λ _ _. err stripe_error;
  list_invoices = λ _ _ _. ok [];
  respond = λ _ _. ok "sched_1";
}

abbrev pub settings : Settings
settings = record {
  stripe_plan_ids = ("users-pr-inappm", "plan_pro") ∷ ("users-pr-inappy", "plan_pro_yearly") ∷ [];
  dashboard_url = "https://app.codecov.io";
  is_enterprise = false;
}

abbrev pub more_seats : DesiredPlan
more_seats = record { plan_value = "users-pr-inappm"; seats = 5 }

abbrev pub fewer_seats : DesiredPlan
fewer_seats = record { plan_value = "users-pr-inappm"; seats = 2 }
