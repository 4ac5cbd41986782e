-- ===== src/Plan/Constants.antt =====
-- plan/constants.py: the plans, as the dictionaries of the source, and their unions.
use codecov_api.Base.{Dict, List, String, [], merge, none, some, ◌∷◌}
use codecov_api.Plan.{
  PlanData, basic, basic_plan_name, basic_upload_limit, codecov_basic, codecov_free, codecov_pro,
  codecov_pro_monthly, codecov_pro_monthly_legacy, codecov_pro_yearly, codecov_pro_yearly_legacy,
  codecov_trial, enterprise_cloud, enterprise_cloud_monthly, enterprise_cloud_yearly, free,
  free_plan_name, ghm_plan_name, ghm_price, github_marketplace, marketing_value, monthly, price,
  price_monthly, price_yearly, sentry_monthly, sentry_pro, sentry_trial_days, sentry_yearly, trial,
  trial_plan_name, value, yearly,
}

unfoldable pub non_pr_author_paid_user_plan_representations : Dict PlanData
non_pr_author_paid_user_plan_representations =
    (
      value codecov_pro_monthly_legacy,
      record {
        marketing_name = marketing_value codecov_pro;
        plan_value = value codecov_pro_monthly_legacy;
        billing_rate = some monthly;
        base_unit_price = price price_monthly;
        benefits =
            "Configurable # of users" ∷ "Unlimited public repositories"
            ∷ "Unlimited private repositories" ∷ "Priority Support" ∷ [];
        monthly_uploads_limit = none;
        trial_days = none;
      },
    )
    ∷ (
      value codecov_pro_yearly_legacy,
      record {
        marketing_name = marketing_value codecov_pro;
        plan_value = value codecov_pro_yearly_legacy;
        billing_rate = some yearly;
        base_unit_price = price price_yearly;
        benefits =
            "Configurable # of users" ∷ "Unlimited public repositories"
            ∷ "Unlimited private repositories" ∷ "Priority Support" ∷ [];
        monthly_uploads_limit = none;
        trial_days = none;
      },
    )
    ∷ []

unfoldable pub pr_author_paid_user_plan_representations : Dict PlanData
pr_author_paid_user_plan_representations =
    (
      value codecov_pro_monthly,
      record {
        marketing_name = marketing_value codecov_pro;
        plan_value = value codecov_pro_monthly;
        billing_rate = some monthly;
        base_unit_price = price price_monthly;
        benefits =
            "Configurable # of users" ∷ "Unlimited public repositories"
            ∷ "Unlimited private repositories" ∷ "Priority Support" ∷ [];
        monthly_uploads_limit = none;
        trial_days = none;
      },
    )
    ∷ (
      value codecov_pro_yearly,
      record {
        marketing_name = marketing_value codecov_pro;
        plan_value = value codecov_pro_yearly;
        billing_rate = some yearly;
        base_unit_price = price price_yearly;
        benefits =
            "Configurable # of users" ∷ "Unlimited public repositories"
            ∷ "Unlimited private repositories" ∷ "Priority Support" ∷ [];
        monthly_uploads_limit = none;
        trial_days = none;
      },
    )
    ∷ []

unfoldable pub sentry_paid_user_plan_representations : Dict PlanData
sentry_paid_user_plan_representations =
    (
      value sentry_monthly,
      record {
        marketing_name = marketing_value sentry_pro;
        plan_value = value sentry_monthly;
        billing_rate = some monthly;
        base_unit_price = price price_monthly;
        benefits =
            "Includes 5 seats" ∷ "$12 per additional seat" ∷ "Unlimited public repositories"
            ∷ "Unlimited private repositories" ∷ "Priority Support" ∷ [];
        monthly_uploads_limit = none;
        trial_days = some sentry_trial_days;
      },
    )
    ∷ (
      value sentry_yearly,
      record {
        marketing_name = marketing_value sentry_pro;
        plan_value = value sentry_yearly;
        billing_rate = some yearly;
        base_unit_price = price price_yearly;
        benefits =
            "Includes 5 seats" ∷ "$10 per additional seat" ∷ "Unlimited public repositories"
            ∷ "Unlimited private repositories" ∷ "Priority Support" ∷ [];
        monthly_uploads_limit = none;
        trial_days = some sentry_trial_days;
      },
    )
    ∷ []

unfoldable pub enterprise_cloud_user_plan_representations : Dict PlanData
enterprise_cloud_user_plan_representations =
    (
      value enterprise_cloud_monthly,
      record {
        marketing_name = marketing_value enterprise_cloud;
        plan_value = value enterprise_cloud_monthly;
        billing_rate = some monthly;
        base_unit_price = price price_monthly;
        benefits =
            "Configurable # of users" ∷ "Unlimited public repositories"
            ∷ "Unlimited private repositories" ∷ "Priority Support" ∷ [];
        monthly_uploads_limit = none;
        trial_days = none;
      },
    )
    ∷ (
      value enterprise_cloud_yearly,
      record {
        marketing_name = marketing_value enterprise_cloud;
        plan_value = value enterprise_cloud_yearly;
        billing_rate = some yearly;
        base_unit_price = price price_yearly;
        benefits =
            "Configurable # of users" ∷ "Unlimited public repositories"
            ∷ "Unlimited private repositories" ∷ "Priority Support" ∷ [];
        monthly_uploads_limit = none;
        trial_days = none;
      },
    )
    ∷ []

unfoldable pub ghm_plan_representation : Dict PlanData
ghm_plan_representation =
    (
      value ghm_plan_name,
      record {
        marketing_name = marketing_value github_marketplace;
        plan_value = value ghm_plan_name;
        billing_rate = none;
        base_unit_price = price ghm_price;
        benefits =
            "Configurable # of users" ∷ "Unlimited public repositories"
            ∷ "Unlimited private repositories" ∷ [];
        monthly_uploads_limit = none;
        trial_days = none;
      },
    )
    ∷ []

unfoldable pub free_plan_representations : Dict PlanData
free_plan_representations =
    (
      value free_plan_name,
      record {
        marketing_name = marketing_value free;
        plan_value = value free_plan_name;
        billing_rate = none;
        base_unit_price = price codecov_free;
        benefits =
            "Up to 1 user" ∷ "Unlimited public repositories" ∷ "Unlimited private repositories"
            ∷ [];
        monthly_uploads_limit = none;
        trial_days = none;
      },
    )
    ∷ (
      value basic_plan_name,
      record {
        marketing_name = marketing_value basic;
        plan_value = value basic_plan_name;
        billing_rate = none;
        base_unit_price = price codecov_basic;
        benefits =
            "Up to 1 user" ∷ "Unlimited public repositories" ∷ "Unlimited private repositories"
            ∷ [];
        monthly_uploads_limit = some basic_upload_limit;
        trial_days = none;
      },
    )
    ∷ []

unfoldable pub trial_plan_representation : Dict PlanData
trial_plan_representation =
    (
      value trial_plan_name,
      record {
        marketing_name = marketing_value trial;
        plan_value = value trial_plan_name;
        billing_rate = none;
        base_unit_price = price codecov_trial;
        benefits =
            "Configurable # of users" ∷ "Unlimited public repositories"
            ∷ "Unlimited private repositories" ∷ "Priority Support" ∷ [];
        monthly_uploads_limit = none;
        trial_days = none;
      },
    )
    ∷ []

unfoldable pub pro_plans : Dict PlanData
unfolding pr_author_paid_user_plan_representations sentry_paid_user_plan_representations
    enterprise_cloud_user_plan_representations merge
pro_plans =
    merge (merge pr_author_paid_user_plan_representations sentry_paid_user_plan_representations)
      enterprise_cloud_user_plan_representations

abbrev pub trial_plans : Dict PlanData
trial_plans = trial_plan_representation

unfoldable pub user_plan_representations : Dict PlanData
unfolding free_plan_representations non_pr_author_paid_user_plan_representations
    ghm_plan_representation pro_plans trial_plan_representation
user_plan_representations =
    merge
      (merge
        (merge (merge free_plan_representations non_pr_author_paid_user_plan_representations)
          ghm_plan_representation)
        pro_plans)
      trial_plans

unfoldable pub plans_that_can_trial : List String
plans_that_can_trial =
    value free_plan_name
    ∷ value basic_plan_name
    ∷ value codecov_pro_monthly
    ∷ value codecov_pro_yearly
    ∷ value sentry_monthly
    ∷ value sentry_yearly
    ∷ value trial_plan_name
    ∷ []
