-- ===== src/Plan/Tables.antt =====
-- plan/constants.py: what the tables of plans promise to the code that looks plans up in them.
use codecov_api.Base.{
  All, Option-cases, String, arith, false, has_key, inl, inr, lookup, lookup-All, none, refl, some,
  true, ◌≡◌,
}
use codecov_api.Plan.{PlanData, monthly, yearly}
use codecov_api.Plan.Constants.{free_plan_representations, pro_plans, user_plan_representations}

-- The data that a table holds under a plan's name.
pub record IsCoherent (k : String) (p : PlanData) : Type 0 where
  pub named : p.plan_value ≡ k
  pub monthly_price : p.billing_rate ≡ some monthly → p.base_unit_price ≡ 12
  pub yearly_price : p.billing_rate ≡ some yearly → p.base_unit_price ≡ 10

IsCoherent-table : All (λ e. IsCoherent e.0 e.1) user_plan_representations
unfolding user_plan_representations
IsCoherent-table = ground arith

-- Every plan that can be looked up carries the name it is found under, and is priced by its
-- billing rate: 12 a month when billed monthly, 10 when billed annually.
pub lookup-IsCoherent :
    (k : String) (p : PlanData) → lookup k user_plan_representations ≡ some p → IsCoherent k p
lookup-IsCoherent k p h = lookup-All IsCoherent user_plan_representations k p IsCoherent-table h

pro_plans_known : All (λ e. lookup e.0 user_plan_representations ≡ some e.1) pro_plans
unfolding user_plan_representations lookup
pro_plans_known = (refl, (refl, (refl, (refl, (refl, (refl, tt))))))

-- Every plan that can be bought is found, with its own data, among all plans.
pub lookup-pro_plans :
    (k : String) (p : PlanData)
    → lookup k pro_plans ≡ some p
    → lookup k user_plan_representations ≡ some p
lookup-pro_plans k p h =
    lookup-All (λ name d. lookup name user_plan_representations ≡ some d) pro_plans k p
      pro_plans_known h

free_plans_unsold : All (λ e. lookup e.0 pro_plans ≡ none) free_plan_representations
unfolding pro_plans free_plan_representations lookup
free_plans_unsold = (refl, (refl, tt))

-- A plan that can be bought is no free plan.
pub pro_plans_not_free :
    (k : String) → has_key k free_plan_representations ≡ true → has_key k pro_plans ≡ false
unfolding has_key
pro_plans_not_free k h = elim (Option-cases (lookup k free_plan_representations)) [
  | inl e ↦ absurd (ground arith)
  | inr (p, e) ↦ rw (
      lookup-All (λ name _. lookup name pro_plans ≡ none) free_plan_representations k p
        free_plans_unsold e)
]
