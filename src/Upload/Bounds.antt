-- ===== src/Upload/Bounds.antt =====
-- upload/helpers.py and upload/throttles.py: the climb to the responsible owner ends, and the two
-- ways to limit uploads agree.
use mathlib.Core.Option
use codecov_api.Base.{
  Bool, Bool-cases, List, Option, Option-cases, String, [], ap, arith, false, if◌then◌else◌, inl,
  inr, none, not, refl, some, str_eq, subst, suc, sym, true, zero, ℕ, ◌&&◌, ◌<◌, ◌||◌, ◌∙◌, ◌∷◌,
  ◌≡◌, ◌⊎◌,
}
use codecov_api.Owner.{Owner, Repository}
use codecov_api.Store.{
  Error, Outcome, World, does_not_exist, err, multiple_objects, ok, one, throttled,
}
use codecov_api.Plan.Service.{find_plan}
use codecov_api.Upload.Limits.{
  UploadSettings, allow_owner, author_of, check_commit_upload_constraints, check_owner, climb,
  determine_responsible_owner, or_allow, parent_of, window_allow_request,
}

-- The answer of a throttle to what the check raises.
abbrev pub verdict : Outcome (Unit {0}) → Outcome Bool
verdict (ok _) = ok true
verdict (err throttled) = ok false
verdict (err does_not_exist) = ok true
verdict (err e) = err e

climb-top :
    (fuel : ℕ) (w : World) (o : Owner)
    → o.parent_service_id ≡ none
    → climb (suc fuel) w o ≡ some (ok o)
unfolding climb
climb-top fuel w o e = ground arith

climb-above :
    (fuel : ℕ) (w : World) (o : Owner) (i : String) (parent : Outcome Owner)
    → o.parent_service_id ≡ some i
    → parent_of w o i ≡ parent
    → climb (suc fuel) w o ≡ elim parent as (λ _. Option (Outcome Owner)) [
      | err e ↦ some (err e)
      | ok q ↦ climb fuel w q
    ]
unfolding climb
climb-above fuel w o i (err x) e f = ground arith
climb-above fuel w o i (ok q) e f = ground arith

abbrev Found : Option (Outcome Owner) → Type 0
Found answer =
    ((root : Owner) × (answer ≡ some (ok root)) × (root.parent_service_id ≡ none))
    ⊎ ((e : Error) × (answer ≡ some (err e)))

-- Where the parent of a group always ranks below it, fuel above the rank of an owner is enough to
-- find the group that answers for it, which has no parent, or to meet a row that is missing.
pub climb-ends :
    (rank : Owner → ℕ) (w : World)
    → ((o parent : Owner) (i : String)
        → o.parent_service_id ≡ some i
        → parent_of w o i ≡ ok parent
        → rank parent < rank o)
    → (fuel : ℕ) (o : Owner) → rank o < fuel
    → ((root : Owner) × (climb fuel w o ≡ some (ok root)) × (root.parent_service_id ≡ none))
      ⊎ ((e : Error) × (climb fuel w o ≡ some (err e)))
unfolding climb
climb-ends rank w falls zero o enough = absurd (ground arith)
climb-ends rank w falls (suc fuel) o enough =
    go o.parent_service_id refl (λ q lower. climb-ends rank w falls fuel q lower)
  where
    above :
        (i : String)
        → o.parent_service_id ≡ some i
        → (parent : Outcome Owner) → parent_of w o i ≡ parent
        → ((q : Owner) → rank q < fuel → Found (climb fuel w q))
        → Found (climb (suc fuel) w o)
    above i e (err x) f rest = inr (x, climb-above fuel w o i (err x) e f)
    above i e (ok q) f rest =
        subst Found (sym (climb-above fuel w o i (ok q) e f))
          (rest q (omega (arith, falls o q i e f)))

    go :
        (p : Option String)
        → o.parent_service_id ≡ p
        → ((q : Owner) → rank q < fuel → Found (climb fuel w q))
        → Found (climb (suc fuel) w o)
    go none e rest = inl (o, climb-top fuel w o e, e)
    go (some i) e rest = above i e (parent_of w o i) refl rest

-- No row, or several: both sides answer alike.
abbrev Agrees : Error → Type 0
Agrees e = or_allow (err e) ≡ verdict (err e)

one-Agrees : (rows : List Owner) (e : Error) → one rows ≡ err e → Agrees e
one-Agrees [] e h = subst Agrees (let k : does_not_exist ≡ e = ground arith in k) refl
one-Agrees (r ∷ []) e h = absurd (ground arith)
one-Agrees (r ∷ q ∷ rows) e h = subst Agrees (let k : multiple_objects ≡ e = ground arith in k) refl

climb-Agrees :
    (fuel : ℕ) (w : World) (o : Owner) (e : Error) → climb fuel w o ≡ some (err e) → Agrees e
unfolding climb
climb-Agrees zero w o e h = absurd (ground arith)
climb-Agrees (suc fuel) w o e h = go o.parent_service_id refl (λ q k. climb-Agrees fuel w q e k)
  where
    above :
        (i : String)
        → o.parent_service_id ≡ some i
        → (parent : Outcome Owner) → parent_of w o i ≡ parent
        → ((q : Owner) → climb fuel w q ≡ some (err e) → Agrees e)
        → Agrees e
    above i p (err x) f rest =
        one-Agrees _ e
          (f ∙ (let k : err x ≡ err e = ground (arith, climb-above fuel w o i (err x) p f) in k))
    above i p (ok q) f rest = rest q (sym (climb-above fuel w o i (ok q) p f) ∙ h)

    go :
        (p : Option String)
        → o.parent_service_id ≡ p
        → ((q : Owner) → climb fuel w q ≡ some (err e) → Agrees e)
        → Agrees e
    go none p rest = absurd (ground (arith, climb-top fuel w o p))
    go (some i) p rest = above i p (parent_of w o i) refl rest

author_Agrees :
    (fuel : ℕ) (w : World) (repo : Repository) (e : Error)
    → determine_responsible_owner fuel w repo ≡ some (err e)
    → Agrees e
unfolding determine_responsible_owner
author_Agrees fuel w repo e h = go (author_of w repo) refl
  where
    go : (a : Outcome Owner) → author_of w repo ≡ a → Agrees e
    go (err x) f = one-Agrees _ e (f ∙ (let k : err x ≡ err e = ground arith in k))
    go (ok owner) f = elim (Bool-cases (str_eq owner.service "gitlab")) [
      | inl g ↦ climb-Agrees fuel w owner e (ground arith)
      | inr g ↦ absurd (ground arith)
    ]

same_owner :
    (w : World) (repo : Repository) (commitid : String) (owner : Owner)
    → or_allow (allow_owner w repo commitid owner) ≡ verdict (check_owner w repo commitid owner)
unfolding allow_owner check_owner
same_owner w repo commitid owner = elim (Option-cases (find_plan owner.plan)) [
  | inl e ↦ ground arith
  | inr (p, e) ↦ ground (arith, Option-cases p.monthly_uploads_limit)
]

-- The throttle of the views lets a request pass exactly where the check of the commands raises
-- nothing, or finds no row; all other exceptions are the same.
pub window_allow_request-check :
    (settings : UploadSettings) (fuel : ℕ) (w : World) (repo : Repository) (commitid : String)
    → window_allow_request settings fuel w (ok (repo, commitid))
      ≡ Option.map verdict (check_commit_upload_constraints settings fuel w repo commitid)
unfolding window_allow_request check_commit_upload_constraints
window_allow_request-check settings fuel w repo commitid =
    go settings.throttling_enabled repo.private (determine_responsible_owner fuel w repo) refl
  where
    go :
        (a b : Bool) (r : Option (Outcome Owner))
        → determine_responsible_owner fuel w repo ≡ r
        → (if a && b
            then elim r as (λ _. Option (Outcome Bool)) [
              | none ↦ none
              | some (err e) ↦ some (or_allow (err e))
              | some (ok owner) ↦ some (or_allow (allow_owner w repo commitid owner))
            ]
            else some (ok true))
          ≡ Option.map verdict (
              if not a || not b
              then some (ok tt)
              else elim r as (λ _. Option (Outcome (Unit {0}))) [
                | none ↦ none
                | some (err e) ↦ some (err e)
                | some (ok owner) ↦ some (check_owner w repo commitid owner)
              ])
    go false b r e = refl
    go true false r e = refl
    go true true none e = refl
    go true true (some (err x)) e =
        ap (λ (k : Outcome Bool). some k) (author_Agrees fuel w repo x e)
    go true true (some (ok owner)) e =
        ap (λ (k : Outcome Bool). some k) (same_owner w repo commitid owner)
