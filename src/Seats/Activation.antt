-- ===== src/Seats/Activation.antt =====
-- services/activation.py: automatic activation, in the cloud or in a self-hosted installation.
use codecov_api.Base.{Bool, Option, arith, false, if◌then◌else◌, inl, inr, true, ℕ, ◌&&◌, ◌≡◌, ◌⊎◌}
use codecov_api.Owner.{Owner}
use codecov_api.Store.{Exec, World, account_activated_user, ok, pure, track, ◌>>=◌, ◌>>◌}
use codecov_api.Seats.Count.{IsUnique, keys}
use codecov_api.Seats.Cloud.{is_activated, try_auto_activate}
use codecov_api.Seats.SelfHosted.{
  activate_owner, can_activate_owner, is_activated_owner, is_autoactivation_enabled,
}
use codecov_api.Seats.License.{IsLicensed, activate_owner-IsLicensed}

-- The activator of a self-hosted installation does the work of `try_auto_activate`.
unfoldable pub try_auto_activate_self_hosted : Option ℕ → Owner → Owner → Exec Bool
unfolding is_autoactivation_enabled can_activate_owner activate_owner
try_auto_activate_self_hosted allowed org owner w =
    if is_autoactivation_enabled w.owners && can_activate_owner allowed owner.ownerid w.owners
    then (do
      _ ← activate_owner true allowed owner
      track (account_activated_user owner.ownerid org.ownerid)
      pure true)
        w
    else (ok false, w)

-- try_auto_activate, with the activator of _get_activator
unfoldable pub activate_automatically : Bool → Option ℕ → Owner → Owner → Exec Bool
unfolding try_auto_activate_self_hosted try_auto_activate
activate_automatically is_enterprise allowed org owner =
    if is_enterprise
    then try_auto_activate_self_hosted allowed org owner
    else try_auto_activate org owner

-- is_activated, with the activator of _get_activator
unfoldable pub is_activated_anywhere : Bool → Owner → Owner → Exec Bool
unfolding is_activated is_activated_owner
is_activated_anywhere is_enterprise org owner w =
    if is_enterprise
    then (ok (is_activated_owner owner.ownerid w.owners), w)
    else (is_activated org owner, w)

rows_after :
    (allowed : Option ℕ) (org owner : Owner) (w : World)
    → ((activate_automatically true allowed org owner w).1.owners ≡ w.owners)
      ⊎ ((activate_automatically true allowed org owner w).1.owners
          ≡ (activate_owner true allowed owner w).1.owners)
unfolding activate_automatically
rows_after allowed org owner w = ground arith

-- Where no two rows have one key: automatic activation in a self-hosted installation never brings
-- the activated users above the licence, whatever it answers.
pub activate_automatically-IsLicensed :
    (allowed : Option ℕ) (org owner : Owner) (w : World)
    → IsUnique (keys w.owners)
    → IsLicensed allowed w.owners
    → IsLicensed allowed (activate_automatically true allowed org owner w).1.owners
activate_automatically-IsLicensed allowed org owner w u h = elim (rows_after allowed org owner w) [
  | inl e ↦ rw e h
  | inr e ↦ rw e (activate_owner-IsLicensed true allowed owner w u h)
]
