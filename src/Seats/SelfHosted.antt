-- ===== src/Seats/SelfHosted.antt =====
-- services/self_hosted.py: activation in a self-hosted installation, where the licence bounds the
-- users that are activated in any organisation. The licence comes from the library `shared`, so
-- the number of seats that it allows is a parameter.
use codecov_api.Base.{
  Bool, List, Option, [], false, if◌then◌else◌, is_true, length, ltb, mem, none, not, select, some,
  true, ℕ, ◌++◌, ◌==◌, ◌||◌, ◌∷◌,
}
use codecov_api.Owner.{Owner}
use codecov_api.Store.{Exec, err, license_error, ok, permission_denied, type_error}
use codecov_api.Seats.{listed}
use codecov_api.Seats.Count.{keys}

-- The id stands in some organisation's `plan_activated_users`.
abbrev pub holds : ℕ → List Owner → Bool
holds i [] = false
holds i (o ∷ rows) = mem i (listed o.plan_activated_users) || holds i rows

-- activated_owners: the keys of the owners that are activated in any organisation.
unfoldable pub activated_owners : List Owner → List ℕ
activated_owners rows = select (λ i. holds i rows) (keys rows)

-- is_activated_owner
unfoldable pub is_activated_owner : ℕ → List Owner → Bool
unfolding activated_owners
is_activated_owner i rows = mem i (activated_owners rows)

-- license_seats
abbrev pub license_seats : Option ℕ → ℕ
license_seats none = 0
license_seats (some n) = n

-- can_activate_owner
unfoldable pub can_activate_owner : Option ℕ → ℕ → List Owner → Bool
unfolding is_activated_owner activated_owners
can_activate_owner allowed i rows =
    if is_activated_owner i rows
    then true
    else ltb (length (activated_owners rows)) (license_seats allowed)

abbrev pub remove_all : ℕ → List ℕ → List ℕ
remove_all i [] = []
remove_all i (j ∷ ids) = if i == j then remove_all i ids else j ∷ remove_all i ids

-- The database's function array_append_unique.
abbrev pub array_append_unique : Option (List ℕ) → ℕ → Option (List ℕ)
array_append_unique ids i = some (remove_all i (listed ids) ++ i ∷ [])

-- The database's function array_remove.
abbrev pub array_remove : Option (List ℕ) → ℕ → Option (List ℕ)
array_remove none i = none
array_remove (some ids) i = some (remove_all i ids)

-- The rows after activation in the organisations `orgs`.
unfoldable pub activate_rows : ℕ → List ℕ → List Owner → List Owner
activate_rows i orgs [] = []
activate_rows i orgs (o ∷ rows) =
    (if mem o.ownerid orgs
      then record o { plan_activated_users = array_append_unique o.plan_activated_users i }
      else o)
    ∷ activate_rows i orgs rows

-- The rows after deactivation everywhere.
unfoldable pub deactivate_rows : ℕ → List Owner → List Owner
deactivate_rows i [] = []
deactivate_rows i (o ∷ rows) =
    (if mem i (listed o.plan_activated_users)
      then record o { plan_activated_users = array_remove o.plan_activated_users i }
      else o)
    ∷ deactivate_rows i rows

module _ (is_enterprise : Bool) (allowed : Option ℕ) where
  -- activate_owner
  unfoldable pub activate_owner : Owner → Exec (Unit {0})
  unfolding can_activate_owner activate_rows
  activate_owner owner w =
      if not is_enterprise
      then (err permission_denied, w)
      else if not (can_activate_owner allowed owner.ownerid w.owners)
      then (err license_error, w)
      else (elim owner.organizations [
        | none ↦ (err type_error, w)
        | some orgs ↦ (ok tt, record w { owners = activate_rows owner.ownerid orgs w.owners })
      ])

  -- deactivate_owner
  unfoldable pub deactivate_owner : Owner → Exec (Unit {0})
  unfolding deactivate_rows
  deactivate_owner owner w =
      if not is_enterprise
      then (err permission_denied, w)
      else (ok tt, record w { owners = deactivate_rows owner.ownerid w.owners })

-- enable_autoactivation (true) and disable_autoactivation (false)
unfoldable pub set_autoactivation : Bool → List Owner → List Owner
set_autoactivation b [] = []
set_autoactivation b (o ∷ rows) =
    record o { plan_auto_activate = some b } ∷ set_autoactivation b rows

-- is_autoactivation_enabled
unfoldable pub is_autoactivation_enabled : List Owner → Bool
is_autoactivation_enabled [] = false
is_autoactivation_enabled (o ∷ rows) =
    is_true o.plan_auto_activate || is_autoactivation_enabled rows
