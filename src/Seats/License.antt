-- ===== src/Seats/License.antt =====
-- services/self_hosted.py: the licence bounds the activated users, and deactivation frees a seat.
use codecov_api.Base.{
  Bool, List, Option, [], arith, false, if◌then◌else◌, inl, inr, length, mem, mem-append, refl,
  select, true, ℕ, ◌&&◌, ◌+◌, ◌==◌, ◌||◌, ◌∷◌, ◌≡◌, ◌≤◌, ◌⊎◌,
}
use codecov_api.Owner.{Owner}
use codecov_api.Store.{World}
use codecov_api.Seats.{listed}
use codecov_api.Seats.Count.{
  IsUnique, keys, length-select-key, length-select-or, length-select_mono,
}
use codecov_api.Seats.SelfHosted.{
  activate_owner, activate_rows, activated_owners, can_activate_owner, deactivate_owner,
  deactivate_rows, holds, is_activated_owner, license_seats, remove_all,
}

keys-activate_rows :
    (i : ℕ) (orgs : List ℕ) (rows : List Owner) → keys (activate_rows i orgs rows) ≡ keys rows
unfolding activate_rows
keys-activate_rows i orgs [] = refl
keys-activate_rows i orgs (o ∷ rows) = ground (arith, keys-activate_rows i orgs rows)

keys-deactivate_rows : (i : ℕ) (rows : List Owner) → keys (deactivate_rows i rows) ≡ keys rows
unfolding deactivate_rows
keys-deactivate_rows i [] = refl
keys-deactivate_rows i (o ∷ rows) = ground (arith, keys-deactivate_rows i rows)

mem-remove_all :
    (i j : ℕ) (ids : List ℕ) → mem j (remove_all i ids) ≡ (if j == i then false else mem j ids)
mem-remove_all i j [] = ground arith
mem-remove_all i j (k ∷ ids) = ground (arith, mem-remove_all i j ids)

holds-activate_rows :
    (i j : ℕ) (orgs : List ℕ) (rows : List Owner)
    → holds j (activate_rows i orgs rows) ≡ true
    → (holds j rows || (j == i)) ≡ true
unfolding activate_rows
holds-activate_rows i j orgs [] h = cc
holds-activate_rows i j orgs (o ∷ rows) h = ground (
  arith,
  holds-activate_rows i j orgs rows,
  mem-append j (remove_all i (listed o.plan_activated_users)) (i ∷ []),
  mem-remove_all i j (listed o.plan_activated_users),
)

holds-deactivate_rows :
    (i j : ℕ) (rows : List Owner)
    → holds j (deactivate_rows i rows) ≡ (if j == i then false else holds j rows)
unfolding deactivate_rows
holds-deactivate_rows i j [] = ground arith
holds-deactivate_rows i j (o ∷ rows) =
    ground
      (arith, holds-deactivate_rows i j rows, mem-remove_all i j (listed o.plan_activated_users))

mem-select : (i : ℕ) (p : ℕ → Bool) (ids : List ℕ) → mem i (select p ids) ≡ (mem i ids && p i)
mem-select i p [] = refl
mem-select i p (j ∷ ids) = ground (arith, mem-select i p ids)

-- No more users are activated than the licence allows.
abbrev pub IsLicensed : Option ℕ → List Owner → Type 0
IsLicensed allowed rows = length (activated_owners rows) ≤ license_seats allowed

module _ (allowed : Option ℕ) (owner : Owner) (orgs : List ℕ) (rows : List Owner) where
  abbrev after : List Owner
  after = activate_rows owner.ownerid orgs rows

  -- The users activated after the call are those before it, and the owner.
  activated_after :
      IsUnique (keys rows) → length (activated_owners after) ≤ length (activated_owners rows) + 1
  unfolding activated_owners
  activated_after u = rw (keys-activate_rows owner.ownerid orgs rows) (
      omega (
        arith,
        length-select-or {0} (λ j. holds j after) (λ j. holds j rows) (λ j. j == owner.ownerid)
            (λ j. holds-activate_rows owner.ownerid j orgs rows) (keys rows),
        length-select-key owner.ownerid (keys rows) u,
      ))

  holds-after :
      is_activated_owner owner.ownerid rows ≡ true
      → (j : ℕ) → holds j after ≡ true
      → holds j rows ≡ true
  unfolding is_activated_owner activated_owners
  holds-after a j h = ground (
    arith,
    holds-activate_rows owner.ownerid j orgs rows,
    mem-select owner.ownerid (λ i. holds i rows) (keys rows),
  )

  activated_again :
      is_activated_owner owner.ownerid rows ≡ true
      → length (activated_owners after) ≤ length (activated_owners rows)
  unfolding activated_owners
  activated_again a =
      rw (keys-activate_rows owner.ownerid orgs rows)
        (length-select_mono (λ j. holds j after) (λ j. holds j rows) (holds-after a) (keys rows))

  activate_rows-IsLicensed :
      IsUnique (keys rows)
      → can_activate_owner allowed owner.ownerid rows ≡ true
      → IsLicensed allowed rows
      → IsLicensed allowed after
  unfolding can_activate_owner
  activate_rows-IsLicensed u room h = ground (arith, activated_after u, activated_again)

activate_owner_rows :
    (enterprise : Bool) (allowed : Option ℕ) (owner : Owner) (w : World)
    → ((activate_owner enterprise allowed owner w).1.owners ≡ w.owners)
      ⊎ (((activate_owner enterprise allowed owner w).1.owners
            ≡ activate_rows owner.ownerid (listed owner.organizations) w.owners)
          × (can_activate_owner allowed owner.ownerid w.owners ≡ true))
unfolding activate_owner
activate_owner_rows enterprise allowed owner w = ground arith

-- Where no two rows have one key: activation of an owner never brings the users that are activated
-- anywhere above the licence, whatever organisations the owner belongs to and whether the call
-- succeeds or raises.
pub activate_owner-IsLicensed :
    (enterprise : Bool) (allowed : Option ℕ) (owner : Owner) (w : World)
    → IsUnique (keys w.owners)
    → IsLicensed allowed w.owners
    → IsLicensed allowed (activate_owner enterprise allowed owner w).1.owners
activate_owner-IsLicensed enterprise allowed owner w u h =
    elim (activate_owner_rows enterprise allowed owner w) [
      | inl e ↦ rw e h
      | inr (e, room) ↦
          rw e
            (activate_rows-IsLicensed allowed owner (listed owner.organizations) w.owners u room h)
    ]

-- Deactivation frees exactly the owner's seat: the owner is activated nowhere afterwards, and every
-- other user is as before.
pub is_activated_owner-deactivate_owner :
    (allowed : Option ℕ) (owner : Owner) (w : World) (i : ℕ)
    → is_activated_owner i (deactivate_owner true allowed owner w).1.owners
      ≡ (if i == owner.ownerid then false else is_activated_owner i w.owners)
unfolding deactivate_owner is_activated_owner activated_owners
is_activated_owner-deactivate_owner allowed owner w i = ground (
  arith,
  mem-select i (λ j. holds j (deactivate_rows owner.ownerid w.owners))
      (keys (deactivate_rows owner.ownerid w.owners)),
  mem-select i (λ j. holds j w.owners) (keys w.owners),
  holds-deactivate_rows owner.ownerid i w.owners,
  keys-deactivate_rows owner.ownerid w.owners,
)
