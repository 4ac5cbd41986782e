-- ===== src/Seats/Cloud.antt =====
-- services/activation.py with `CloudActivator`: automatic activation, and the seats it may take.
use codecov_api.Base.{
  All, Bool, List, Option, [], arith, false, if◌then◌else◌, inl, inr, is_true, length, mem,
  mem-append, none, refl, select, some, subst, true, ℕ, ◌+◌, ◌==◌, ◌||◌, ◌∷◌, ◌≡◌, ◌≤◌, ◌⊎◌,
}
use codecov_api.Owner.{Owner}
use codecov_api.Store.{
  Exec, Outcome, World, account_activated_user, err, ok, pure, put_owner, track, type_error, ◌>>=◌,
  ◌>>◌,
}
use codecov_api.Seats.{
  activate_user, activated_user_count, add_id, can_activate_user, listed, seated,
}
use codecov_api.Seats.Count.{
  IsUnique, keys, length-select-key, length-select-keys, length-select-or, length-select-put_owner,
  length-select_mono_All, row_of, row_of-All, row_of-put_owner,
}

-- CloudActivator.is_activated: a missing list raises a TypeError.
unfoldable pub is_activated : Owner → Owner → Outcome Bool
is_activated org owner = elim org.plan_activated_users [
  | none ↦ err type_error
  | some ids ↦ ok (mem owner.ownerid ids)
]

take_seat : Owner → Owner → Bool → Exec Bool
unfolding activate_user
take_seat org owner true = do
  org' ← activate_user org owner
  track (account_activated_user owner.ownerid org.ownerid)
  pure true
take_seat org owner false = pure false

-- try_auto_activate with `CloudActivator`.
unfoldable pub try_auto_activate : Owner → Owner → Exec Bool
unfolding take_seat can_activate_user
try_auto_activate org owner =
    if is_true org.plan_auto_activate
    then (do room ← can_activate_user org owner; take_seat org owner room)
    else pure false

seated_added :
    (i : ℕ) (ids : Option (List ℕ)) (o : Owner)
    → seated (add_id i ids) o ≡ true
    → (seated (listed ids) o || (o.ownerid == i)) ≡ true
seated_added i none o h = ground arith
seated_added i (some ids) o h = ground (arith, mem-append o.ownerid ids (i ∷ []))

-- One more id takes at most one more seat.
length-seated-add :
    (i : ℕ) (ids : Option (List ℕ)) (rows : List Owner)
    → IsUnique (keys rows)
    → length (select (seated (add_id i ids)) rows) ≤ length (select (seated (listed ids)) rows) + 1
length-seated-add i ids rows u = omega (
  arith,
  length-select-or {0} (seated (add_id i ids)) (seated (listed ids)) (λ (o : Owner). o.ownerid == i)
      (seated_added i ids) rows,
  length-select-keys i rows,
  length-select-key i (keys rows) u,
)

-- The id of a student takes none.
seated_student :
    (i : ℕ) (ids : Option (List ℕ)) (o : Owner)
    → ((o.ownerid == i) ≡ true → o.student ≡ true)
    → seated (add_id i ids) o ≡ true
    → seated (listed ids) o ≡ true
seated_student i none o s h = ground arith
seated_student i (some ids) o s h = ground (arith, mem-append o.ownerid ids (i ∷ []))

-- The seats that the organisation has paid for or been given.
abbrev pub seats : Owner → Option ℕ
seats org = elim org.plan_user_count [ none ↦ none | some n ↦ some (n + org.free) ]

-- The number of seats taken is within the number that the organisation has.
abbrev pub IsWithinSeats : Owner → List Owner → Type 0
IsWithinSeats org rows = (n : ℕ) → seats org ≡ some n → activated_user_count org rows ≤ n

-- A key has one row.
same_row :
    (i : ℕ) (o r : Owner) (rows : List Owner)
    → row_of i rows ≡ some o
    → row_of i rows ≡ some r
    → IsWithinSeats o rows
    → IsWithinSeats r rows
same_row i o r rows p q h = subst (λ x. IsWithinSeats x rows) (ground arith) h

module _ (org user : Owner) (w : World) (unique : IsUnique (keys w.owners))
    (stored : row_of org.ownerid w.owners ≡ some org)
    (known : row_of user.ownerid w.owners ≡ some user) where
  abbrev new_ids : List ℕ
  new_ids = add_id user.ownerid org.plan_activated_users

  abbrev activated : Owner
  activated = record org { plan_activated_users = some new_ids; updatestamp = w.now }

  student_takes_none :
      user.student ≡ true
      → length (select (seated new_ids) w.owners)
        ≤ length (select (seated (listed org.plan_activated_users)) w.owners)
  student_takes_none s =
      length-select_mono_All (seated new_ids) (seated (listed org.plan_activated_users)) w.owners (
        weaken w.owners
          (row_of-All (λ o. o.student ≡ true) user.ownerid w.owners user unique known s))
    where
      weaken :
          (rows : List Owner)
          → All (λ o. (o.ownerid == user.ownerid) ≡ true → o.student ≡ true) rows
          → All
              (λ o. seated new_ids o ≡ true → seated (listed org.plan_activated_users) o ≡ true)
              rows
      weaken [] h = tt
      weaken (o ∷ rows) h =
          (seated_student user.ownerid org.plan_activated_users o h.0, weaken rows h.1)

  -- The count of seats after the activated organisation is saved.
  count_after :
      activated_user_count activated (put_owner activated w.owners)
      ≡ length (select (seated new_ids) w.owners)
  unfolding activated_user_count
  count_after = length-select-put_owner (seated new_ids) activated org w.owners stored refl

  activated_within :
      IsWithinSeats org w.owners
      → (can_activate_user org user w).0 ≡ ok true
      → IsWithinSeats activated (put_owner activated w.owners)
  unfolding can_activate_user activated_user_count
  activated_within within room n e = ground (
    arith,
    count_after,
    within n e,
    student_takes_none,
    length-seated-add user.ownerid org.plan_activated_users w.owners unique,
  )

  -- The rows after the call: those before it, or those with the activated organisation.
  try_auto_activate_rows :
      ((try_auto_activate org user w).1.owners ≡ w.owners)
      ⊎ (((try_auto_activate org user w).1.owners ≡ put_owner activated w.owners)
          × ((can_activate_user org user w).0 ≡ ok true))
  unfolding try_auto_activate
  try_auto_activate_rows = ground arith

  -- Where no two rows have one key and the organisation and the user are as in their rows: if the
  -- organisation is within its seats, then after automatic activation, whether it activates the
  -- user or not, the organisation's row is within its seats. Students take no seat.
  pub try_auto_activate-IsWithinSeats :
      IsWithinSeats org w.owners
      → (r : Owner) → row_of org.ownerid (try_auto_activate org user w).1.owners ≡ some r
      → IsWithinSeats r (try_auto_activate org user w).1.owners
  try_auto_activate-IsWithinSeats within r f = elim try_auto_activate_rows [
    | inl e ↦ rw e (same_row org.ownerid org r w.owners stored (rw e at f) within)
    | inr (e, room) ↦ rw e (
        same_row org.ownerid activated r (put_owner activated w.owners)
          (row_of-put_owner activated w.owners) (rw e at f) (activated_within within room))
  ]
