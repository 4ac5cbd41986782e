-- ===== src/Hooks/Members.antt =====
-- webhook_handlers/views/github.py: what the removal of a member writes to the rows of owners.
use mathlib.Core.Option
use codecov_api.Base.{
  Bool, Bool-cases, List, Option, [], ap, arith, erase, false, if◌then◌else◌, inl, inr, length, mem,
  none, refl, select, some, subst, sym, true, ℕ, ◌==◌, ◌∙◌, ◌∷◌, ◌≡◌,
}
use codecov_api.Owner.{Owner}
use codecov_api.Seats.Count.{IsUnique, length-select_mono, row_of}
use codecov_api.Hooks.{save_owner, update_where}
use codecov_api.Store.{World}
use codecov_api.Seats.{activated_user_count, listed, remove_id, seated}
use codecov_api.Hooks.Github.Accounts.{remove_member}
use codecov_api.Seats.Cloud.{IsWithinSeats, seats}

module _ (f : Owner → Owner) (same_key : (o : Owner) → (f o).ownerid ≡ o.ownerid) where
  row_of_other :
      (i j : ℕ) (rows : List Owner)
      → (j == i) ≡ false
      → row_of j (update_where (λ (o : Owner). o.ownerid == i) f rows) ≡ row_of j rows
  unfolding update_where
  row_of_other i j [] e = refl
  row_of_other i j (o ∷ rows) e = ground (arith, row_of_other i j rows e, same_key o)

  row_of_updated :
      (i : ℕ) (rows : List Owner)
      → row_of i (update_where (λ (o : Owner). o.ownerid == i) f rows)
        ≡ Option.map f (row_of i rows)
  unfolding update_where
  row_of_updated i [] = refl
  row_of_updated i (o ∷ rows) = ground (arith, row_of_updated i rows, same_key o)

  length-select-update_where :
      (p : Owner → Bool) (i : ℕ) (rows : List Owner)
      → ((o : Owner) → p (f o) ≡ p o)
      → length (select p (update_where (λ (o : Owner). o.ownerid == i) f rows))
        ≡ length (select p rows)
  unfolding update_where
  length-select-update_where p i [] e = refl
  length-select-update_where p i (o ∷ rows) e =
      ground (arith, length-select-update_where p i rows e, e o)

length-select-if :
    (f : Owner → Owner) (same_key : (o : Owner) → (f o).ownerid ≡ o.ownerid) (p : Owner → Bool)
    (same : (o : Owner) → p (f o) ≡ p o) (b : Bool) (i : ℕ) (rows : List Owner)
    → length (select p (if b then update_where (λ (o : Owner). o.ownerid == i) f rows else rows))
      ≡ length (select p rows)
length-select-if f same_key p same true i rows = length-select-update_where f same_key p i rows same
length-select-if f same_key p same false i rows = refl

mem-erase_self : (n : ℕ) (ids : List ℕ) → IsUnique ids → mem n (erase n ids) ≡ false
mem-erase_self n [] u = refl
mem-erase_self n (i ∷ ids) u = ground (arith, mem-erase_self n ids u.1, u.0)

mem-erase_le : (n m : ℕ) (ids : List ℕ) → mem m (erase n ids) ≡ true → mem m ids ≡ true
mem-erase_le n m [] h = h
mem-erase_le n m (i ∷ ids) h = ground (arith, mem-erase_le n m ids)

erased :
    (n : ℕ) (ids : Option (List ℕ))
    → IsUnique (listed ids)
    → mem n (listed (remove_id n ids)) ≡ false
erased n none u = refl
erased n (some ids) u = mem-erase_self n ids u

erased_le :
    (n m : ℕ) (ids : Option (List ℕ))
    → mem m (listed (remove_id n ids)) ≡ true
    → mem m (listed ids) ≡ true
erased_le n m none h = h
erased_le n m (some ids) h = mem-erase_le n m ids h

-- A column that an update does not write is as before.
column :
    {A : Type 0} (i : ℕ) (f : Owner → Owner) (same_key : (o : Owner) → (f o).ownerid ≡ o.ownerid)
    (c : Owner → A) (same : (o : Owner) → c (f o) ≡ c o) (b : Bool) (j : ℕ) (rows : List Owner)
    (r : Owner)
    → row_of j (if b then update_where (λ (o : Owner). o.ownerid == i) f rows else rows) ≡ some r
    → (q : Owner) × (row_of j rows ≡ some q) × (c r ≡ c q)
column i f same_key c same false j rows r h = (r, h, refl)
column i f same_key c same true j rows r h = go (j == i) refl (row_of j rows) refl
  where
    go :
        (t : Bool)
        → (j == i) ≡ t
        → (o : Option Owner) → row_of j rows ≡ o
        → (q : Owner) × (row_of j rows ≡ some q) × (c r ≡ c q)
    go false e o k = (r, sym (row_of_other f same_key i j rows e) ∙ h, refl)
    go true e none k = absurd (ground (arith, row_of_updated f same_key i rows))
    go true e (some q) k = (q, k, ground (arith, row_of_updated f same_key i rows, same q))

-- The rows after the member's row is written, and after both are.
abbrev left : Owner → Owner → List Owner → List Owner
left org member rows =
    if mem org.ownerid (listed member.organizations)
    then update_where (λ (o : Owner). o.ownerid == member.ownerid)
        (λ o. record o { organizations = remove_id org.ownerid member.organizations }) rows
    else rows

abbrev released : Owner → Owner → List Owner → List Owner
released org member rows =
    if mem member.ownerid (listed org.plan_activated_users)
    then update_where (λ (o : Owner). o.ownerid == org.ownerid)
        (λ o. record o { plan_activated_users = remove_id member.ownerid org.plan_activated_users })
        rows
    else rows

remove_member_rows :
    (org member : Owner) (w : World)
    → (remove_member org member w).1.owners ≡ released org member (left org member w.owners)
unfolding remove_member save_owner
remove_member_rows org member w = ground arith

left_organizations :
    (org member : Owner) (rows : List Owner)
    → row_of member.ownerid rows ≡ some member
    → IsUnique (listed member.organizations)
    → (r : Owner) → row_of member.ownerid (left org member rows) ≡ some r
    → mem org.ownerid (listed r.organizations) ≡ false
left_organizations org member rows stored u r f =
    elim (Bool-cases (mem org.ownerid (listed member.organizations))) [
      | inl e ↦ ground (
        arith,
        erased org.ownerid member.organizations u,
        row_of_updated
            (λ o. record o { organizations = remove_id org.ownerid member.organizations })
            (λ o. refl) member.ownerid rows,
      )
      | inr e ↦ ground arith
    ]

left_activated :
    (org member : Owner) (rows : List Owner) (i : ℕ) (r : Owner)
    → row_of i (left org member rows) ≡ some r
    → (q : Owner) × (row_of i rows ≡ some q) × (r.plan_activated_users ≡ q.plan_activated_users)
left_activated org member rows i r f =
    column member.ownerid
      (λ o. record o { organizations = remove_id org.ownerid member.organizations }) (λ o. refl)
      (λ o. o.plan_activated_users) (λ o. refl) (mem org.ownerid (listed member.organizations)) i
      rows r f

released_activated :
    (org member : Owner) (rows : List Owner) (r q : Owner)
    → row_of org.ownerid rows ≡ some q
    → q.plan_activated_users ≡ org.plan_activated_users
    → IsUnique (listed org.plan_activated_users)
    → row_of org.ownerid (released org member rows) ≡ some r
    → mem member.ownerid (listed r.plan_activated_users) ≡ false
released_activated org member rows r q stored e u f =
    elim (Bool-cases (mem member.ownerid (listed org.plan_activated_users))) [
      | inl e' ↦ ground (
        arith,
        erased member.ownerid org.plan_activated_users u,
        row_of_updated
            (λ o. record o {
              plan_activated_users = remove_id member.ownerid org.plan_activated_users;
            })
            (λ o. refl) org.ownerid rows,
      )
      | inr e' ↦ ground arith
    ]

released_organizations :
    (org member : Owner) (rows : List Owner) (i : ℕ) (r : Owner)
    → row_of i (released org member rows) ≡ some r
    → (q : Owner) × (row_of i rows ≡ some q) × (r.organizations ≡ q.organizations)
released_organizations org member rows i r f =
    column org.ownerid
      (λ o. record o { plan_activated_users = remove_id member.ownerid org.plan_activated_users })
      (λ o. refl) (λ o. o.organizations) (λ o. refl)
      (mem member.ownerid (listed org.plan_activated_users)) i rows r f

left_seats :
    (org member : Owner) (rows : List Owner) (i : ℕ) (r : Owner)
    → row_of i (left org member rows) ≡ some r
    → (q : Owner) × (row_of i rows ≡ some q) × (seats r ≡ seats q)
left_seats org member rows i r f =
    column member.ownerid
      (λ o. record o { organizations = remove_id org.ownerid member.organizations }) (λ o. refl)
      seats (λ o. refl) (mem org.ownerid (listed member.organizations)) i rows r f

released_seats :
    (org member : Owner) (rows : List Owner) (i : ℕ) (r : Owner)
    → row_of i (released org member rows) ≡ some r
    → (q : Owner) × (row_of i rows ≡ some q) × (seats r ≡ seats q)
released_seats org member rows i r f =
    column org.ownerid
      (λ o. record o { plan_activated_users = remove_id member.ownerid org.plan_activated_users })
      (λ o. refl) seats (λ o. refl) (mem member.ownerid (listed org.plan_activated_users)) i rows r
      f

-- The ids of the organisation's row after it is written are among those before.
released_ids :
    (org member : Owner) (rows : List Owner) (r q : Owner)
    → row_of org.ownerid rows ≡ some q
    → q.plan_activated_users ≡ org.plan_activated_users
    → row_of org.ownerid (released org member rows) ≡ some r
    → (i : ℕ) → mem i (listed r.plan_activated_users) ≡ true
    → mem i (listed org.plan_activated_users) ≡ true
released_ids org member rows r q stored e f i h =
    elim (Bool-cases (mem member.ownerid (listed org.plan_activated_users))) [
      | inl e' ↦ erased_le member.ownerid i org.plan_activated_users (
          ground (
            arith,
            row_of_updated
                (λ o. record o {
                  plan_activated_users = remove_id member.ownerid org.plan_activated_users;
                })
                (λ o. refl) org.ownerid rows,
          ))
      | inr e' ↦ ground arith
    ]

-- Who is seated does not depend on the rows that are written.
count_seated :
    (org member : Owner) (ids : List ℕ) (rows : List Owner)
    → length (select (seated ids) (released org member (left org member rows)))
      ≡ length (select (seated ids) rows)
count_seated org member ids rows =
    length-select-if
      (λ o. record o { plan_activated_users = remove_id member.ownerid org.plan_activated_users })
      (λ o. refl) (seated ids) (λ o. refl) (mem member.ownerid (listed org.plan_activated_users))
      org.ownerid (left org member rows)
    ∙ length-select-if
        (λ o. record o { organizations = remove_id org.ownerid member.organizations }) (λ o. refl)
        (seated ids) (λ o. refl) (mem org.ownerid (listed member.organizations)) member.ownerid rows

module _ (org member : Owner) (w : World) (org_row : row_of org.ownerid w.owners ≡ some org)
    (member_row : row_of member.ownerid w.owners ≡ some member) where
  -- The organisation's row after the member's is written.
  left_row :
      (q : Owner)
      → row_of org.ownerid (left org member w.owners) ≡ some q
      → (q.plan_activated_users ≡ org.plan_activated_users) × (seats q ≡ seats org)
  left_row q sq =
      let (o, so, e) = left_activated org member w.owners org.ownerid q sq in
      let (o', so', e') = left_seats org member w.owners org.ownerid q sq in
      (ground (arith, e, so, org_row), ground (arith, e', so', org_row))

  removed_seat :
      IsUnique (listed org.plan_activated_users)
      → (r : Owner) → row_of org.ownerid (released org member (left org member w.owners)) ≡ some r
      → mem member.ownerid (listed r.plan_activated_users) ≡ false
  removed_seat u r f =
      let (q, sq, _) =
        released_organizations org member (left org member w.owners) org.ownerid r f in
      released_activated org member (left org member w.owners) r q sq (left_row q sq).0 u f

  removed_organization :
      IsUnique (listed member.organizations)
      → (r : Owner)
      → row_of member.ownerid (released org member (left org member w.owners)) ≡ some r
      → mem org.ownerid (listed r.organizations) ≡ false
  removed_organization u r f =
      let (q, sq, e) =
        released_organizations org member (left org member w.owners) member.ownerid r f in
      ap (λ (o : Option (List ℕ)). mem org.ownerid (listed o)) e
      ∙ left_organizations org member w.owners member_row u q sq

  -- Where no id is listed twice, after a member is removed from an organisation, the organisation's
  -- row does not list the member as activated, and the member's row does not list the organisation.
  pub remove_member-removes :
      IsUnique (listed org.plan_activated_users)
      → IsUnique (listed member.organizations)
      → (r q : Owner) → row_of org.ownerid (remove_member org member w).1.owners ≡ some r
      → row_of member.ownerid (remove_member org member w).1.owners ≡ some q
      → (mem member.ownerid (listed r.plan_activated_users) ≡ false)
        × (mem org.ownerid (listed q.organizations) ≡ false)
  remove_member-removes u v r q f g = (
    removed_seat u r (rw (remove_member_rows org member w) at f),
    removed_organization v q (rw (remove_member_rows org member w) at g),
  )

  removed_within :
      IsWithinSeats org w.owners
      → (r : Owner) → row_of org.ownerid (released org member (left org member w.owners)) ≡ some r
      → IsWithinSeats r (released org member (left org member w.owners))
  unfolding activated_user_count
  removed_within within r f n e =
      let (q, sq, e') = released_seats org member (left org member w.owners) org.ownerid r f in
      let (ids, room) = left_row q sq in
      omega (
        arith,
        within n (sym room ∙ (sym e' ∙ e)),
        count_seated org member (listed org.plan_activated_users) w.owners,
        length-select_mono (seated (listed r.plan_activated_users))
            (seated (listed org.plan_activated_users))
            (λ o h.
              ground
                (arith, released_ids org member (left org member w.owners) r q sq ids f o.ownerid))
            (released org member (left org member w.owners)),
      )

  -- The removal of a member keeps the organisation within its seats.
  pub remove_member-IsWithinSeats :
      IsWithinSeats org w.owners
      → (r : Owner) → row_of org.ownerid (remove_member org member w).1.owners ≡ some r
      → IsWithinSeats r (remove_member org member w).1.owners
  remove_member-IsWithinSeats within r f =
      subst (λ (rows : List Owner). IsWithinSeats r rows) (sym (remove_member_rows org member w))
        (removed_within within r (rw (remove_member_rows org member w) at f))
