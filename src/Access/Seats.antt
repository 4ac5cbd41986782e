-- ===== src/Access/Seats.antt =====
-- api/shared/permissions.py: the seats that checks of access give out.
use codecov_api.Base.{
  Bool, Bool-cases, List, Option, [], arith, if◌then◌else◌, inl, inr, length, refl, select, some,
  subst, sym, ℕ, ◌++◌, ◌==◌, ◌∙◌, ◌∷◌, ◌≡◌, ◌⊎◌,
}
use codecov_api.Owner.{Owner, Repository}
use codecov_api.Store.{World, update_rows}
use codecov_api.Access.{Provider, has_permission, has_read_permissions, may_use}
use codecov_api.Seats.{activated_user_count, listed, seated}
use codecov_api.Seats.Count.{IsUnique, keys, row_of}
use codecov_api.Seats.Cloud.{IsWithinSeats, try_auto_activate, try_auto_activate-IsWithinSeats}

abbrev permit : Option (List ℕ) → Owner → Owner
permit p r = record r { permission = p }

abbrev permitted : ℕ → Option (List ℕ) → List Owner → List Owner
permitted i p rows = update_rows (λ r. r.ownerid == i) (permit p) rows

abbrev AreWithinSeats : ℕ → List Owner → Type 0
AreWithinSeats i rows = (r : Owner) → row_of i rows ≡ some r → IsWithinSeats r rows

count_permitted :
    (ids : List ℕ) (i : ℕ) (p : Option (List ℕ)) (rows : List Owner)
    → length (select (seated ids) (permitted i p rows)) ≡ length (select (seated ids) rows)
unfolding update_rows
count_permitted ids i p [] = refl
count_permitted ids i p (o ∷ rows) = ground (arith, count_permitted ids i p rows)

row_permitted :
    (i j : ℕ) (p : Option (List ℕ)) (rows : List Owner) (r : Owner)
    → row_of j (permitted i p rows) ≡ some r
    → (o : Owner) × (row_of j rows ≡ some o) × (r ≡ (if o.ownerid == i then permit p o else o))
unfolding update_rows
row_permitted i j p [] r h = absurd (ground arith)
row_permitted i j p (o ∷ rows) r h = elim (Bool-cases (o.ownerid == j)) [
  | inl e ↦ (o, ground arith, ground arith)
  | inr e ↦ (let (q, f, s) = row_permitted i j p rows r (ground arith) in (q, ground arith, s))
]

within_permitted :
    (i : ℕ) (p : Option (List ℕ)) (rows : List Owner) (o : Owner)
    → IsWithinSeats o rows
    → IsWithinSeats o (permitted i p rows) × IsWithinSeats (permit p o) (permitted i p rows)
unfolding activated_user_count
within_permitted i p rows o h = (
  λ n e. ground (arith, count_permitted (listed o.plan_activated_users) i p rows, h n e),
  λ n e. ground (arith, count_permitted (listed o.plan_activated_users) i p rows, h n e),
)

AreWithinSeats-permitted :
    (i j : ℕ) (p : Option (List ℕ)) (rows : List Owner)
    → AreWithinSeats j rows
    → AreWithinSeats j (permitted i p rows)
AreWithinSeats-permitted i j p rows h r f =
    let (o, g, s) = row_permitted i j p rows r f in
    let both = within_permitted i p rows o (h o g) in
    elim (Bool-cases (o.ownerid == i)) [
      | inl e ↦ subst (λ x. IsWithinSeats x (permitted i p rows)) (sym (s ∙ rw e refl)) both.1
      | inr e ↦ subst (λ x. IsWithinSeats x (permitted i p rows)) (sym (s ∙ rw e refl)) both.0
    ]

module _ (provider : Provider) (c : Owner) (repo : Repository) where
  read_rows :
      (w : World)
      → ((has_read_permissions provider (some c) repo w).1.owners ≡ w.owners)
        ⊎ ((has_read_permissions provider (some c) repo w).1.owners
            ≡ permitted c.ownerid (some (listed c.permission ++ repo.repoid ∷ [])) w.owners)
  unfolding has_read_permissions
  read_rows w = ground arith

  use_rows :
      (is_authenticated : Bool) (owner : Owner) (w : World)
      → ((may_use is_authenticated (some c) owner repo w).1.owners ≡ w.owners)
        ⊎ ((may_use is_authenticated (some c) owner repo w).1.owners
            ≡ (try_auto_activate owner c w).1.owners)
  unfolding may_use
  use_rows is_authenticated owner w = ground arith

  check_rows :
      (is_authenticated is_safe : Bool) (owner : Owner) (w : World)
      → let v = (may_use is_authenticated (some c) owner repo w).1 in
        ((has_permission provider is_authenticated is_safe (some c) owner repo w).1.owners
          ≡ v.owners)
        ⊎ ((has_permission provider is_authenticated is_safe (some c) owner repo w).1.owners
            ≡ (has_read_permissions provider (some c) repo v).1.owners)
  unfolding has_permission
  check_rows is_authenticated is_safe owner w = ground arith

  read-AreWithinSeats :
      (i : ℕ) (w : World)
      → AreWithinSeats i w.owners
      → AreWithinSeats i (has_read_permissions provider (some c) repo w).1.owners
  read-AreWithinSeats i w h = elim (read_rows w) [
    | inl e ↦ subst (AreWithinSeats i) (sym e) h
    | inr e ↦ subst (AreWithinSeats i) (sym e) (
        AreWithinSeats-permitted c.ownerid i (some (listed c.permission ++ repo.repoid ∷ []))
          w.owners h)
  ]

  use-AreWithinSeats :
      (is_authenticated : Bool) (owner : Owner) (w : World)
      → IsUnique (keys w.owners)
      → row_of owner.ownerid w.owners ≡ some owner
      → row_of c.ownerid w.owners ≡ some c
      → IsWithinSeats owner w.owners
      → AreWithinSeats owner.ownerid (may_use is_authenticated (some c) owner repo w).1.owners
  use-AreWithinSeats is_authenticated owner w unique stored known within =
      elim (use_rows is_authenticated owner w) [
        | inl e ↦
            subst (AreWithinSeats owner.ownerid) (sym e)
              (λ r f. subst (λ x. IsWithinSeats x w.owners) (ground arith) within)
        | inr e ↦
            subst (AreWithinSeats owner.ownerid) (sym e)
              (try_auto_activate-IsWithinSeats owner c w unique stored known within)
      ]

  -- Where no two rows have one key and the organisation and the user are as in their rows: if the
  -- organisation is within its seats, then after the check of any request to a repository, whether
  -- it is let through or not, the organisation's row is within its seats.
  pub has_permission-IsWithinSeats :
      (is_authenticated is_safe : Bool) (owner : Owner) (w : World)
      → IsUnique (keys w.owners)
      → row_of owner.ownerid w.owners ≡ some owner
      → row_of c.ownerid w.owners ≡ some c
      → IsWithinSeats owner w.owners
      → (r : Owner)
      → row_of owner.ownerid
          (has_permission provider is_authenticated is_safe (some c) owner repo w).1.owners
        ≡ some r
      → IsWithinSeats r
          (has_permission provider is_authenticated is_safe (some c) owner repo w).1.owners
  has_permission-IsWithinSeats is_authenticated is_safe owner w unique stored known within =
      let used = use-AreWithinSeats is_authenticated owner w unique stored known within in
      elim (check_rows is_authenticated is_safe owner w) [
        | inl e ↦ subst (AreWithinSeats owner.ownerid) (sym e) used
        | inr e ↦ subst (AreWithinSeats owner.ownerid) (sym e) (
            read-AreWithinSeats owner.ownerid (may_use is_authenticated (some c) owner repo w).1
              used)
      ]
