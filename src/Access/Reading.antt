-- ===== src/Access/Reading.antt =====
-- api/shared/permissions.py: what a granted or denied access says about the user.
use codecov_api.Base.{
  Bool, Bool-cases, Option, [], ap, arith, false, if◌then◌else◌, inl, inr, is_true, mem, mem-append,
  none, refl, some, true, ℕ, ◌==◌, ◌∙◌, ◌∷◌, ◌≡◌, ◌⊎◌,
}
use codecov_api.Owner.{Owner, Repository, has_legacy_plan}
use codecov_api.Store.{
  >>=-eq-ok, Outcome, World, err, not_found, ok, ok-injective, pure, put_owner, raise, ◌>>=◌,
}
use codecov_api.Seats.{add_id, can_activate_user, listed}
use codecov_api.Seats.Count.{row_of, row_of-put_owner}
use codecov_api.Access.{Provider, has_permission, has_read_permissions, may_use, user_is_activated}

-- Read access that was granted once is remembered: for the owner that the check leaves, it is
-- granted again without a question to any provider and without a write.
pub has_read_permissions_again :
    (provider provider' : Provider) (o o' : Owner) (repo : Repository) (w w' v : World)
    → has_read_permissions provider (some o) repo w ≡ (ok (true, some o'), w')
    → has_read_permissions provider' (some o') repo v ≡ (ok (true, some o'), v)
unfolding has_read_permissions
has_read_permissions_again provider provider' o o' repo w w' v h =
    ground (arith, mem-append repo.repoid (listed o.permission) (repo.repoid ∷ []))

-- The user owns the repository, remembers that it may be read, or may read it for the provider.
abbrev pub MayRead : Provider → Owner → Repository → Type 0
MayRead provider c repo =
    (repo.author ≡ c.ownerid)
    ⊎ (mem repo.repoid (listed c.permission) ≡ true)
    ⊎ ((edit : Bool) × (provider.get_authenticated c repo ≡ ok (true, edit)))

-- The user is the owner, who needs no seat, or is a member of it and has a seat or can take one;
-- in an owner with a legacy plan no seat is needed.
abbrev pub MayUse : Owner → Owner → World → Type 0
MayUse c owner w =
    (c.ownerid ≡ owner.ownerid)
    ⊎ (has_legacy_plan owner ≡ true)
    ⊎ ((mem owner.ownerid (listed c.organizations) ≡ true)
        × ((mem c.ownerid (listed owner.plan_activated_users) ≡ true)
            ⊎ ((is_true owner.plan_auto_activate ≡ true)
                × ((can_activate_user owner c w).0 ≡ ok true))))

user_is_activated-MayUse :
    (c owner : Owner) (w v : World) → user_is_activated c owner w ≡ (ok true, v) → MayUse c owner w
unfolding user_is_activated
user_is_activated-MayUse c owner w v h = elim (Bool-cases (c.ownerid == owner.ownerid)) [
  | inl e ↦ inl (ground arith)
  | inr e ↦ elim (Bool-cases (has_legacy_plan owner)) [
    | inl e' ↦ inr (inl e')
    | inr e' ↦ elim (Bool-cases (mem c.ownerid (listed owner.plan_activated_users))) [
      | inl m ↦ inr (inr (ground arith, inl m))
      | inr m ↦ inr (inr (ground arith, inr (ground arith, ground arith)))
    ]
  ]
]

viewable :
    (provider : Provider) (c : Owner) (c' : Option Owner) (repo : Repository) (w v : World)
    (answer : Outcome (Bool × Bool))
    → provider.get_authenticated c repo ≡ answer
    → repo.private ≡ true
    → (repo.author == c.ownerid) ≡ false
    → mem repo.repoid (listed c.permission) ≡ false
    → has_read_permissions provider (some c) repo w ≡ (ok (true, c'), v)
    → (edit : Bool) × (provider.get_authenticated c repo ≡ ok (true, edit))
unfolding has_read_permissions
viewable provider c c' repo w v (ok (true, edit)) q private e e' h = (edit, q)
viewable provider c c' repo w v (ok (false, edit)) q private e e' h = absurd (ground arith)
viewable provider c c' repo w v (err x) q private e e' h = absurd (ground arith)

has_read_permissions-MayRead :
    (provider : Provider) (c : Owner) (c' : Option Owner) (repo : Repository) (w v : World)
    → repo.private ≡ true
    → has_read_permissions provider (some c) repo w ≡ (ok (true, c'), v)
    → MayRead provider c repo
unfolding has_read_permissions
has_read_permissions-MayRead provider c c' repo w v private h =
    elim (Bool-cases (repo.author == c.ownerid)) [
      | inl e ↦ inl (ground arith)
      | inr e ↦ elim (Bool-cases (mem repo.repoid (listed c.permission))) [
        | inl e' ↦ inr (inl e')
        | inr e' ↦ inr (
            inr (
              viewable provider c c' repo w v (provider.get_authenticated c repo) refl private e e'
                h))
      ]
    ]

may_use-MayUse :
    (is_authenticated : Bool) (c owner : Owner) (repo : Repository) (w v : World)
    → repo.private ≡ true
    → may_use is_authenticated (some c) owner repo w ≡ (ok true, v)
    → (is_authenticated ≡ true) × MayUse c owner w
unfolding may_use
may_use-MayUse is_authenticated c owner repo w v private h =
    (ground arith, user_is_activated-MayUse c owner w v (ground arith))

granted :
    (readable activated : Bool) (w w' : World)
    → (if readable then pure activated else raise not_found) w ≡ (ok true, w')
    → (readable ≡ true) × (activated ≡ true)
granted true activated w w' h = (refl, ok-injective (ap (λ r. r.0) h))
granted false activated w w' h = absurd (ground arith)

-- A request to a private repository is only let through if it reads, comes from an authenticated
-- user who may read the repository, and this user may use the owner's plan.
pub has_permission_private :
    (provider : Provider) (is_authenticated is_safe : Bool) (current_owner : Option Owner)
    (owner : Owner) (repo : Repository) (w w' : World)
    → repo.private ≡ true
    → has_permission provider is_authenticated is_safe current_owner owner repo w ≡ (ok true, w')
    → (is_safe ≡ true)
      × (is_authenticated ≡ true)
      × ((c : Owner) × (current_owner ≡ some c) × MayRead provider c repo × MayUse c owner w)
unfolding has_permission
has_permission_private provider is_authenticated is_safe none owner repo w w' private h =
    absurd (ground arith)
has_permission_private provider is_authenticated false (some c) owner repo w w' private h =
    absurd (ground arith)
has_permission_private provider is_authenticated true (some c) owner repo w w' private h =
    let (a, v, e, rest) =
      >>=-eq-ok (may_use is_authenticated (some c) owner repo)
        (λ a. has_read_permissions provider (some c) repo >>= λ r.
          if r.0 then pure a else raise not_found)
        w h in
    let (r, u, e', done) =
      >>=-eq-ok (has_read_permissions provider (some c) repo)
        (λ r. if r.0 then pure a else raise not_found) v rest in
    let (reads, uses) = granted r.0 a u w' done in
    let used = e ∙ ap (λ b. (ok b, v)) uses in
    let read = e' ∙ ap (λ b. (ok (b, r.1), u)) reads in
    let (known, may) = may_use-MayUse is_authenticated c owner repo w v private used in
    (refl, known, (c, refl, has_read_permissions-MayRead provider c r.1 repo v u private read, may))

-- The owner with the user among those who have a seat.
abbrev pub with_seat : Owner → Owner → ℕ → Owner
with_seat owner c t = record owner {
  plan_activated_users = some (add_id c.ownerid owner.plan_activated_users);
  updatestamp = t;
}

denied_rows :
    (provider : Provider) (c owner : Owner) (repo : Repository) (w : World)
    → repo.private ≡ true
    → (c.ownerid == owner.ownerid) ≡ false
    → has_legacy_plan owner ≡ false
    → mem owner.ownerid (listed c.organizations) ≡ true
    → mem c.ownerid (listed owner.plan_activated_users) ≡ false
    → is_true owner.plan_auto_activate ≡ true
    → (can_activate_user owner c w).0 ≡ ok true
    → ((has_permission provider true false (some c) owner repo w).0 ≡ err not_found)
      × ((has_permission provider true false (some c) owner repo w).1.owners
          ≡ put_owner (with_seat owner c w.now) w.owners)
unfolding has_permission can_activate_user
denied_rows provider c owner repo w private other new member unseated auto room = ground arith

-- A request that is refused because it does not only read may still have taken a seat: a member
-- without a seat gets one, where the owner's seats are given out automatically and one is left.
pub has_permission_denied :
    (provider : Provider) (c owner : Owner) (repo : Repository) (w : World)
    → repo.private ≡ true
    → (c.ownerid == owner.ownerid) ≡ false
    → has_legacy_plan owner ≡ false
    → mem owner.ownerid (listed c.organizations) ≡ true
    → mem c.ownerid (listed owner.plan_activated_users) ≡ false
    → is_true owner.plan_auto_activate ≡ true
    → (can_activate_user owner c w).0 ≡ ok true
    → ((has_permission provider true false (some c) owner repo w).0 ≡ err not_found)
      × (row_of owner.ownerid (has_permission provider true false (some c) owner repo w).1.owners
          ≡ some (with_seat owner c w.now))
has_permission_denied provider c owner repo w private other new member unseated auto room =
    let (denied, rows) =
      denied_rows provider c owner repo w private other new member unseated auto room in
    (denied, rw rows (row_of-put_owner (with_seat owner c w.now) w.owners))
