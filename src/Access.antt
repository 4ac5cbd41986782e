-- ===== src/Access.antt =====
-- api/shared/permissions.py: who may read a repository, and what the checks write.
pub mod Reading
pub mod Seats
use codecov_api.Base.{
  Bool, List, Option, [], any, false, if◌then◌else◌, mem, none, not, some, true, ◌++◌, ◌==◌, ◌||◌,
  ◌∷◌,
}
use codecov_api.Owner.{Owner, Repository, has_legacy_plan, is_admin}
use codecov_api.Store.{
  Exec, Outcome, attribute_error, database_error, err, lift, not_found, ok, pure, raise,
  update_rows, ◌>>=◌, ◌>>◌,
}
use codecov_api.Seats.{listed}
use codecov_api.Seats.Cloud.{try_auto_activate}

-- The adapter of a repository's provider: what a user may do there, to view and to edit a
-- repository, and whether a user is an admin of an organisation.
pub record Provider : Type 0 where
  pub get_authenticated : Owner → Repository → Outcome (Bool × Bool)
  pub get_is_admin : Owner → Owner → Outcome Bool

-- Owner.save(update_fields=["permission"]): the other columns of the row stay as they are, and a
-- missing row raises.
unfoldable pub save_permission : Owner → Exec Owner
unfolding update_rows
save_permission o w =
    if any (λ r. r.ownerid == o.ownerid) w.owners
    then (
      ok (record o { updatestamp = w.now }),
      record w {
        owners =
            update_rows (λ r. r.ownerid == o.ownerid) (λ r. record r { permission = o.permission })
              w.owners;
      },
    )
    else (err database_error, w)

-- RepositoryPermissionsService.user_is_activated, in the cloud.
unfoldable pub user_is_activated : Owner → Owner → Exec Bool
unfolding has_legacy_plan try_auto_activate
user_is_activated current_owner owner =
    if (current_owner.ownerid == owner.ownerid) || has_legacy_plan owner
    then pure true
    else if not (mem owner.ownerid (listed current_owner.organizations))
    then pure false
    else if mem current_owner.ownerid (listed owner.plan_activated_users)
    then pure true
    else try_auto_activate owner current_owner

-- The part of RepositoryArtifactPermissions.has_permission that looks at the user's seat.
unfoldable pub may_use : Bool → Option Owner → Owner → Repository → Exec Bool
unfolding user_is_activated
may_use is_authenticated current_owner owner repo =
    if not repo.private
    then pure true
    else if not is_authenticated
    then pure false
    else elim current_owner [ none ↦ raise attribute_error | some c ↦ user_is_activated c owner ]

module _ (provider : Provider) where
  -- RepoAccessors.get_repo_permissions
  abbrev pub get_repo_permissions : Owner → Repository → Outcome (Bool × Bool)
  get_repo_permissions user repo =
      if user.ownerid == repo.author then ok (true, true) else provider.get_authenticated user repo

  -- RepositoryPermissionsService._fetch_provider_permissions: the permissions, and the owner, who
  -- remembers a repository that may be viewed.
  unfoldable pub fetch_provider_permissions : Owner → Repository → Exec ((Bool × Bool) × Owner)
  unfolding save_permission
  fetch_provider_permissions owner repo = do
    permissions ← lift (get_repo_permissions owner repo)
    if permissions.0
        then (do
          owner' ←
              save_permission
                (record owner { permission = some (listed owner.permission ++ repo.repoid ∷ []) })
          pure (permissions, owner'))
        else pure (permissions, owner)

  -- RepositoryPermissionsService.has_read_permissions: the answer, and the owner afterwards.
  unfoldable pub has_read_permissions : Option Owner → Repository → Exec (Bool × Option Owner)
  unfolding fetch_provider_permissions
  has_read_permissions none repo = pure (not repo.private, none)
  has_read_permissions (some owner) repo =
      if not repo.private
        || (repo.author == owner.ownerid)
        || mem repo.repoid (listed owner.permission)
      then pure (true, some owner)
      else (do
        (permissions, owner') ← fetch_provider_permissions owner repo
        pure (permissions.0, some owner'))

  -- RepositoryPermissionsService.has_write_permissions
  unfoldable pub has_write_permissions : Bool → Owner → Repository → Exec Bool
  unfolding fetch_provider_permissions
  has_write_permissions is_authenticated user repo =
      if not is_authenticated
      then pure false
      else if repo.author == user.ownerid
      then pure true
      else (do (permissions, user') ← fetch_provider_permissions user repo; pure permissions.1)

  -- RepositoryArtifactPermissions.has_permission: `is_safe` tells a method that only reads.
  unfoldable pub has_permission : Bool → Bool → Option Owner → Owner → Repository → Exec Bool
  unfolding may_use has_read_permissions
  has_permission is_authenticated is_safe current_owner owner repo = do
    activated ← may_use is_authenticated current_owner owner repo
    if not is_safe then raise not_found else (do
      (readable, current_owner') ← has_read_permissions current_owner repo
      if readable then pure activated else raise not_found)

  -- ChartPermissions.has_permission: the owner remembers what each check has granted.
  unfoldable pub may_chart : Option Owner → List Repository → Exec Bool
  unfolding has_read_permissions
  may_chart current_owner [] = pure true
  may_chart current_owner (repo ∷ repos) = do
    (readable, current_owner') ← has_read_permissions current_owner repo
    if readable then may_chart current_owner' repos else raise not_found

  -- UserIsAdminPermissions.has_permission
  unfoldable pub user_is_admin : Bool → Option Owner → Owner → Outcome Bool
  unfolding is_admin
  user_is_admin is_authenticated current_owner owner =
      if not is_authenticated then ok false else (elim current_owner [
        | none ↦ ok false
        | some c ↦ if is_admin owner c then ok true else provider.get_is_admin c owner
      ])

-- MemberOfOrgPermissions.has_permission
unfoldable pub is_member_of_org : Bool → Option Owner → Owner → Outcome Bool
is_member_of_org is_authenticated current_owner owner =
    if not is_authenticated then ok false else (elim current_owner [
      | none ↦ ok false
      | some c ↦
          if (c.ownerid == owner.ownerid) || mem owner.ownerid (listed c.organizations)
          then ok true
          else err not_found
    ])
