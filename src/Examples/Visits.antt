-- ===== src/Examples/Visits.antt =====
-- Access of a member to a private repository of the organisation.
use codecov_api.Base.{[], arith, false, refl, some, true, ◌∷◌, ◌≡◌}
use codecov_api.Owner.{Owner, Repository, has_legacy_plan}
use codecov_api.Store.{err, not_found, ok, put_owner}
use codecov_api.Seats.{activated_user_count, can_activate_user}
use codecov_api.Seats.Count.{row_of}
use codecov_api.Access.{Provider, has_permission}
use codecov_api.Access.Reading.{
  MayRead, MayUse, has_permission_denied, has_permission_private, with_seat,
}
use codecov_api.Access.Seats.{has_permission-IsWithinSeats}
use codecov_api.Seats.Cloud.{IsWithinSeats}
use codecov_api.Examples.{acme, repo_of, today, user_of}

abbrev readable : Provider
readable = record { get_authenticated = λ _ _. ok (true, false); get_is_admin = λ _ _. ok false }

abbrev unreachable : Provider
unreachable = record {
  get_authenticated = λ _ _. err not_found;
  get_is_admin = λ _ _. err not_found;
}

abbrev private_repo : Repository
private_repo = repo_of 10

abbrev reader : Owner
reader = record (user_of 4) { permission = some (10 ∷ []); updatestamp = 1_000_000 }

has_permission_private_example :
    (true ≡ true)
    × (true ≡ true)
    × ((c : Owner) × (some (user_of 4) ≡ some c)
        × MayRead readable c private_repo
        × MayUse c acme today)
has_permission_private_example =
    has_permission_private readable true true (some (user_of 4)) acme private_repo today
      (has_permission readable true true (some (user_of 4)) acme private_repo today).1 refl
      (unfold has_permission has_legacy_plan put_owner in refl)

has_permission_denied_example :
    ((has_permission readable true false (some (user_of 4)) acme private_repo today).0
      ≡ err not_found)
    × (row_of 1
          (has_permission readable true false (some (user_of 4)) acme private_repo today).1.owners
        ≡ some (with_seat acme (user_of 4) 1_000_000))
has_permission_denied_example =
    has_permission_denied readable (user_of 4) acme private_repo today refl refl
      (unfold has_legacy_plan in refl) refl refl refl (unfold can_activate_user in refl)

seats_kept : IsWithinSeats acme today.owners
unfolding activated_user_count
seats_kept n e = ground arith

has_permission-IsWithinSeats_example :
    IsWithinSeats
      (with_seat acme (user_of 4) 1_000_000)
      (has_permission readable true true (some (user_of 4)) acme private_repo today).1.owners
has_permission-IsWithinSeats_example =
    has_permission-IsWithinSeats readable (user_of 4) private_repo true true acme today
      (refl, (refl, (refl, (refl, tt)))) refl refl seats_kept (with_seat acme (user_of 4) 1_000_000)
      (unfold has_permission has_legacy_plan put_owner in refl)
