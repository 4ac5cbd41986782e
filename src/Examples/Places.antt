-- ===== src/Examples/Places.antt =====
-- Seats of concrete organisations.
use codecov_api.Store.{put_owner}
use codecov_api.Base.{[], arith, refl, some, true, ◌∷◌, ◌≡◌}
use codecov_api.Owner.{Owner}
use codecov_api.Seats.{activated_user_count}
use codecov_api.Seats.Count.{IsUnique, keys, row_of}
use codecov_api.Seats.Cloud.{IsWithinSeats, try_auto_activate, try_auto_activate-IsWithinSeats}
use codecov_api.Seats.SelfHosted.{activate_owner, activated_owners}
use codecov_api.Seats.License.{IsLicensed, activate_owner-IsLicensed}
use codecov_api.Examples.{acme, today, user_of}

IsUnique-keys : IsUnique (keys today.owners)
IsUnique-keys = (refl, (refl, (refl, (refl, tt))))

seats_left : IsWithinSeats acme today.owners
unfolding activated_user_count
seats_left n e = ground arith

abbrev grown : Owner
grown = record acme { plan_activated_users = some (2 ∷ 3 ∷ 4 ∷ []); updatestamp = 1_000_000 }

grows : row_of 1 (try_auto_activate acme (user_of 4) today).1.owners ≡ some grown
unfolding try_auto_activate put_owner
grows = refl

try_auto_activate-IsWithinSeats_example :
    IsWithinSeats grown (try_auto_activate acme (user_of 4) today).1.owners
try_auto_activate-IsWithinSeats_example =
    try_auto_activate-IsWithinSeats acme (user_of 4) today IsUnique-keys refl refl seats_left grown
      grows

licensed : IsLicensed (some 3) today.owners
unfolding activated_owners
licensed = omega arith

activate_owner-IsLicensed_example :
    IsLicensed (some 3) (activate_owner true (some 3) (user_of 4) today).1.owners
activate_owner-IsLicensed_example =
    activate_owner-IsLicensed true (some 3) (user_of 4) today IsUnique-keys licensed
