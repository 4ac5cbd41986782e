-- ===== src/Seats.antt =====
-- codecov_auth/models.py: who holds a seat of an organisation, and who administers it; and
-- services/activation.py on Codecov's cloud.
pub mod Count
pub mod Cloud
pub mod SelfHosted
pub mod License
pub mod Activation
use codecov_api.Base.{
  Bool, List, Option, [], erase, if◌then◌else◌, length, ltb, mem, none, not, select, some, true, ℕ,
  ◌&&◌, ◌++◌, ◌+◌, ◌∷◌,
}
use codecov_api.Owner.{Owner}
use codecov_api.Store.{Exec, err, ok, save, type_error}

-- `ids or []`
abbrev pub listed : Option (List ℕ) → List ℕ
listed none = []
listed (some ids) = ids

-- Rows of users that hold a paid seat.
abbrev pub seated : List ℕ → Owner → Bool
seated ids o = mem o.ownerid ids && not o.student

-- Owner.activated_user_count
unfoldable pub activated_user_count : Owner → List Owner → ℕ
activated_user_count org rows = length (select (seated (listed org.plan_activated_users)) rows)

-- Owner.activated_student_count
unfoldable pub activated_student_count : Owner → List Owner → ℕ
activated_student_count org rows =
    length (select (λ o. mem o.ownerid (listed org.plan_activated_users) && o.student) rows)

-- Owner.can_activate_user
unfoldable pub can_activate_user : Owner → Owner → Exec Bool
unfolding activated_user_count
can_activate_user org user w = if user.student then (ok true, w) else (elim org.plan_user_count [
  | none ↦ (err type_error, w)
  | some seats ↦ (ok (ltb (activated_user_count org w.owners) (seats + org.free)), w)
])

-- The list with the id at its end, once.
abbrev pub add_id : ℕ → Option (List ℕ) → List ℕ
add_id id none = id ∷ []
add_id id (some ids) = if mem id ids then ids else ids ++ id ∷ []

-- The list without the first occurrence of the id.
abbrev pub remove_id : ℕ → Option (List ℕ) → Option (List ℕ)
remove_id id none = none
remove_id id (some ids) = some (erase id ids)

-- Owner.activate_user
unfoldable pub activate_user : Owner → Owner → Exec Owner
unfolding save
activate_user org user =
    save (record org { plan_activated_users = some (add_id user.ownerid org.plan_activated_users) })

-- Owner.deactivate_user
unfoldable pub deactivate_user : Owner → Owner → Exec Owner
unfolding save
deactivate_user org user =
    save (record org { plan_activated_users = remove_id user.ownerid org.plan_activated_users })

-- Owner.add_admin
unfoldable pub add_admin : Owner → Owner → Exec Owner
unfolding save
add_admin org user = save (record org { admins = some (add_id user.ownerid org.admins) })

-- Owner.remove_admin
unfoldable pub remove_admin : Owner → Owner → Exec Owner
unfolding save
remove_admin org user = save (record org { admins = remove_id user.ownerid org.admins })
