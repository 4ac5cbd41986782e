-- ===== src/Upload/Roots.antt =====
-- codecov_auth/models.py: `root_organization`, the group that a subgroup of GitLab belongs to, which is
-- kept in its row once it is found.
use codecov_api.Base.{Option, if◌then◌else◌, none, some, str_eq, truthy, ℕ, ◌&&◌}
use codecov_api.Owner.{Owner}
use codecov_api.Store.{Exec, Outcome, World, err, ok, pure, save, ◌>>=◌}
use codecov_api.Upload.Limits.{climb, parent_of}

abbrev pub some_owner : Outcome Owner → Outcome (Option Owner)
some_owner (ok o) = ok (some o)
some_owner (err e) = err e

-- The row with the id of the root is saved.
unfoldable pub keep_root : Owner → Owner → Exec (Option Owner)
unfolding save
keep_root o root = do
  _ ← save (record o { root_parent_service_id = some root.service_id })
  pure (some root)

-- The climb, for a group that has a parent.
unfoldable pub search_root : ℕ → Owner → World → Option (Outcome (Option Owner) × World)
unfolding climb keep_root
search_root fuel o w =
    if str_eq o.service "gitlab" && truthy o.parent_service_id
    then elim (climb fuel w o) [
      | none ↦ none
      | some (err e) ↦ some (err e, w)
      | some (ok root) ↦ some (keep_root o root w)
    ]
    else some (ok none, w)

-- Owner.root_organization: none where the fuel does not suffice.
unfoldable pub root_organization : ℕ → Owner → World → Option (Outcome (Option Owner) × World)
unfolding search_root
root_organization fuel o w = elim o.root_parent_service_id [
  | none ↦ search_root fuel o w
  | some i ↦
      if truthy (some i) then some (some_owner (parent_of w o i), w) else search_root fuel o w
]
