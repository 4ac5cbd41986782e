-- ===== src/Hooks.antt =====
-- webhook_handlers/views: what the handlers of the providers' webhooks share. A handler answers a
-- request or raises, and changes the rows of repositories, commits, branches, pulls and owners.
pub mod Rows
pub mod Updates
pub mod Github
pub mod Gitlab
pub mod Bitbucket
pub mod Members
pub mod Pushes
pub mod Rules
pub mod Stable
pub mod Receive
use codecov_api.Base.{
  Bool, List, Option, String, [], any, false, if◌then◌else◌, join, none, not, opt_eq, opt_str_eq,
  select, some, str_eq, true, ℕ, ◌&&◌, ◌++◌, ◌==◌, ◌∷◌,
}
use codecov_api.Owner.{Branch, Commit, Owner, Pull, Repository}
use codecov_api.Store.{
  Exec, Outcome, Task, does_not_exist, err, get_owner, key_error, not_found, ok, one, pure, raise,
}

-- The data of a response: none, a text, or a list of one text, for the messages of
-- WebhookHandlerErrorMessages that are tuples.
pub data Reply : Type 0 where
  empty : Reply
  says lists : String → Reply

-- rest_framework.response.Response
pub record Response : Type 0 where
  pub status : ℕ
  pub reply : Reply

abbrev pub respond : Reply → Exec Response
respond r = pure (record { status = 200; reply = r })

-- WebhookHandlerErrorMessages
abbrev pub unsupported_event : Reply
unsupported_event = lists "Unsupported event"

abbrev pub skip_codecov_status : Reply
skip_codecov_status = lists "Ok. Skip Codecov status updates."

abbrev pub skip_not_active : Reply
skip_not_active = lists "OK. Skip because repo is not active."

abbrev pub skip_processing : Reply
skip_processing = lists "OK. Skip because commit not found or is processing."

abbrev pub skip_pending_statuses : Reply
skip_pending_statuses = says "Ok. Skip because status is pending."

-- What the handlers use that is no code of the repository: the comparison of the database's
-- case-insensitive texts, the digests of hmac, by key and body, and whether the set "beta.pending"
-- in Redis has a repository.
pub record Services : Type 0 where
  pub same_text : String → String → Bool
  pub hexdigest_sha256 : String → String → String
  pub hexdigest_sha1 : String → String → String
  pub beta_pending : ℕ → Bool

-- data[…]: a missing key raises.
abbrev pub need {ℓ} : {A : Type ℓ} → Option A → Exec A
need none = raise key_error
need (some a) = pure a

abbrev pub found {ℓ} : {A : Type ℓ} → Outcome A → Outcome (Option A)
found (ok a) = ok (some a)
found (err does_not_exist) = ok none
found (err e) = err e

-- `except DoesNotExist`: a missing row is none, any other exception goes on.
abbrev pub attempt {ℓ} : {A : Type ℓ} → Exec A → Exec (Option A)
attempt m w = let (r, w') = m w in (found r, w')

-- get_object_or_404
abbrev pub or_404 {ℓ} : {A : Type ℓ} → Option A → Exec A
or_404 none = raise not_found
or_404 (some a) = pure a

-- An optional id equals the text of a row: None equals no text.
abbrev pub is_id : Option String → String → Bool
is_id none s = false
is_id (some i) s = str_eq i s

-- author__service
abbrev pub author_service : String → List Owner → Repository → Bool
author_service service rows repo =
    any (λ (o : Owner). (o.ownerid == repo.author) && str_eq o.service service) rows

-- Repository.objects.get(...)
unfoldable pub find_repo : (List Owner → Repository → Bool) → Exec Repository
find_repo p w = (one (select (p w.owners) w.repos), w)

-- Owner.objects.get(service=..., service_id=...)
unfoldable pub owner_by_service_id : String → Option String → Exec Owner
unfolding get_owner
owner_by_service_id service i = get_owner (λ o. str_eq o.service service && is_id i o.service_id)

-- The rows that pass the test are changed.
unfoldable pub update_where {ℓ} : {A : Type ℓ} → (A → Bool) → (A → A) → List A → List A
update_where p f [] = []
update_where p f (r ∷ rows) = (if p r then f r else r) ∷ update_where p f rows

abbrev pub has_repoid : ℕ → Repository → Bool
has_repoid i r = r.repoid == i

-- Repository.save, of a row that was read, with the columns that `f` writes.
unfoldable pub save_repo : ℕ → (Repository → Repository) → Exec (Unit {0})
unfolding update_where
save_repo i f w = (ok tt, record w { repos = update_where (has_repoid i) f w.repos })

-- Owner.save, of a row that was read, with the columns that `f` writes.
unfoldable pub save_owner : ℕ → (Owner → Owner) → Exec (Unit {0})
unfolding update_where
save_owner i f w =
    (ok tt, record w { owners = update_where (λ (o : Owner). o.ownerid == i) f w.owners })

-- Owner.save() without update_fields, which also writes the time.
unfoldable pub save_stamped : ℕ → (Owner → Owner) → Exec (Unit {0})
unfolding save_owner
save_stamped i f w = save_owner i (λ o. record (f o) { updatestamp = w.now }) w

-- Commit.objects.filter(...).update(...)
unfoldable pub update_commits : (Commit → Bool) → (Commit → Commit) → Exec (Unit {0})
unfolding update_where
update_commits p f w = (ok tt, record w { commits = update_where p f w.commits })

-- Pull.objects.filter(...).update(...)
unfoldable pub update_pulls : (Pull → Bool) → (Pull → Pull) → Exec (Unit {0})
unfolding update_where
update_pulls p f w = (ok tt, record w { pulls = update_where p f w.pulls })

abbrev pub is_pull : ℕ → Option ℕ → Pull → Bool
is_pull repoid pullid p = (p.repository == repoid) && opt_eq (some p.pullid) pullid

abbrev pub is_branch : ℕ → String → Branch → Bool
is_branch repoid name b = (b.repository == repoid) && str_eq b.name name

-- Branch.objects.filter(repository=..., name=...).delete()
unfoldable pub delete_branches : ℕ → String → Exec (Unit {0})
delete_branches repoid name w =
    (ok tt, record w { branches = select (λ b. not (is_branch repoid name b)) w.branches })

-- A method of TaskService queues a task.
abbrev pub queue : Task → Exec (Unit {0})
queue t w = (ok tt, record w { tasks = w.tasks ++ t ∷ [] })

abbrev pub is_complete : ℕ → Option String → Commit → Bool
is_complete repoid commitid c =
    (c.repository == repoid) && (is_id commitid c.commitid && opt_str_eq c.state (some "complete"))

-- The commit was processed completely.
unfoldable pub has_complete : ℕ → Option String → Exec Bool
has_complete repoid commitid w = (ok (any (is_complete repoid commitid) w.commits), w)

-- A repository that was deleted at the provider.
abbrev pub retire : Repository → Repository
retire r = record r {
  deleted = true;
  activated = false;
  active = false;
  name = join r.name "-deleted";
}

abbrev pub is_text : String → Option String → Bool
is_text s none = false
is_text s (some t) = str_eq t s

abbrev pub accept : Exec Response
accept = respond empty

-- A query set's `first`.
abbrev pub first {ℓ} : {A : Type ℓ} → List A → Option A
first [] = none
first (a ∷ rest) = some a
