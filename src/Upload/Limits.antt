-- ===== src/Upload/Limits.antt =====
-- upload/helpers.py and upload/throttles.py: the owner that answers for an upload, and the limits
-- on uploads of the owner's plan.
use codecov_api.Base.{
  Bool, Option, String, any, false, if◌then◌else◌, leb, length, ltb, min, none, not, select, some,
  str_eq, suc, true, zero, ℕ, ◌&&◌, ◌*◌, ◌-◌, ◌==◌, ◌||◌,
}
use codecov_api.Owner.{Commit, Owner, ReportSession, Repository}
use codecov_api.Store.{Outcome, World, attribute_error, does_not_exist, err, ok, one, throttled}
use codecov_api.Plan.Service.{find_plan}

-- The settings that the limits read, the name that the package shared has for carried-forward
-- sessions, and whether the set "flags.disable_tasks" in Redis has a repository.
pub record UploadSettings : Type 0 where
  pub throttling_enabled : Bool
  pub max_sessions : Option ℕ
  pub enterprise_license : Bool
  pub carried_forward : String
  pub disabled : ℕ → Bool

-- The row of the parent group.
abbrev pub parent_of : World → Owner → String → Outcome Owner
parent_of w o i =
    one (select (λ (r : Owner). str_eq r.service_id i && str_eq r.service o.service) w.owners)

-- The loop of _determine_responsible_owner; none where the fuel does not suffice.
unfoldable pub climb : ℕ → World → Owner → Option (Outcome Owner)
climb zero w o = none
climb (suc fuel) w o = elim o.parent_service_id [
  | none ↦ some (ok o)
  | some i ↦ elim (parent_of w o i) [ err e ↦ some (err e) | ok parent ↦ climb fuel w parent ]
]

-- repository.author
abbrev pub author_of : World → Repository → Outcome Owner
author_of w repo = one (select (λ (r : Owner). r.ownerid == repo.author) w.owners)

-- _determine_responsible_owner
unfoldable pub determine_responsible_owner : ℕ → World → Repository → Option (Outcome Owner)
unfolding climb
determine_responsible_owner fuel w repo = elim (author_of w repo) [
  | err e ↦ some (err e)
  | ok owner ↦ if str_eq owner.service "gitlab" then climb fuel w owner else some (ok owner)
]

-- USER_PLAN_REPRESENTATIONS.get(plan, {}).monthly_uploads_limit
abbrev pub limit_of : Option String → Outcome (Option ℕ)
limit_of plan = elim (find_plan plan) [
  | none ↦ err attribute_error
  | some p ↦ ok p.monthly_uploads_limit
]

abbrev pub of_commit : ℕ → String → ReportSession → Bool
of_commit repoid commitid s = (s.repository == repoid) && str_eq s.commitid commitid

-- Days in microseconds.
abbrev pub days : ℕ → ℕ
days n = n * 86_400_000_000

-- report__commit__repository: a private repository of the owner.
abbrev pub is_private_of : World → ℕ → ReportSession → Bool
is_private_of w owner s =
    any (λ (r : Repository). (r.repoid == s.repository) && ((r.author == owner) && r.private))
      w.repos

abbrev pub is_recent_commit : World → ReportSession → Bool
is_recent_commit w s =
    any
      (λ (c : Commit).
        (c.repository == s.repository)
        && (str_eq c.commitid s.commitid && leb (w.now - days 60) c.timestamp))
      w.commits

-- The filter of the uploads that count.
abbrev pub counts : World → ℕ → ReportSession → Bool
counts w owner s =
    is_private_of w owner s
    && (leb (w.now - days 30) s.created_at
        && (is_recent_commit w s && str_eq s.upload_type "uploaded"))

-- The query with [:limit] and count().
abbrev pub uploads_used : World → ℕ → ℕ → ℕ
uploads_used w owner limit = min limit (length (select (counts w owner) w.sessions))

-- The part of check_commit_upload_constraints for an owner.
unfoldable pub check_owner : World → Repository → String → Owner → Outcome (Unit {0})
check_owner w repo commitid owner = elim (limit_of owner.plan) [
  | err e ↦ err e
  | ok none ↦ ok tt
  | ok (some limit) ↦
      if any (of_commit repo.repoid commitid) w.sessions
      then ok tt
      else if leb limit (uploads_used w owner.ownerid limit)
      then err throttled
      else ok tt
]

-- check_commit_upload_constraints
unfoldable pub check_commit_upload_constraints :
    UploadSettings → ℕ → World → Repository → String → Option (Outcome (Unit {0}))
unfolding determine_responsible_owner check_owner
check_commit_upload_constraints settings fuel w repo commitid =
    if not settings.throttling_enabled || not repo.private
    then some (ok tt)
    else elim (determine_responsible_owner fuel w repo) [
      | none ↦ none
      | some (err e) ↦ some (err e)
      | some (ok owner) ↦ some (check_owner w repo commitid owner)
    ]

-- The part of UploadsPerWindowThrottle.allow_request for an owner.
unfoldable pub allow_owner : World → Repository → String → Owner → Outcome Bool
allow_owner w repo commitid owner = elim (limit_of owner.plan) [
  | err e ↦ err e
  | ok none ↦ ok true
  | ok (some limit) ↦
      if not (any (of_commit repo.repoid commitid) w.sessions)
      then (if leb limit (uploads_used w owner.ownerid limit) then ok false else ok true)
      else ok true
]

-- `except ObjectDoesNotExist: return True`
abbrev pub or_allow : Outcome Bool → Outcome Bool
or_allow (ok b) = ok b
or_allow (err does_not_exist) = ok true
or_allow (err e) = err e

-- UploadsPerWindowThrottle.allow_request, for the repository and the commit that the view finds.
unfoldable pub window_allow_request :
    UploadSettings → ℕ → World → Outcome (Repository × String) → Option (Outcome Bool)
unfolding determine_responsible_owner allow_owner
window_allow_request settings fuel w view = elim view [
  | err e ↦ some (or_allow (err e))
  | ok (repo, commitid) ↦
      if settings.throttling_enabled && repo.private
      then elim (determine_responsible_owner fuel w repo) [
        | none ↦ none
        | some (err e) ↦ some (or_allow (err e))
        | some (ok owner) ↦ some (or_allow (allow_owner w repo commitid owner))
      ]
      else some (ok true)
]

-- The sessions of a commit that count against the limit of a commit.
abbrev pub new_session_count : UploadSettings → World → ℕ → String → ℕ
new_session_count settings w repoid commitid = length (
    select
      (λ (s : ReportSession).
        not (str_eq s.state "error")
        && (not (str_eq s.upload_type settings.carried_forward) && of_commit repoid commitid s))
      w.sessions)

-- `n or 150`
abbrev pub or_150 : Option ℕ → ℕ
or_150 none = 150
or_150 (some zero) = 150
or_150 (some (suc n)) = suc n

-- UploadsPerCommitThrottle.allow_request
unfoldable pub commit_allow_request :
    UploadSettings → World → Outcome (Repository × String) → Outcome Bool
commit_allow_request settings w view = elim view [
  | err e ↦ or_allow (err e)
  | ok (repo, commitid) ↦ elim (author_of w repo) [
    | err e ↦ or_allow (err e)
    | ok author ↦ ok (
        not (
          ltb (or_150 author.max_upload_limit) (new_session_count settings w repo.repoid commitid)))
  ]
]
