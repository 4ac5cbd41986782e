-- ===== src/Examples/Mutations.antt =====
-- Commands of callers that are not known, of strangers and of members, and sorted files.
use mathlib.Core.List.{Perm}
use codecov_api.Base.{
  All, List, String, [], false, if◌then◌else◌, inl, map, none, not, refl, select, some, str_eq,
  true, ℕ, ◌++◌, ◌==◌, ◌∷◌, ◌≡◌,
}
use codecov_api.Owner.{Owner, Repository}
use codecov_api.Accounts.{no_accounts}
use codecov_api.Store.{World, err, ok, unauthenticated}
use codecov_api.Commands.{Caller, trigger_refresh}
use codecov_api.Commands.Owners.{Forms, undecodable}
use codecov_api.Commands.Mutations.{
  cancel_trial_with, delete_flag_with, resolve, set_yaml_on_owner_with, start_trial_with,
}
use codecov_api.Commands.Guards.{resolve-unauthenticated}
use codecov_api.Commands.Members.{Allowed, UnlessAllowed, resolve-Allowed}
use codecov_api.Commands.Tenants.{
  Regenerated, regenerate_repository_token-key, resolve-trial_anyone,
}
use codecov_api.Commands.Refreshes.{Once, trigger_refresh-Once}
use codecov_api.Impacted.{
  ImpactedFile, Key, by_head_coverage, descending, get_attribute, sort_impacted_files,
}
use codecov_api.Impacted.Sorted.{IsInOrder, lacks, sort_impacted_files-sorted}
use codecov_api.Examples.{acme, today, user_of}
use codecov_api.Commands.Repositories.{active_repo, regenerate_repository_token}

abbrev nobody : Caller
nobody = record { request_user = false; current_owner = none; has_user = false; service = "github" }

abbrev caller_of : Owner → Caller
caller_of o = record {
  request_user = true;
  current_owner = some o;
  has_user = true;
  service = "github";
}

abbrev lax : Forms
lax = record {
  jwt_decode = λ s. undecodable;
  is_email = λ s. not (str_eq s "");
  safe_load = λ s. ok (some s);
  validate_yaml = λ s. ok s;
}

resolve-unauthenticated_example :
    resolve lax true nobody (set_yaml_on_owner_with "codecov-user" "codecov:") today
    ≡ (err unauthenticated, today)
resolve-unauthenticated_example =
    resolve-unauthenticated lax true nobody (set_yaml_on_owner_with "codecov-user" "codecov:") today
      (refl, refl)

resolve-Allowed_example :
    UnlessAllowed
      (Allowed (caller_of (user_of 4)) today (delete_flag_with "codecov-user" "api" "unit"))
      today
      (resolve lax true
        (caller_of (user_of 4))
        (delete_flag_with "codecov-user" "api" "unit")
        today)
resolve-Allowed_example =
    resolve-Allowed lax true (caller_of (user_of 4)) today
      (delete_flag_with "codecov-user" "api" "unit")

resolve-trial_anyone_example :
    (resolve lax true (caller_of acme) (start_trial_with "codecov-user") today
      ≡ resolve lax true (caller_of (user_of 4)) (start_trial_with "codecov-user") today)
    × (resolve lax true (caller_of acme) (cancel_trial_with "codecov-user") today
        ≡ resolve lax true (caller_of (user_of 4)) (cancel_trial_with "codecov-user") today)
resolve-trial_anyone_example =
    resolve-trial_anyone lax true (caller_of acme) (caller_of (user_of 4)) "codecov-user" today refl
      refl refl

trigger_refresh-Once_example :
    Once 2
      (some "u")
      true
      true
      false
      today
      1_000_000_000
      none
      true
      true
      true
      (trigger_refresh 2 (some "u") true true false today)
trigger_refresh-Once_example =
    trigger_refresh-Once 2 (some "u") true true false today 1_000_000_000 none true true true
      (inl refl)

abbrev plain_file : String → ℕ → ImpactedFile
plain_file name misses = record {
  base_name = some name;
  head_name = some name;
  file_was_added_by_diff = false;
  file_was_removed_by_diff = false;
  base_coverage = none;
  head_coverage =
      if misses == 0 then none else some (record { hits = 1; misses = misses; partials = 0 });
  added_diff_coverage = none;
  removed_diff_coverage = none;
  unexpected_line_changes = none;
}

abbrev touched : List ImpactedFile
touched = plain_file "a.py" 3 ∷ plain_file "b.py" 0 ∷ plain_file "c.py" 1 ∷ []

worst_last :
    sort_impacted_files touched by_head_coverage descending
    ≡ ok (plain_file "c.py" 1 ∷ plain_file "a.py" 3 ∷ plain_file "b.py" 0 ∷ [])
unfolding sort_impacted_files
worst_last = refl

sort_impacted_files-sorted_example :
    (keyed : List (Key × ImpactedFile)) × (sort_impacted_files touched by_head_coverage descending
      ≡ ok (map (λ x. x.1) keyed ++ select (lacks by_head_coverage) touched))
    × IsInOrder descending keyed
    × All (λ x. get_attribute x.1 by_head_coverage ≡ ok (some x.0)) keyed
    × Perm (map (λ x. x.1) keyed ++ select (lacks by_head_coverage) touched) touched
sort_impacted_files-sorted_example =
    sort_impacted_files-sorted touched by_head_coverage descending (refl, (refl, (refl, tt)))

abbrev deleted_file : ImpactedFile
deleted_file = record (plain_file "d.py" 1) { head_name = none }

abbrev with_key : World
with_key = record today {
  accounts = record no_accounts {
    fresh = 2;
    repo_tokens = (record { repository = 10; token_type = "upload"; key = 1 }) ∷ [];
  };
}

given_key :
    regenerate_repository_token (caller_of acme) "api" "codecov-user" "upload" today
    ≡ (ok 1, with_key)
unfolding regenerate_repository_token
given_key = refl

regenerate_repository_token-key_example :
    (r : Repository) × (active_repo (caller_of acme) "codecov-user" "api" today ≡ some r)
    × Regenerated r "upload" today (ok 1, with_key)
regenerate_repository_token-key_example =
    regenerate_repository_token-key (caller_of acme) "api" "codecov-user" "upload" today with_key 1
      tt given_key
