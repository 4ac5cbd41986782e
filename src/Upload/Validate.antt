-- ===== src/Upload/Validate.antt =====
-- upload/helpers.py: `validate_upload`, which activates the repository, and `insert_commit`; with the
-- credits of legacy plans of codecov_auth/models.py.
use Prim.Native.Char.{code}
use text.Mathlib.Text.{starts_with}
use codecov_api.Base.{
  ==_iff, Bool, Bool-cases, Option, String, [], arith, false, if◌then◌else◌, inl, inr, length, ltb,
  negsuc, none, not, pos, refl, select, skip, some, some-injective, str_eq, sub_ℕ, subst, sym, true,
  ℕ, ℤ, ◌&&◌, ◌*◌, ◌++◌, ◌+◌, ◌-◌, ◌==◌, ◌↔◌, ◌∷◌, ◌≡◌, ◌⊎◌,
}
use codecov_api.Owner.{Commit, Owner, Repository, has_legacy_plan}
use codecov_api.Store.{
  Exec, Outcome, World, account_activated_repository_on_upload, does_not_exist, err, ok, one, pure,
  track, validation_error, value_error, ◌>>=◌,
}
use codecov_api.Plan.Service.{find_plan}
use codecov_api.Hooks.{has_repoid, is_id, save_repo}
use codecov_api.Hooks.Updates.{Updated, update_where-Updated}
use codecov_api.Hooks.Bitbucket.{drop_last}
use codecov_api.Upload.{is_digit}
use codecov_api.Upload.Limits.{
  UploadSettings, determine_responsible_owner, new_session_count, or_150,
}

-- The number that a row of digits stands for.
abbrev pub decimal : ℕ → String → Option ℕ
decimal n String.[] = some n
decimal n (String.◌∷◌ c s) =
    if is_digit (code c) then decimal (n * 10 + (code c - b'0')) s else none

-- int(…): a text that is not a row of digits raises. The signs, blanks and underscores that int
-- also reads do not stand in the names of plans.
abbrev pub int : String → Outcome ℕ
int s =
    if str_eq s ""
    then err value_error
    else elim (decimal 0 s) [ none ↦ err value_error | some n ↦ ok n ]

-- Owner.repo_total_credits of a legacy plan.
unfoldable pub repo_total_credits : Owner → Outcome ℕ
repo_total_credits o = elim o.plan [
  | none ↦ ok (1 + o.free)
  | some plan ↦
      if starts_with plan "v4-" then int (drop_last (skip 3 plan)) else int (drop_last plan)
]

-- Owner.nb_active_private_repos
abbrev pub nb_active_private_repos : World → Owner → ℕ
nb_active_private_repos w o =
    length (select (λ (r : Repository). (r.author == o.ownerid) && (r.active && r.private)) w.repos)

-- Owner.repo_credits: none stands for INFINITY.
unfoldable pub repo_credits : World → Owner → Outcome (Option ℤ)
unfolding repo_total_credits
repo_credits w o = if not (has_legacy_plan o) then ok none else elim (repo_total_credits o) [
  | err e ↦ err e
  | ok n ↦ ok (some (sub_ℕ n (nb_active_private_repos w o)))
]

-- `credits <= 0`
abbrev pub is_used_up : Option ℤ → Bool
is_used_up none = false
is_used_up (some (pos n)) = n == 0
is_used_up (some (negsuc n)) = true

-- validate_activated_repo
unfoldable pub validate_activated_repo : Repository → Outcome (Unit {0})
validate_activated_repo repo =
    if repo.active && not repo.activated then err validation_error else ok tt

-- The sessions of the commit are not too many; a commit without a row has none.
unfoldable pub check_sessions :
    UploadSettings → World → Repository → Option String → Outcome (Unit {0})
check_sessions settings w repo commitid =
    elim (one (
      select (λ (c : Commit). (c.repository == repo.repoid) && is_id commitid c.commitid)
        w.commits)) [
          | err does_not_exist ↦ ok tt
          | err e ↦ err e
          | ok c ↦
              if ltb (or_150 settings.max_sessions)
                (new_session_count settings w repo.repoid c.commitid)
              then err validation_error
              else ok tt
        ]

-- An owner without a known plan pays with credits.
unfoldable pub check_credits : World → Owner → Outcome (Unit {0})
unfolding repo_credits
check_credits w owner = elim (find_plan owner.plan) [
  | some p ↦ ok tt
  | none ↦ elim (repo_credits w owner) [
    | err e ↦ err e
    | ok credits ↦ if is_used_up credits then err validation_error else ok tt
  ]
]

-- The part of validate_upload for the owner that answers for the upload.
unfoldable pub check_owner_credits :
    UploadSettings → ℕ → World → Repository → Option (Outcome (Unit {0}))
unfolding determine_responsible_owner check_credits
check_owner_credits settings fuel w repo =
    if repo.private && (not repo.activated && not settings.enterprise_license)
    then elim (determine_responsible_owner fuel w repo) [
      | none ↦ none
      | some (err e) ↦ some (err e)
      | some (ok owner) ↦ some (check_credits w owner)
    ]
    else some (ok tt)

-- The checks of validate_upload, in order.
unfoldable pub may_upload :
    UploadSettings → ℕ → World → Repository → Option String → Option (Outcome (Unit {0}))
unfolding validate_activated_repo check_sessions check_owner_credits
may_upload settings fuel w repo commitid = elim (validate_activated_repo repo) [
  | err e ↦ some (err e)
  | ok _ ↦
      if str_eq repo.name ""
      then some (err validation_error)
      else elim (check_sessions settings w repo commitid) [
        | err e ↦ some (err e)
        | ok _ ↦
            if settings.disabled repo.repoid
            then some (err validation_error)
            else check_owner_credits settings fuel w repo
      ]
]

abbrev pub enabled : Repository → Repository
enabled r = record r { activated = true; active = true; deleted = false }

-- The end of validate_upload.
unfoldable pub activate : Repository → Exec (Unit {0})
unfolding save_repo
activate repo = do
  _ ←
      if not repo.activated
      then track (account_activated_repository_on_upload repo.author repo.repoid)
      else pure tt
  save_repo repo.repoid enabled

-- validate_upload: none where the fuel does not suffice to find the owner.
unfoldable pub validate_upload :
    UploadSettings → ℕ → Repository → Option String → World → Option (Outcome (Unit {0}) × World)
unfolding may_upload activate
validate_upload settings fuel repo commitid w = elim (may_upload settings fuel w repo commitid) [
  | none ↦ none
  | some (err e) ↦ some (err e, w)
  | some (ok _) ↦ some (activate repo w)
]

may_upload_guards :
    (settings : UploadSettings) (fuel : ℕ) (w : World) (repo : Repository)
    (commitid : Option String) (u : Unit {0})
    → may_upload settings fuel w repo commitid ≡ some (ok u)
    → ((repo.active && not repo.activated) ≡ false)
      × (str_eq repo.name "" ≡ false)
      × (settings.disabled repo.repoid ≡ false)
unfolding may_upload validate_activated_repo
may_upload_guards settings fuel w repo commitid u h = (
  ground arith,
  ground (arith, Bool-cases (str_eq repo.name "")),
  ground (arith, Bool-cases (settings.disabled repo.repoid)),
)

-- The world after an upload is let in: of the rows, only the repository's is written, and there is
-- an event for Segment where it was not activated before.
abbrev pub LetIn : Repository → World → World → Type 0
LetIn repo w v =
    Updated (λ (r : Repository). r.repoid ≡ repo.repoid)
      (λ r. record r { activated = true; active = true; deleted = false }) w.repos v.repos
    × (v ≡ record w {
      repos = v.repos;
      segment_log =
          if repo.activated
          then w.segment_log
          else w.segment_log ++ account_activated_repository_on_upload repo.author repo.repoid ∷ [];
    })

activate-LetIn :
    (repo : Repository) (w : World)
    → ((activate repo w).0 ≡ ok tt) × LetIn repo w (activate repo w).1
unfolding activate save_repo
activate-LetIn repo w = elim (Bool-cases repo.activated) [
  | inl e ↦ rw e (refl, (update_where-Updated _ _ (has_repoid repo.repoid) same w.repos, refl))
  | inr e ↦ rw e (refl, (update_where-Updated _ _ (has_repoid repo.repoid) same w.repos, refl))
]
  where
    same : (r : Repository) → ((r.repoid == repo.repoid) ≡ true) ↔ (r.repoid ≡ repo.repoid)
    same r = ==_iff r.repoid repo.repoid

-- An upload that is refused, and one that is let in.
abbrev pub Validated : UploadSettings → Repository → World → Outcome (Unit {0}) × World → Type 0
Validated settings repo w (err e, v) = v ≡ w
Validated settings repo w (ok _, v) =
    LetIn repo w v
    × ((repo.active ≡ false) ⊎ (repo.activated ≡ true))
    × (str_eq repo.name "" ≡ false)
    × (settings.disabled repo.repoid ≡ false)

not_deactivated : (a b : Bool) → (a && not b) ≡ false → (a ≡ false) ⊎ (b ≡ true)
not_deactivated false b h = inl refl
not_deactivated true true h = inr refl
not_deactivated true false h = absurd (ground arith)

validated :
    (settings : UploadSettings) (repo : Repository) (w : World)
    (answer : Outcome (Unit {0}) × World) (fuel : ℕ) (commitid : Option String)
    (o : Option (Outcome (Unit {0})))
    → may_upload settings fuel w repo commitid ≡ o
    → (elim o as (λ _. Option (Outcome (Unit {0}) × World)) [
      | none ↦ none
      | some (err e) ↦ some (err e, w)
      | some (ok _) ↦ some (activate repo w)
    ])
      ≡ some answer
    → Validated settings repo w answer
validated settings repo w answer fuel commitid none e h = absurd (ground arith)
validated settings repo w answer fuel commitid (some (err x)) e h =
    subst (Validated settings repo w) (some-injective h) refl
validated settings repo w answer fuel commitid (some (ok u)) e h =
    let (guard, named, allowed) = may_upload_guards settings fuel w repo commitid u e in
    let (accepted, rows) = activate-LetIn repo w in
    subst (Validated settings repo w) (some-injective h) (
      subst (λ (r : Outcome (Unit {0})). Validated settings repo w (r, (activate repo w).1))
        (sym accepted) (rows, not_deactivated repo.active repo.activated guard, named, allowed))

-- An upload that is refused by an error changes nothing. One that is let in makes the row of its
-- repository active, activated and not deleted, and adds an event for Segment if the repository was
-- not activated; nothing else is changed. The repository was not deactivated, has a name, and no
-- setting disables it.
pub validate_upload_lem :
    (settings : UploadSettings) (fuel : ℕ) (repo : Repository) (commitid : Option String)
    (w : World) (answer : Outcome (Unit {0}) × World)
    → validate_upload settings fuel repo commitid w ≡ some answer
    → Validated settings repo w answer
unfolding validate_upload
validate_upload_lem settings fuel repo commitid w answer h =
    validated settings repo w answer fuel commitid (may_upload settings fuel w repo commitid) refl h
