-- ===== src/Commands/Tenants.antt =====
-- codecov_auth/commands and core/commands: which rows a command can change, and for whom.
use codecov_api.Base.{
  All, Bool, Bool-cases, List, Option, Option-cases, String, [], ap, arith, eq_iff, if◌then◌else◌,
  inl, inr, none, refl, some, str_eq, subst, sym, true, ℕ, ◌&&◌, ◌+◌, ◌<◌, ◌==◌, ◌∙◌, ◌∷◌, ◌≡◌, ◌≢◌,
}
use codecov_api.Owner.{Owner, Repository}
use codecov_api.Accounts.{RepositoryToken}
use codecov_api.Store.{>>=-cong, Outcome, World, err, lift, ok, pure, validation_error, ◌>>=◌}
use codecov_api.Commands.{Caller, owner_named}
use codecov_api.Commands.Owners.{Forms, cancel_trial_of, found_owner, start_trial_of}
use codecov_api.Commands.Repositories.{active_repo, key_of, put_key, regenerate_repository_token}
use codecov_api.Commands.Mutations.{cancel_trial_with, resolve, start_trial_with}
use codecov_api.Plan.Service.{cancel_trial, init, start_trial}

owner_named-service :
    (c c' : Caller) (name : String) (w : World)
    → c.service ≡ c'.service
    → owner_named c name w ≡ owner_named c' name w
unfolding owner_named
owner_named-service c c' name w e = rw e refl

found_owner-service :
    (c c' : Caller) (name : String) (w : World)
    → c.service ≡ c'.service
    → found_owner c name w ≡ found_owner c' name w
found_owner-service c c' name w e =
    ap
      (λ (found : Option Owner). elim found as (λ _. Outcome Owner × World) [
        | none ↦ (err validation_error, w)
        | some o ↦ (ok o, w)
      ])
      (owner_named-service c c' name w e)

trial-anyone :
    (c c' : Caller) (org : String) (w : World)
    → c.service ≡ c'.service
    → (start_trial_of c org w ≡ start_trial_of c' org w)
      × (cancel_trial_of c org w ≡ cancel_trial_of c' org w)
unfolding start_trial_of cancel_trial_of
trial-anyone c c' org w e = (
  >>=-cong (found_owner c org) (found_owner c' org)
      (λ owner. lift (init owner) >>= λ service. start_trial service >>= λ _. pure (tt {0})) w
      (found_owner-service c c' org w e),
  >>=-cong (found_owner c org) (found_owner c' org)
      (λ owner. lift (init owner) >>= λ service. cancel_trial service >>= λ _. pure (tt {0})) w
      (found_owner-service c c' org w e),
)

-- Starting and cancelling a trial do the same whoever is logged in: nothing asks whether the
-- caller belongs to the organisation.
pub resolve-trial_anyone :
    (forms : Forms) (enabled : Bool) (c c' : Caller) (org : String) (w : World)
    → c.request_user ≡ true
    → c'.request_user ≡ true
    → c.service ≡ c'.service
    → (resolve forms enabled c (start_trial_with org) w
        ≡ resolve forms enabled c' (start_trial_with org) w)
      × (resolve forms enabled c (cancel_trial_with org) w
          ≡ resolve forms enabled c' (cancel_trial_with org) w)
unfolding resolve
resolve-trial_anyone forms enabled c c' org w a b e =
    let (starts, cancels) = trial-anyone c c' org w e in
    (ground (arith, starts), ground (arith, cancels))

key_of-put_key :
    (i j : ℕ) (t u : String) (key : ℕ) (rows : List RepositoryToken)
    → key_of j u (put_key i t key rows)
      ≡ (if i == j && str_eq t u then some key else key_of j u rows)
unfolding key_of put_key
key_of-put_key i j t u key [] = ground (arith, eq_iff t u)
key_of-put_key i j t u key (r ∷ rows) = ground (
  arith,
  eq_iff t u,
  eq_iff r.token_type t,
  eq_iff r.token_type u,
  key_of-put_key i j t u key rows,
)

abbrev regenerated_rows : Repository → String → World → World
regenerated_rows r t w = record w {
  accounts = record w.accounts {
    fresh = w.accounts.fresh + 1;
    repo_tokens = put_key r.repoid t w.accounts.fresh w.accounts.repo_tokens;
  };
}

regenerate-some :
    (c : Caller) (repo_name owner_username t : String) (w : World) (r : Repository)
    → active_repo c owner_username repo_name w ≡ some r
    → regenerate_repository_token c repo_name owner_username t w
      ≡ (ok w.accounts.fresh, regenerated_rows r t w)
unfolding regenerate_repository_token
regenerate-some c repo_name owner_username t w r e = ground arith

regenerate-none :
    (c : Caller) (repo_name owner_username t : String) (w : World)
    → active_repo c owner_username repo_name w ≡ none
    → regenerate_repository_token c repo_name owner_username t w ≡ (err validation_error, w)
unfolding regenerate_repository_token
regenerate-none c repo_name owner_username t w e = ground arith

-- Every stored key was given before.
abbrev pub AreGiven : World → Type 0
AreGiven w = All (λ (t : RepositoryToken). t.key < w.accounts.fresh) w.accounts.repo_tokens

put_key-AreGiven :
    (i : ℕ) (t : String) (key bound : ℕ) (rows : List RepositoryToken)
    → key < bound
    → All (λ (r : RepositoryToken). r.key < key) rows
    → All (λ (r : RepositoryToken). r.key < bound) (put_key i t key rows)
unfolding put_key
put_key-AreGiven i t key bound [] h a = (h, tt)
put_key-AreGiven i t key bound (r ∷ rows) h (b, a) =
    elim (Bool-cases ((r.repository == i) && str_eq r.token_type t)) [
      | inl e ↦ rw e (h, weaker rows a)
      | inr e ↦ rw e (omega arith, put_key-AreGiven i t key bound rows h a)
    ]
  where
    weaker :
        (rows : List RepositoryToken)
        → All (λ (r : RepositoryToken). r.key < key) rows
        → All (λ (r : RepositoryToken). r.key < bound) rows
    weaker [] a = tt
    weaker (r ∷ rows) (b, a) = (omega arith, weaker rows a)

key_of-fresh :
    (j : ℕ) (u : String) (key : ℕ) (rows : List RepositoryToken)
    → All (λ (r : RepositoryToken). r.key < key) rows
    → key_of j u rows ≢ some key
unfolding key_of
key_of-fresh j u key [] a h = cc
key_of-fresh j u key (r ∷ rows) (b, a) h =
    elim (Bool-cases ((r.repository == j) && str_eq r.token_type u)) [
      | inl e ↦ absurd (ground arith)
      | inr e ↦ key_of-fresh j u key rows a (rw e at h)
    ]

-- What a regenerated key is, and what it changes.
abbrev pub Regenerated : Repository → String → World → Outcome ℕ × World → Type 0
Regenerated r t w (err e, v) = Unit
Regenerated r t w (ok key, v) =
    ((j : ℕ) (u : String) → key_of j u w.accounts.repo_tokens ≢ some key)
    × ((j : ℕ) (u : String)
        → key_of j u v.accounts.repo_tokens
          ≡ (if r.repoid == j && str_eq t u then some key else key_of j u w.accounts.repo_tokens))
    × (v ≡ record w {
      accounts = record w.accounts {
        fresh = v.accounts.fresh;
        repo_tokens = v.accounts.repo_tokens;
      };
    })
    × AreGiven v

-- Where every stored key of a repository was given before: a key that is regenerated is the key that
-- the repository then has for that type, and no repository had it for any type. The keys of other
-- repositories and types stay as they are, nothing else of the state is changed but the supply of
-- new numbers, and every stored key was again given before. The repository is the one that
-- `active_repo` finds.
pub regenerate_repository_token-key :
    (c : Caller) (repo_name owner_username t : String) (w w' : World) (key : ℕ)
    → AreGiven w
    → regenerate_repository_token c repo_name owner_username t w ≡ (ok key, w')
    → (r : Repository) × (active_repo c owner_username repo_name w ≡ some r)
      × Regenerated r t w (ok key, w')
regenerate_repository_token-key c repo_name owner_username t w w' key given h =
    elim (Option-cases (active_repo c owner_username repo_name w)) [
      | inl e ↦ absurd (refused (sym (regenerate-none c repo_name owner_username t w e) ∙ h))
      | inr (r, e) ↦
          let facts : Regenerated r t w (ok w.accounts.fresh, regenerated_rows r t w) = (
            (λ j u. key_of-fresh j u w.accounts.fresh w.accounts.repo_tokens given),
            (λ j u. key_of-put_key r.repoid j t u w.accounts.fresh w.accounts.repo_tokens),
            refl,
            put_key-AreGiven r.repoid t w.accounts.fresh (w.accounts.fresh + 1)
                w.accounts.repo_tokens (omega arith) given,
          ) in
          let answer = sym (regenerate-some c repo_name owner_username t w r e) ∙ h in
          (r, e, subst (Regenerated r t w) answer facts)
    ]
  where
    refused : ◌≡◌ {A = Outcome ℕ × World} (err validation_error, w) (ok key, w') → ⊥
    refused p = ground arith
