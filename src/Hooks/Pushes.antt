-- ===== src/Hooks/Pushes.antt =====
-- webhook_handlers/views/github.py: what a push writes to the rows of commits, and which requests
-- are let in.
use codecov_api.Base.{
  ==_iff, Bool, Bool-cases, IsIn, List, Option-cases, String, [], and_iff, ap, arith, eq_iff, false,
  if◌then◌else◌, inl, inr, join, map, mem_str_iff, none, opt_false_iff, refl, some, str_eq, true, ℕ,
  ◌↔◌, ◌∙◌, ◌∷◌, ◌≡◌, ◌≢◌, ◌⊎◌,
}
use codecov_api.Owner.{Commit, Repository}
use codecov_api.Store.{World, pure, ◌>>=◌}
use codecov_api.Hooks.{Services, update_commits, update_where}
use codecov_api.Hooks.Updates.{Updated, update_where-Updated}
use codecov_api.Hooks.Github.{
  Pushed, Request, digests, is_pushed, last_pushed, push_commits, pushed_ids, set_branch,
  set_merged, set_pending, validate_signature,
}
use codecov_api.Hooks.Github.Accounts.{github_post}

-- Two updates of the rows that pass a test which the first one does not change.
update_where_twice :
    {A : Type 0} (p : A → Bool) (f g : A → A) (same : (a : A) → p (f a) ≡ p a) (rows : List A)
    → update_where p g (update_where p f rows) ≡ update_where p (λ a. g (f a)) rows
unfolding update_where
update_where_twice p f g same [] = refl
update_where_twice p f g same (r ∷ rows) = elim (Bool-cases (p r)) [
  | inl e ↦
      rw (e, same r ∙ e) (ap (λ (k : List _). g (f r) ∷ k) (update_where_twice p f g same rows))
  | inr e ↦ rw (e, e) (ap (λ (k : List _). r ∷ k) (update_where_twice p f g same rows))
]

ids_of : (cs : List Pushed) → pushed_ids cs ≡ map (λ c. c.id) cs
ids_of [] = refl
ids_of (c ∷ cs) = ap (λ (k : List String). c.id ∷ k) (ids_of cs)

is_pushed_iff :
    (repoid : ℕ) (cs : List Pushed) (k : Commit)
    → (is_pushed repoid cs k ≡ true)
      ↔ ((k.repository ≡ repoid) × (IsIn k.commitid (map (λ d. d.id) cs) × (k.merged ≡ some false)))
is_pushed_iff repoid cs k = rw (← ids_of cs) (
    and_iff _ _ (==_iff k.repository repoid)
      (and_iff _ _ (mem_str_iff k.commitid (pushed_ids cs)) (opt_false_iff k.merged)))

module _ (services : Services) (service_name key : String) where
  set_pending_commits :
      (repo : Repository) (name : String) (c : Pushed) (w : World)
      → (set_pending services service_name key repo name c w).1.commits ≡ w.commits
  unfolding set_pending
  set_pending_commits repo name c w = ground arith

  -- The second update, and what comes after it.
  merge_step :
      (repo : Repository) (name : String) (c : Pushed) (p : Commit → Bool)
      (same : (k : Commit) → p (set_branch name k) ≡ p k) (rows : List Commit) (b : Bool)
      (v : World)
      → v.commits ≡ update_where p (set_branch name) rows
      → (((if b then update_commits p set_merged else pure tt) >>= λ _.
            set_pending services service_name key repo name c)
          v).1.commits
        ≡ update_where p
            (λ k. record k { branch = some name; merged = if b then some true else k.merged })
            rows
  unfolding update_commits
  merge_step repo name c p same rows true v e =
      set_pending_commits repo name c (record v { commits = update_where p set_merged v.commits })
      ∙ ap (λ (ks : List Commit). update_where p set_merged ks) e
      ∙ update_where_twice p (set_branch name) set_merged same rows
  merge_step repo name c p same rows false v e = set_pending_commits repo name c v ∙ e

  written :
      (repo : Repository) (name : String) (c : Pushed) (cs : List Pushed) (w : World)
      → (push_commits services service_name key repo name (c ∷ cs) w).1.commits
        ≡ update_where
            (is_pushed repo.repoid (c ∷ cs))
            (λ k. record k {
              branch = some name;
              merged = if str_eq name repo.branch then some true else k.merged;
            })
            w.commits
  unfolding push_commits update_commits
  written repo name c cs w =
      merge_step repo name (last_pushed c cs) (is_pushed repo.repoid (c ∷ cs)) (λ k. refl) w.commits
        (str_eq name repo.branch)
        (record w {
          commits = update_where (is_pushed repo.repoid (c ∷ cs)) (set_branch name) w.commits;
        })
        refl

  -- A commit of the repository whose id is among those of a push gets the name of the branch if it
  -- is known not to be merged, and then counts as merged if the branch is the default one; every
  -- other commit stays as it is.
  pub push_commits-commits :
      (repo : Repository) (name : String) (c : Pushed) (cs : List Pushed) (w : World)
      → Updated
          (λ k.
            (k.repository ≡ repo.repoid)
            × (IsIn k.commitid (map (λ d. d.id) (c ∷ cs)) × (k.merged ≡ some false)))
          (λ k. record k {
            branch = some name;
            merged = if str_eq name repo.branch then some true else k.merged;
          })
          w.commits
          (push_commits services service_name key repo name (c ∷ cs) w).1.commits
  push_commits-commits repo name c cs w = rw (written repo name c cs w) (
      update_where-Updated _ _ (is_pushed repo.repoid (c ∷ cs)) (is_pushed_iff repo.repoid (c ∷ cs))
        w.commits)

  -- The stated digest is the computed one.
  abbrev signed : Request → Bool
  signed r = elim (digests services service_name key r) [
    | none ↦ false
    | some (computed, expected) ↦ str_eq computed expected
  ]

  signed_digest :
      (r : Request)
      → signed r ≡ true
      → (expected : String) × (((r.signature_256 ≡ some expected)
            × (join "sha256=" (services.hexdigest_sha256 key r.content) ≡ expected))
          ⊎ ((r.signature_256 ≡ none)
              × (r.signature ≡ some expected)
              × (join "sha1=" (services.hexdigest_sha1 key r.content) ≡ expected)))
  signed_digest r e = elim (Option-cases r.signature_256) [
    | inl n ↦ elim (Option-cases r.signature) [
      | inl m ↦ absurd (ground arith)
      | inr (s, m) ↦ (s, inr (n, m, (eq_iff _ s).0 (rw (n, m) at e)))
    ]
    | inr (s, m) ↦ (s, inl (m, (eq_iff _ s).0 (rw m at e)))
  ]

  refused :
      (r : Request) (w : World)
      → signed r ≡ false
      → (github_post services service_name key r w).1 ≡ w
  unfolding github_post validate_signature
  refused r w e = ground arith

  -- A request that changes anything states the SHA-256 digest of its content, or it states none of
  -- that kind and the SHA-1 digest.
  pub github_post-refuses :
      (r : Request) (w : World)
      → (github_post services service_name key r w).1 ≢ w
      → (expected : String) × (((r.signature_256 ≡ some expected)
            × (join "sha256=" (services.hexdigest_sha256 key r.content) ≡ expected))
          ⊎ ((r.signature_256 ≡ none)
              × (r.signature ≡ some expected)
              × (join "sha1=" (services.hexdigest_sha1 key r.content) ≡ expected)))
  unfolding github_post
  github_post-refuses r w changed = elim (Bool-cases (signed r)) [
    | inl e ↦ signed_digest r e
    | inr e ↦ absurd (changed (refused r w e))
  ]
