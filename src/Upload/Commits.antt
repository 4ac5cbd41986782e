-- ===== src/Upload/Commits.antt =====
-- upload/helpers.py: `insert_commit`.
use codecov_api.Base.{
  Bool, List, Option, String, [], ap, arith, eq_iff, false, if◌then◌else◌, is_some, map, none, not,
  refl, select, some, str_eq, sym, true, truthy, ℕ, ◌&&◌, ◌++◌, ◌==◌, ◌∙◌, ◌∷◌, ◌≡◌,
}
use codecov_api.Owner.{Commit}
use codecov_api.Store.{Exec, Outcome, World, does_not_exist, err, ok, ok-injective, one, pure, ◌>>◌}
use codecov_api.Hooks.{update_commits, update_where}

abbrev pub is_commit : ℕ → String → Commit → Bool
is_commit repoid commitid c = (c.repository == repoid) && str_eq c.commitid commitid

-- The row that insert_commit creates.
abbrev pub new_commit : String → Option String → Option ℕ → ℕ → Option String → ℕ → Commit
new_commit commitid branch pr repoid parent now = record {
  repository = repoid;
  commitid = commitid;
  branch = branch;
  merged = elim pr [ none ↦ none | some n ↦ some false ];
  pullid = pr;
  parent_commit_id = parent;
  state = some "pending";
  timestamp = now;
}

-- What insert_commit does to a row that is there.
abbrev pub reset_commit : Option String → Commit → Commit
reset_commit parent c = record c {
  state = some "pending";
  parent_commit_id =
      if truthy parent && not (is_some c.parent_commit_id) then parent else c.parent_commit_id;
}

-- What insert_commit does with the row that it finds, or with none.
unfoldable pub insert_found :
    String → Option String → Option ℕ → ℕ → Option String → Outcome Commit → Exec Commit
unfolding update_commits
insert_found commitid branch pr repoid parent (err does_not_exist) w = (
  ok (new_commit commitid branch pr repoid parent w.now),
  record w { commits = w.commits ++ new_commit commitid branch pr repoid parent w.now ∷ [] },
)
insert_found commitid branch pr repoid parent (err e) w = (err e, w)
insert_found commitid branch pr repoid parent (ok c) w =
    (update_commits (is_commit repoid commitid) (reset_commit parent)
        >> pure (reset_commit parent c))
      w

-- insert_commit
unfoldable pub insert_commit : String → Option String → Option ℕ → ℕ → Option String → Exec Commit
unfolding insert_found
insert_commit commitid branch pr repoid parent w =
    insert_found commitid branch pr repoid parent
      (one (select (is_commit repoid commitid) w.commits)) w

-- A stored row of the commit.
abbrev pub stored : ℕ → String → World → Outcome Commit
stored repoid commitid w = one (select (is_commit repoid commitid) w.commits)

select-snoc :
    (p : Commit → Bool) (rows : List Commit) (c : Commit)
    → p c ≡ true
    → select p (rows ++ c ∷ []) ≡ select p rows ++ c ∷ []
select-snoc p [] c e = rw e refl
select-snoc p (r ∷ rows) c e = ground (arith, select-snoc p rows c e)

select-update_where :
    (p : Commit → Bool) (f : Commit → Commit)
    → ((c : Commit) → p (f c) ≡ p c)
    → (rows : List Commit) → select p (update_where p f rows) ≡ map f (select p rows)
unfolding update_where
select-update_where p f same [] = refl
select-update_where p f same (r ∷ rows) = ground (arith, select-update_where p f same rows, same r)

one_found : (rows : List Commit) (c : Commit) → one rows ≡ ok c → rows ≡ c ∷ []
one_found [] c h = absurd (ground arith)
one_found (r ∷ []) c h = ap (λ (x : Commit). x ∷ []) (ok-injective h)
one_found (r ∷ q ∷ rows) c h = absurd (ground arith)

one_missing : (rows : List Commit) → one rows ≡ err does_not_exist → rows ≡ []
one_missing [] h = refl
one_missing (r ∷ []) h = absurd (ground arith)
one_missing (r ∷ q ∷ rows) h = absurd (ground arith)

module _ (commitid : String) (branch : Option String) (pr : Option ℕ) (repoid : ℕ)
    (parent : Option String) (w : World) where
  created :
      stored repoid commitid w ≡ err does_not_exist
      → stored repoid commitid (record w {
        commits = w.commits ++ new_commit commitid branch pr repoid parent w.now ∷ [];
      })
        ≡ ok (new_commit commitid branch pr repoid parent w.now)
  created e =
      let row : Commit = new_commit commitid branch pr repoid parent w.now in
      ap one (
        select-snoc (is_commit repoid commitid) w.commits row
          (ground (arith, eq_iff commitid commitid))
        ∙ ap (λ (rows : List Commit). rows ++ row ∷ [])
            (one_missing (select (is_commit repoid commitid) w.commits) e))

  kept :
      (c : Commit)
      → stored repoid commitid w ≡ ok c
      → stored repoid commitid (record w {
        commits = update_where (is_commit repoid commitid) (reset_commit parent) w.commits;
      })
        ≡ ok (reset_commit parent c)
  kept c e = ap one (
      select-update_where (is_commit repoid commitid) (reset_commit parent) (λ k. refl) w.commits
      ∙ ap (λ (rows : List Commit). map (reset_commit parent) rows)
          (one_found (select (is_commit repoid commitid) w.commits) c e))

-- What is inserted is found, as the row that is returned, whether the commit was there before or
-- not, and waits to be processed.
pub insert_commit-stored :
    (commitid : String) (branch : Option String) (pr : Option ℕ) (repoid : ℕ)
    (parent : Option String) (w v : World) (c : Commit)
    → insert_commit commitid branch pr repoid parent w ≡ (ok c, v)
    → (stored repoid commitid v ≡ ok c) × (c.state ≡ some "pending")
unfolding insert_commit insert_found update_commits
insert_commit-stored commitid branch pr repoid parent w v c h = go (stored repoid commitid w) refl h
  where
    go :
        (o : Outcome Commit)
        → stored repoid commitid w ≡ o
        → insert_found commitid branch pr repoid parent o w ≡ (ok c, v)
        → (stored repoid commitid v ≡ ok c) × (c.state ≡ some "pending")
    go (ok x) e k = (
      ap (stored repoid commitid) (sym (ap (λ (p : Outcome Commit × World). p.1) k))
          ∙ kept commitid branch pr repoid parent w x e
          ∙ ap (λ (p : Outcome Commit × World). p.0) k,
      ap (λ (q : Commit). q.state)
          (sym (ok-injective (ap (λ (p : Outcome Commit × World). p.0) k))),
    )
    go (err does_not_exist) e k = (
      ap (stored repoid commitid) (sym (ap (λ (p : Outcome Commit × World). p.1) k))
          ∙ created commitid branch pr repoid parent w e
          ∙ ap (λ (p : Outcome Commit × World). p.0) k,
      ap (λ (q : Commit). q.state)
          (sym (ok-injective (ap (λ (p : Outcome Commit × World). p.0) k))),
    )
    go (err _) e k = absurd (ground arith)
