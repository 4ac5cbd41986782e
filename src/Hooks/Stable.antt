-- ===== src/Hooks/Stable.antt =====
-- webhook_handlers/views: the conditions on the state that the handlers' writes keep.
pub mod Github
pub mod Gitlab
pub mod Bitbucket
use codecov_api.Base.{
  Bool, List, Option, String, [], any, false, none, refl, select, some, true, ℕ, ◌++◌, ◌+◌, ◌==◌,
  ◌∷◌, ◌≡◌,
}
use codecov_api.Owner.{Branch, Commit, Owner, Pull, Repository}
use codecov_api.Store.{
  Event, Task, World, database_error, err, get_owner, notify, ok, one, save, track, update_rows,
}
use codecov_api.Access.{save_permission}
use codecov_api.Hooks.{
  delete_branches, find_repo, has_complete, has_repoid, owner_by_service_id, queue, save_owner,
  save_repo, save_stamped, update_commits, update_pulls, update_where,
}
use codecov_api.Hooks.Rows.{
  ForkOwner, ForkRepo, GitRepo, fork_data, get_or_create_from_git_repo, get_or_create_owner,
  get_or_create_repo, insert_owner, insert_repo, link_fork, or_text, owner_clash, repo_clash,
}
use codecov_api.Hooks.Rules.{
  Keeps, Keeps-attempt, Keeps-bind, Keeps-need, Keeps-one, Keeps-option, Keeps-pure, Keeps-raise,
  after_if,
}

-- A repository that was deleted is neither active nor activated.
abbrev pub IsCoherent : Repository → Type 0
IsCoherent r = r.deleted ≡ true → (r.active ≡ false) × (r.activated ≡ false)

abbrev pub IsTame : (Repository → Repository) → Type 0
IsTame f = (r : Repository) → IsCoherent r → IsCoherent (f r)

abbrev pub is_notify : Task → Bool
is_notify (notify i c) = true
is_notify _ = false

-- A condition that all writes of the handlers keep but for the queueing of a notification.
pub record IsStable (I : World → Type 0) : Type 0 where
  pub owners :
      (w : World) (rows : List Owner) (i : ℕ)
      → I w
      → I (record w { owners = rows; next_ownerid = i })
  pub commits : (w : World) (rows : List Commit) → I w → I (record w { commits = rows })
  pub branches : (w : World) (rows : List Branch) → I w → I (record w { branches = rows })
  pub pulls : (w : World) (rows : List Pull) → I w → I (record w { pulls = rows })
  pub events : (w : World) (es : List Event) → I w → I (record w { segment_log = es })
  pub tasks :
      (w : World) (t : Task)
      → is_notify t ≡ false
      → I w
      → I (record w { tasks = w.tasks ++ t ∷ [] })
  pub repos :
      (w : World) (p : Repository → Bool) (f : Repository → Repository)
      → IsTame f
      → I w
      → I (record w { repos = update_where p f w.repos })
  pub repo :
      (w : World) (r : Repository) (i : ℕ)
      → IsCoherent r
      → I w
      → I (record w { repos = w.repos ++ r ∷ []; next_repoid = i })

module _ {I : World → Type 0} (stable : IsStable I) where
  pub Keeps-find_repo : (p : List Owner → Repository → Bool) → Keeps I (find_repo p)
  unfolding find_repo
  Keeps-find_repo p = Keeps-one (λ w. one (select (p w.owners) w.repos))

  pub Keeps-owner_by_service_id :
      (service : String) (i : Option String) → Keeps I (owner_by_service_id service i)
  unfolding owner_by_service_id get_owner
  Keeps-owner_by_service_id service i = Keeps-one _

  pub Keeps-get_owner : (p : Owner → Bool) → Keeps I (get_owner p)
  unfolding get_owner
  Keeps-get_owner p = Keeps-one _

  pub Keeps-has_complete : (i : ℕ) (c : Option String) → Keeps I (has_complete i c)
  unfolding has_complete
  Keeps-has_complete i c = record { run = λ w h. h }

  pub Keeps-save_repo : (i : ℕ) (f : Repository → Repository) → IsTame f → Keeps I (save_repo i f)
  unfolding save_repo
  Keeps-save_repo i f t = record { run = λ w h. stable.repos w (has_repoid i) f t h }

  pub Keeps-save_owner : (i : ℕ) (f : Owner → Owner) → Keeps I (save_owner i f)
  unfolding save_owner
  Keeps-save_owner i f = record { run = λ w h. stable.owners w _ w.next_ownerid h }

  pub Keeps-save_stamped : (i : ℕ) (f : Owner → Owner) → Keeps I (save_stamped i f)
  unfolding save_stamped
  Keeps-save_stamped i f = record {
    run = λ w h. (Keeps-save_owner i (λ o. record (f o) { updatestamp = w.now })).run w h;
  }

  pub Keeps-update_commits :
      (p : Commit → Bool) (f : Commit → Commit) → Keeps I (update_commits p f)
  unfolding update_commits
  Keeps-update_commits p f = record { run = λ w h. stable.commits w _ h }

  pub Keeps-update_pulls : (p : Pull → Bool) (f : Pull → Pull) → Keeps I (update_pulls p f)
  unfolding update_pulls
  Keeps-update_pulls p f = record { run = λ w h. stable.pulls w _ h }

  pub Keeps-delete_branches : (i : ℕ) (name : String) → Keeps I (delete_branches i name)
  unfolding delete_branches
  Keeps-delete_branches i name = record { run = λ w h. stable.branches w _ h }

  pub Keeps-queue : (t : Task) → is_notify t ≡ false → Keeps I (queue t)
  Keeps-queue t e = record { run = λ w h. stable.tasks w t e h }

  pub Keeps-track : (e : Event) → Keeps I (track e)
  Keeps-track e = record { run = λ w h. stable.events w _ h }

  pub Keeps-save : (o : Owner) → Keeps I (save o)
  unfolding save
  Keeps-save o = record { run = λ w h. stable.owners w _ w.next_ownerid h }

  pub Keeps-save_permission : (o : Owner) → Keeps I (save_permission o)
  unfolding save_permission
  Keeps-save_permission o = record {
    run = λ w h.
        after_if (λ _. I) I (any (λ (r : Owner). r.ownerid == o.ownerid) w.owners)
          (
            ok (record o { updatestamp = w.now }),
            record w {
              owners =
                  update_rows (λ r. r.ownerid == o.ownerid)
                    (λ r. record r { permission = o.permission }) w.owners;
            },
          )
          (err database_error, w) (stable.owners w _ w.next_ownerid h) h;
  }

  module _ (same : String → String → Bool) where
    pub Keeps-insert_owner : (f : World → Owner) → Keeps I (λ w. insert_owner same (f w) w)
    unfolding insert_owner
    Keeps-insert_owner f = record {
      run = λ w h.
          after_if (λ _. I) I (any (owner_clash same (f w)) w.owners) (err database_error, w)
            (
              ok (f w),
              record w { owners = w.owners ++ f w ∷ []; next_ownerid = w.next_ownerid + 1 },
            )
            h (stable.owners w _ _ h);
    }

    pub Keeps-insert_repo :
        (f : World → Repository)
        → ((w : World) → IsCoherent (f w))
        → Keeps I (λ w. insert_repo same (f w) w)
    unfolding insert_repo
    Keeps-insert_repo f c = record {
      run = λ w h.
          after_if (λ _. I) I (any (repo_clash same (f w)) w.repos) (err database_error, w)
            (ok (f w), record w { repos = w.repos ++ f w ∷ []; next_repoid = w.next_repoid + 1 }) h
            (stable.repo w (f w) _ (c w) h);
    }

    pub Keeps-get_or_create_owner :
        (service service_id : String) (username : Option String)
        → Keeps I (get_or_create_owner same service service_id username)
    unfolding get_or_create_owner
    Keeps-get_or_create_owner service service_id username =
        Keeps-bind _ _ (Keeps-attempt _ (Keeps-get_owner _))
          (λ row. Keeps-option row (Keeps-insert_owner _) (λ o. Keeps-pure o))

    pub Keeps-get_or_create_repo :
        (author : ℕ) (service_id : Option String) (private : Bool) (branch : Option String)
        (name : String)
        → Keeps I (get_or_create_repo same author service_id private branch name)
    unfolding get_or_create_repo
    Keeps-get_or_create_repo author none private branch name = Keeps-raise _
    Keeps-get_or_create_repo author (some i) private none name = Keeps-raise _
    Keeps-get_or_create_repo author (some i) private (some branch) name =
        Keeps-bind _ _ (Keeps-attempt _ (Keeps-find_repo _))
          (λ row. Keeps-option row (Keeps-insert_repo _ (λ w e. (refl, refl))) (λ r. Keeps-pure r))

    Keeps-link_fork :
        (repo : Repository) (owner : Owner) (f : ForkRepo × ForkOwner)
        → Keeps I (link_fork same repo owner f)
    unfolding link_fork
    Keeps-link_fork repo owner (git_fork, git_owner) =
        Keeps-bind _ _ (Keeps-need git_owner.username) (λ username.
          Keeps-bind _ _ (Keeps-need git_owner.service_id) (λ owner_service_id.
            Keeps-bind _ _
              (Keeps-get_or_create_owner owner.service owner_service_id (some username))
              (λ fork_owner. Keeps-bind _ _ (Keeps-need git_fork.service_id) (λ service_id.
                Keeps-bind _ _ (Keeps-need git_fork.private) (λ private.
                  Keeps-bind _ _ (Keeps-need git_fork.name) (λ name.
                    Keeps-bind _ _
                      (Keeps-get_or_create_repo fork_owner.ownerid (some service_id) private
                        (or_text git_fork.branch git_fork.default_branch) name)
                      (λ fork.
                        Keeps-bind _ _
                          (Keeps-save_repo repo.repoid (λ r. record r { fork = some fork.repoid })
                            (λ r c. c))
                          (λ _. Keeps-pure (record repo { fork = some fork.repoid })))))))))

    pub Keeps-get_or_create_from_git_repo :
        (g : GitRepo) (owner : Owner) → Keeps I (get_or_create_from_git_repo same g owner)
    unfolding get_or_create_from_git_repo
    Keeps-get_or_create_from_git_repo g owner = Keeps-bind _ _ (Keeps-need g.private) (λ private.
        Keeps-bind _ _ (Keeps-need g.name) (λ name.
          Keeps-bind _ _ (Keeps-get_or_create_repo _ _ _ _ _) (λ repo.
            Keeps-option (fork_data g.fork) (Keeps-pure repo) (λ f. Keeps-link_fork repo owner f))))
