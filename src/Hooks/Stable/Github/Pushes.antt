-- ===== src/Hooks/Stable/Github/Pushes.antt =====
-- webhook_handlers/views/github.py: the handlers of repositories, branches, pushes, pull requests and
-- statuses keep a stable condition.
use mathlib.Core.Option
use codecov_api.Base.{
  Bool, List, Option, String, [], false, if◌then◌else◌, join, leading, none, nonzero, not, refl,
  skip, some, str_eq, true, ℕ, ◌∷◌,
}
use codecov_api.Owner.{Owner, Repository}
use codecov_api.Store.{Exec, World, notify, pulls_sync, status_set_pending, ◌>>◌}
use codecov_api.Hooks.{
  Response, Services, accept, is_pull, is_text, queue, respond, retire, save_repo, says,
  skip_codecov_status, skip_not_active, skip_pending_statuses, skip_processing,
}
use codecov_api.Hooks.Rows.{GitRepo}
use codecov_api.Hooks.Rules.{
  Keeps, Keeps-accept, Keeps-attempt, Keeps-bind, Keeps-if, Keeps-option, Keeps-or_404, Keeps-pure,
  Keeps-raise, Keeps-respond, Keeps-skip,
}
use codecov_api.Hooks.Stable.{
  IsStable, IsTame, Keeps-delete_branches, Keeps-find_repo, Keeps-get_or_create_from_git_repo,
  Keeps-has_complete, Keeps-owner_by_service_id, Keeps-queue, Keeps-save_repo, Keeps-update_commits,
  Keeps-update_pulls,
}
use codecov_api.Hooks.Github.{
  Payload, Pushed, create_missing, get_repo, is_pushed, last_pushed, on_delete, on_public,
  on_pull_request, on_push, on_repository, on_status, privatize, publicize, push_commits,
  repository_change, set_branch, set_merged, set_pending, set_title, syncs,
}
use codecov_api.Hooks.Github.CiSkip.{ci_skip}

retire-IsTame : IsTame retire
retire-IsTame r c e = (refl, refl)

publicize-IsTame : IsTame publicize
publicize-IsTame r c e = ((c e).0, refl)

privatize-IsTame : IsTame privatize
privatize-IsTame r c = c

abbrev AreTame : Option (Repository → Repository) → Type 0
AreTame none = Unit {0}
AreTame (some f) = IsTame f

AreTame-if :
    (b : Bool) (x y : Option (Repository → Repository))
    → AreTame x
    → AreTame y
    → AreTame (if b then x else y)
AreTame-if true x y h k = h
AreTame-if false x y h k = k

repository_change-AreTame : (action : Option String) → AreTame (repository_change action)
repository_change-AreTame action =
    AreTame-if (is_text "publicized" action) (some publicize) _ publicize-IsTame (
      AreTame-if (is_text "privatized" action) (some privatize) _ privatize-IsTame
        (AreTame-if (is_text "deleted" action) (some retire) none retire-IsTame tt))

module _ (services : Services) (service_name key : String) {I : World → Type 0}
    (stable : IsStable I) where
  Keeps-create_missing :
      (g : GitRepo) (owner : Owner) → Keeps I (create_missing services service_name key g owner)
  unfolding create_missing
  Keeps-create_missing g owner =
      Keeps-if (nonzero owner.integration_id) _ _
        (Keeps-get_or_create_from_git_repo stable services.same_text g owner) (Keeps-raise _)

  pub Keeps-get_repo : (g : GitRepo) → Keeps I (get_repo services service_name key g)
  unfolding get_repo
  Keeps-get_repo g =
      Keeps-bind _ _ (Keeps-attempt _ (Keeps-owner_by_service_id stable service_name g.owner_id))
        (λ owner.
          Keeps-option owner
            (Keeps-bind _ _ (Keeps-attempt _ (Keeps-find_repo stable _)) (λ row. Keeps-or_404 row))
            (λ o.
              Keeps-bind _ _ (Keeps-attempt _ (Keeps-find_repo stable _))
                (λ row. Keeps-option row (Keeps-create_missing g o) (λ r. Keeps-pure r))))

  Keeps-repository_change :
      (repo : Repository) (f : Option (Repository → Repository))
      → AreTame f
      → Keeps I (elim f as (λ _. Exec Response) [
        | none ↦ accept
        | some f ↦ save_repo repo.repoid f >> accept
      ])
  Keeps-repository_change repo none t = Keeps-accept
  Keeps-repository_change repo (some f) t =
      Keeps-bind _ _ (Keeps-save_repo stable repo.repoid f t) (λ _. Keeps-accept)

  pub Keeps-on_repository : (p : Payload) → Keeps I (on_repository services service_name key p)
  unfolding on_repository
  Keeps-on_repository p = Keeps-bind _ _ (Keeps-get_repo p.repository) (λ repo.
      Keeps-repository_change repo (repository_change p.action)
        (repository_change-AreTame p.action))

  pub Keeps-on_delete : (p : Payload) → Keeps I (on_delete services service_name key p)
  unfolding on_delete
  Keeps-on_delete p = Keeps-bind _ _ (Keeps-get_repo p.repository) (λ repo.
      Keeps-if (is_text "branch" p.ref_type) _ _
        (Keeps-option p.ref (Keeps-raise _) (λ ref.
          Keeps-bind _ _ (Keeps-get_repo p.repository) (λ again.
            Keeps-bind _ _ (Keeps-delete_branches stable again.repoid (skip 11 ref))
              (λ _. Keeps-accept))))
        (Keeps-respond
          (says (join "Unsupported ref type: " (elim p.ref_type [ none ↦ "None" | some t ↦ t ])))))

  pub Keeps-on_public : (p : Payload) → Keeps I (on_public services service_name key p)
  unfolding on_public
  Keeps-on_public p = Keeps-bind _ _ (Keeps-get_repo p.repository) (λ repo.
      Keeps-bind _ _ (Keeps-save_repo stable repo.repoid publicize publicize-IsTame)
        (λ _. Keeps-accept))

  Keeps-set_pending :
      (repo : Repository) (name : String) (c : Pushed)
      → Keeps I (set_pending services service_name key repo name c)
  unfolding set_pending
  Keeps-set_pending repo name c = Keeps-option c.message (Keeps-raise _) (λ message.
      Keeps-if (ci_skip message) _ _ (Keeps-respond (says "CI Skipped")) (
        Keeps-if (services.beta_pending repo.repoid) _ _
          (Keeps-bind _ _ (Keeps-queue stable (status_set_pending repo.repoid c.id name false) refl)
            (λ _. Keeps-accept))
          (Keeps-accept)))

  Keeps-push_commits :
      (repo : Repository) (name : String) (cs : List Pushed)
      → Keeps I (push_commits services service_name key repo name cs)
  unfolding push_commits
  Keeps-push_commits repo name [] = Keeps-accept
  Keeps-push_commits repo name (c ∷ cs) =
      Keeps-bind _ _
        (Keeps-update_commits stable (is_pushed repo.repoid (c ∷ cs)) (set_branch name))
        (λ _.
          Keeps-bind _ _
            (Keeps-if (str_eq name repo.branch) _ _
              (Keeps-update_commits stable (is_pushed repo.repoid (c ∷ cs)) set_merged) Keeps-skip)
            (λ _. Keeps-set_pending repo name (last_pushed c cs)))

  pub Keeps-on_push : (p : Payload) → Keeps I (on_push services service_name key p)
  unfolding on_push
  Keeps-on_push p = Keeps-option p.ref (Keeps-raise _) (λ ref.
      Keeps-bind _ _ (Keeps-get_repo p.repository) (λ repo.
        Keeps-if (not (str_eq (leading 5 (skip 5 ref)) "heads")) _ _
          (Keeps-respond (says "Unsupported ref type: tag"))
          (Keeps-if (not repo.active) _ _ (Keeps-respond skip_not_active)
            (Keeps-push_commits repo (skip 11 ref) p.commits))))

  pub Keeps-on_pull_request : (p : Payload) → Keeps I (on_pull_request services service_name key p)
  unfolding on_pull_request
  Keeps-on_pull_request p = Keeps-bind _ _ (Keeps-get_repo p.repository) (λ repo.
      Keeps-if (not repo.active) _ _ (Keeps-respond skip_not_active) (
        Keeps-if (syncs p.action) _ _
          (Keeps-bind _ _ (Keeps-queue stable (pulls_sync repo.repoid p.number) refl)
            (λ _. Keeps-accept))
          (Keeps-if (is_text "edited" p.action) _ _
            (Keeps-bind _ _
              (Keeps-update_pulls stable (is_pull repo.repoid p.number) (set_title p.pull_title))
              (λ _. Keeps-accept))
            (Keeps-accept))))

  notified :
      (repo : Repository) (sha : Option String) (complete : Bool)
      → ((c : String) → Keeps I (queue (notify repo.repoid c)))
      → Keeps I (elim sha as (λ _. Exec Response) [
        | none ↦ respond skip_processing
        | some sha ↦
            if complete then queue (notify repo.repoid sha) >> accept else respond skip_processing
      ])
  notified repo none complete notes = Keeps-respond skip_processing
  notified repo (some sha) complete notes =
      Keeps-if complete _ _ (Keeps-bind _ _ (notes sha) (λ _. Keeps-accept))
        (Keeps-respond skip_processing)

  pub Keeps-on_status :
      (p : Payload)
      → ((i : ℕ) (c : String) → Keeps I (queue (notify i c)))
      → Keeps I (on_status services service_name key p)
  unfolding on_status
  Keeps-on_status p notes = Keeps-bind _ _ (Keeps-get_repo p.repository) (λ repo.
      Keeps-if (not repo.active) _ _ (Keeps-respond skip_not_active) (
        Keeps-if (is_text "codecov/" (Option.map (leading 8) p.context)) _ _
          (Keeps-respond skip_codecov_status)
          (Keeps-if (is_text "pending" p.state) _ _ (Keeps-respond skip_pending_statuses) (
            Keeps-bind _ _ (Keeps-has_complete stable repo.repoid p.sha)
              (λ complete. notified repo p.sha complete (notes repo.repoid))))))
