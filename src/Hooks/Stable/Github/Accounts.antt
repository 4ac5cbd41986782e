-- ===== src/Hooks/Stable/Github/Accounts.antt =====
-- webhook_handlers/views/github.py: the handlers of installations, organizations, the marketplace and
-- members keep a stable condition.
use codecov_api.Base.{Option, String, false, is_some, mem, none, not, refl, some, true, ℕ, ◌==◌}
use codecov_api.Owner.{Owner, Repository}
use codecov_api.Store.{World, account_uninstalled_source_control_service_app, refresh, sync_plans}
use codecov_api.Seats.{listed, remove_id}
use codecov_api.Hooks.{Services, empty, is_text, says}
use codecov_api.Hooks.Rules.{
  Keeps, Keeps-accept, Keeps-attempt, Keeps-bind, Keeps-if, Keeps-need, Keeps-option, Keeps-pure,
  Keeps-respond, Keeps-skip,
}
use codecov_api.Hooks.Stable.{
  IsStable, Keeps-get_or_create_owner, Keeps-owner_by_service_id, Keeps-queue, Keeps-save_owner,
  Keeps-save_permission, Keeps-save_stamped, Keeps-track,
}
use codecov_api.Hooks.Github.{Payload}
use codecov_api.Hooks.Github.Accounts.{
  detach_repos, on_installation, on_installed, on_marketplace, on_member, on_organization,
  remove_member, segment_user, set_integration,
}
use codecov_api.Hooks.Stable.Github.Pushes.{Keeps-get_repo}

module _ (services : Services) (service_name key : String) {I : World → Type 0}
    (stable : IsStable I) where
  Keeps-detach_repos : (i : ℕ) → Keeps I (detach_repos i)
  unfolding detach_repos
  Keeps-detach_repos i = record {
    run = λ w h.
        stable.repos w (λ (r : Repository). r.author == i)
          (λ r. record r { using_integration = some false; bot = none }) (λ r c. c) h;
  }

  Keeps-on_installed :
      (p : Payload) (owner : Owner) (username : String) (i : Option ℕ)
      → Keeps I (on_installed services service_name key p owner username i)
  unfolding on_installed
  Keeps-on_installed p owner username i =
      Keeps-if (is_text "deleted" p.action) _ _
        (Keeps-bind _ _ (Keeps-save_stamped stable owner.ownerid (set_integration none)) (λ _.
          Keeps-bind _ _ (Keeps-detach_repos owner.ownerid) (λ _.
            Keeps-bind _ _ (Keeps-need p.sender_type) (λ sender_type.
              Keeps-bind _ _
                (Keeps-track stable (
                  account_uninstalled_source_control_service_app
                    (segment_user (some sender_type) owner.ownerid) owner.ownerid))
                (λ _. Keeps-respond (says "Integration webhook received"))))))
        (Keeps-bind _ _
          (Keeps-if (is_some owner.integration_id) _ _ Keeps-skip (
            Keeps-bind _ _ (Keeps-need i)
              (λ j. Keeps-save_stamped stable owner.ownerid (set_integration (some j)))))
          (λ _. Keeps-bind _ _ (Keeps-need p.sender_type) (λ sender_type.
            Keeps-bind _ _ (Keeps-track stable _) (λ _.
              Keeps-bind _ _
                (Keeps-queue stable (refresh owner.ownerid (some username) false true true) refl)
                (λ _. Keeps-respond (says "Integration webhook received"))))))

  pub Keeps-on_installation : (p : Payload) → Keeps I (on_installation services service_name key p)
  unfolding on_installation
  Keeps-on_installation p = Keeps-bind _ _ (Keeps-need p.installation) (λ place.
      Keeps-bind _ _ (Keeps-need place.account_id) (λ service_id.
        Keeps-bind _ _ (Keeps-need place.account_login) (λ username.
          Keeps-bind _ _
            (Keeps-get_or_create_owner stable services.same_text service_name service_id
              (some username))
            (λ owner. Keeps-on_installed p owner username place.id))))

  Keeps-remove_member : (org member : Owner) → Keeps I (remove_member org member)
  unfolding remove_member
  Keeps-remove_member org member =
      Keeps-bind _ _
        (Keeps-if (mem org.ownerid (listed member.organizations)) _ _ (Keeps-save_owner stable _ _)
          Keeps-skip)
        (λ _.
          Keeps-if (mem member.ownerid (listed org.plan_activated_users)) _ _
            (Keeps-save_owner stable org.ownerid (λ o. record o {
              plan_activated_users = remove_id member.ownerid org.plan_activated_users;
            }))
            Keeps-skip)

  pub Keeps-on_organization : (p : Payload) → Keeps I (on_organization services service_name key p)
  unfolding on_organization
  Keeps-on_organization p =
      Keeps-if (is_text "member_removed" p.action) _ _
        (Keeps-bind _ _ (Keeps-need p.membership_user_id) (λ user_id.
          Keeps-bind _ _ (Keeps-need p.organization_id) (λ org_id.
            Keeps-bind _ _
              (Keeps-attempt _ (Keeps-owner_by_service_id stable service_name (some org_id)))
              (λ org.
                Keeps-option org
                  (Keeps-pure (record {
                    status = 400;
                    reply = says "Attempted to remove member from non-Codecov org failed";
                  }))
                  (λ org.
                    Keeps-bind _ _
                      (Keeps-attempt _
                        (Keeps-owner_by_service_id stable service_name (some user_id)))
                      (λ user.
                        Keeps-option user
                          (Keeps-pure (record {
                            status = 400;
                            reply =
                                says "Attempted to remove non Codecov user from Codecov org failed";
                          }))
                          (λ user.
                            Keeps-bind _ _ (Keeps-remove_member org user) (λ _. Keeps-accept))))))))
        (Keeps-accept)

  pub Keeps-on_marketplace : (p : Payload) → Keeps I (on_marketplace services service_name key p)
  unfolding on_marketplace
  Keeps-on_marketplace p = Keeps-bind _ _ (Keeps-need p.sender) (λ sender.
      Keeps-bind _ _ (Keeps-need p.purchase_account) (λ account.
        Keeps-bind _ _ (Keeps-need p.action) (λ action.
          Keeps-bind _ _ (Keeps-queue stable (sync_plans sender account action) refl)
            (λ _. Keeps-accept))))

  pub Keeps-on_member : (p : Payload) → Keeps I (on_member services service_name key p)
  unfolding on_member
  Keeps-on_member p = Keeps-bind _ _ (Keeps-need p.action) (λ action.
      Keeps-if (not (is_text "removed" (some action))) _ _ (Keeps-accept) (
        Keeps-bind _ _ (Keeps-get_repo services service_name key stable p.repository) (λ repo.
          Keeps-bind _ _ (Keeps-need p.member_id) (λ member_id.
            Keeps-bind _ _
              (Keeps-attempt _ (Keeps-owner_by_service_id stable service_name (some member_id)))
              (λ user.
                Keeps-option user (Keeps-pure (record { status = 404; reply = empty })) (λ user.
                  Keeps-if (mem repo.repoid (listed user.permission)) _ _
                    (Keeps-bind _ _
                      (Keeps-save_permission stable
                        (record user { permission = remove_id repo.repoid user.permission }))
                      (λ _. Keeps-accept))
                    (Keeps-accept)))))))
