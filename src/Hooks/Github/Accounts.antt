-- ===== src/Hooks/Github/Accounts.antt =====
-- webhook_handlers/views/github.py: the events on installations, organisations, purchases and
-- members, and `post`, which checks the signature and calls the handler of the event.
use codecov_api.Base.{
  Option, String, false, if◌then◌else◌, is_some, mem, none, not, some, true, ℕ, ◌==◌,
}
use codecov_api.Owner.{Owner, Repository}
use codecov_api.Store.{
  Exec, account_installed_source_control_service_app,
  account_uninstalled_source_control_service_app, ok, pure, raise, refresh, sync_plans, track,
  type_error, ◌>>=◌,
}
use codecov_api.Hooks.{
  Response, Services, accept, attempt, empty, is_text, need, owner_by_service_id, queue, respond,
  save_owner, save_stamped, says, unsupported_event, update_where,
}
use codecov_api.Hooks.Rows.{get_or_create_owner}
use codecov_api.Hooks.Github.{
  GithubEvent, Payload, Request, delete_event, get_repo, installation_event,
  installation_repositories_event, marketplace_purchase_event, member_event, no_event, on_delete,
  on_public, on_pull_request, on_push, on_repository, on_status, organization_event, ping_event,
  public_event, pull_request_event, push_event, repository_event, status_event, unhandled_event,
  validate_signature,
}
use codecov_api.Access.{save_permission}
use codecov_api.Seats.{listed, remove_id}

abbrev pub set_integration : Option ℕ → Owner → Owner
set_integration i o = record o { integration_id = i }

-- owner.repository_set.all().update(using_integration=False, bot=None)
unfoldable pub detach_repos : ℕ → Exec (Unit {0})
unfolding update_where
detach_repos author w = (
  ok tt,
  record w {
    repos =
        update_where (λ (r : Repository). r.author == author)
          (λ r. record r { using_integration = some false; bot = none }) w.repos;
  },
)

-- The user that an event for Segment is of: the owner, or none for BLANK_SEGMENT_USER_ID.
abbrev pub segment_user : Option String → ℕ → Option ℕ
segment_user sender_type i = if is_text "User" sender_type then some i else none

-- The two writes of GithubWebhookHandler.organization: list.remove raises a ValueError, which is
-- suppressed, where the id is missing.
unfoldable pub remove_member : Owner → Owner → Exec (Unit {0})
unfolding save_owner
remove_member org member = do
  _ ←
      if mem org.ownerid (listed member.organizations)
      then save_owner member.ownerid
          (λ o. record o { organizations = remove_id org.ownerid member.organizations })
      else pure tt
  if mem member.ownerid (listed org.plan_activated_users)
      then save_owner org.ownerid (λ o. record o {
        plan_activated_users = remove_id member.ownerid org.plan_activated_users;
      })
      else pure tt

module _ (services : Services) (service_name key : String) where
  -- GithubWebhookHandler._handle_installation_events, on the owner.
  unfoldable pub on_installed : Payload → Owner → String → Option ℕ → Exec Response
  unfolding save_stamped detach_repos
  on_installed p owner username installation_id =
      if is_text "deleted" p.action
      then (do
        _ ← save_stamped owner.ownerid (set_integration none)
        _ ← detach_repos owner.ownerid
        sender_type ← need p.sender_type
        _ ← track (
            account_uninstalled_source_control_service_app
              (segment_user (some sender_type) owner.ownerid) owner.ownerid)
        respond (says "Integration webhook received"))
      else (do
        _ ← if is_some owner.integration_id then pure tt else (do
          i ← need installation_id
          save_stamped owner.ownerid (set_integration (some i)))
        sender_type ← need p.sender_type
        _ ← track (
            account_installed_source_control_service_app
              (segment_user (some sender_type) owner.ownerid) owner.ownerid)
        _ ← queue (refresh owner.ownerid (some username) false true true)
        respond (says "Integration webhook received"))

  -- GithubWebhookHandler._handle_installation_events
  unfoldable pub on_installation : Payload → Exec Response
  unfolding get_or_create_owner on_installed
  on_installation p = do
    installation ← need p.installation
    service_id ← need installation.account_id
    username ← need installation.account_login
    owner ← get_or_create_owner services.same_text service_name service_id (some username)
    on_installed p owner username installation.id

  -- GithubWebhookHandler.organization
  unfoldable pub on_organization : Payload → Exec Response
  unfolding owner_by_service_id remove_member
  on_organization p =
      if is_text "member_removed" p.action
      then (do
        user_id ← need p.membership_user_id
        org_id ← need p.organization_id
        org ← attempt (owner_by_service_id service_name (some org_id))
        elim org [
          | none ↦ pure (record {
            status = 400;
            reply = says "Attempted to remove member from non-Codecov org failed";
          })
          | some org ↦ (do
            member ← attempt (owner_by_service_id service_name (some user_id))
            elim member [
              | none ↦ pure (record {
                status = 400;
                reply = says "Attempted to remove non Codecov user from Codecov org failed";
              })
              | some member ↦ (do _ ← remove_member org member; accept)
            ])
        ])
      else accept

  -- GithubWebhookHandler._handle_marketplace_events: what is looked up before the task is only
  -- logged, and its exceptions are suppressed.
  unfoldable pub on_marketplace : Payload → Exec Response
  on_marketplace p = do
    sender ← need p.sender
    account ← need p.purchase_account
    action ← need p.action
    _ ← queue (sync_plans sender account action)
    accept

  -- GithubWebhookHandler.member
  unfoldable pub on_member : Payload → Exec Response
  unfolding get_repo owner_by_service_id save_permission
  on_member p = do
    action ← need p.action
    if not (is_text "removed" (some action)) then accept else (do
      repo ← get_repo services service_name key p.repository
      member_id ← need p.member_id
      member ← attempt (owner_by_service_id service_name (some member_id))
      elim member [
        | none ↦ pure (record { status = 404; reply = empty })
        | some member ↦
            if mem repo.repoid (listed member.permission)
            then (do
              _ ←
                  save_permission
                    (record member { permission = remove_id repo.repoid member.permission })
              accept)
            else accept
      ])

  -- getattr(self, self.event, self.unhandled_webhook_event), and the call of the handler.
  unfoldable pub handle_event : GithubEvent → Payload → Exec Response
  unfolding on_pull_request on_delete on_push on_public on_status on_repository on_installation
      on_organization on_marketplace on_member
  handle_event pull_request_event p = on_pull_request services service_name key p
  handle_event delete_event p = on_delete services service_name key p
  handle_event push_event p = on_push services service_name key p
  handle_event public_event p = on_public services service_name key p
  handle_event status_event p = on_status services service_name key p
  handle_event repository_event p = on_repository services service_name key p
  handle_event ping_event p = respond (says "pong")
  handle_event installation_event p = on_installation p
  handle_event installation_repositories_event p = on_installation p
  handle_event organization_event p = on_organization p
  handle_event marketplace_purchase_event p = on_marketplace p
  handle_event member_event p = on_member p
  handle_event unhandled_event p = respond unsupported_event
  handle_event no_event p = raise type_error

  -- GithubWebhookHandler.post
  unfoldable pub github_post : Request → Exec Response
  unfolding validate_signature handle_event
  github_post r = do
    _ ← validate_signature services service_name key r
    handle_event r.event r.payload
