-- ===== src/Hooks/Stable/Github.antt =====
-- webhook_handlers/views/github.py: a request keeps a stable condition.
pub mod Pushes
pub mod Accounts
use mathlib.Core.Option
use codecov_api.Base.{String, str_eq}
use codecov_api.Store.{World, ◌>>◌}
use codecov_api.Hooks.{Services, says, unsupported_event}
use codecov_api.Hooks.Rules.{
  Keeps, Keeps-bind, Keeps-if, Keeps-option, Keeps-raise, Keeps-respond, Keeps-skip,
}
use codecov_api.Hooks.Stable.{IsStable}
use codecov_api.Hooks.Github.{
  GithubEvent, Payload, Request, delete_event, digests, installation_event,
  installation_repositories_event, marketplace_purchase_event, member_event, no_event, on_status,
  organization_event, ping_event, public_event, pull_request_event, push_event, repository_event,
  status_event, unhandled_event, validate_signature,
}
use codecov_api.Hooks.Github.Accounts.{github_post, handle_event}
use codecov_api.Hooks.Stable.Github.Pushes.{
  Keeps-on_delete, Keeps-on_public, Keeps-on_pull_request, Keeps-on_push, Keeps-on_repository,
}
use codecov_api.Hooks.Stable.Github.Accounts.{
  Keeps-on_installation, Keeps-on_marketplace, Keeps-on_member, Keeps-on_organization,
}

module _ (services : Services) (service_name key : String) {I : World → Type 0}
    (stable : IsStable I) where
  -- Given the same of the handler of a status.
  pub Keeps-handle_event :
      (e : GithubEvent) (p : Payload)
      → Keeps I (on_status services service_name key p)
      → Keeps I (handle_event services service_name key e p)
  unfolding handle_event
  Keeps-handle_event pull_request_event p h =
      Keeps-on_pull_request services service_name key stable p
  Keeps-handle_event delete_event p h = Keeps-on_delete services service_name key stable p
  Keeps-handle_event push_event p h = Keeps-on_push services service_name key stable p
  Keeps-handle_event public_event p h = Keeps-on_public services service_name key stable p
  Keeps-handle_event status_event p h = h
  Keeps-handle_event repository_event p h = Keeps-on_repository services service_name key stable p
  Keeps-handle_event ping_event p h = Keeps-respond (says "pong")
  Keeps-handle_event installation_event p h =
      Keeps-on_installation services service_name key stable p
  Keeps-handle_event installation_repositories_event p h =
      Keeps-on_installation services service_name key stable p
  Keeps-handle_event organization_event p h =
      Keeps-on_organization services service_name key stable p
  Keeps-handle_event marketplace_purchase_event p h =
      Keeps-on_marketplace services service_name key stable p
  Keeps-handle_event member_event p h = Keeps-on_member services service_name key stable p
  Keeps-handle_event unhandled_event p h = Keeps-respond unsupported_event
  Keeps-handle_event no_event p h = Keeps-raise _

  Keeps-validate_signature :
      (r : Request) → Keeps I (validate_signature services service_name key r)
  unfolding validate_signature
  Keeps-validate_signature r =
      Keeps-option (digests services service_name key r) (Keeps-raise _)
        (λ (computed, expected). Keeps-if (str_eq computed expected) _ _ Keeps-skip (Keeps-raise _))

  pub Keeps-github_post :
      (r : Request)
      → Keeps I (on_status services service_name key r.payload)
      → Keeps I (github_post services service_name key r)
  unfolding github_post
  Keeps-github_post r h =
      Keeps-bind _ _ (Keeps-validate_signature r) (λ _. Keeps-handle_event r.event r.payload h)
