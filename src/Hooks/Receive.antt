-- ===== src/Hooks/Receive.antt =====
-- webhook_handlers/views: requests of all providers, and sequences of them.
use codecov_api.Base.{All, Bool, List, String, [], false, if◌then◌else◌, true, ℕ, ◌++◌, ◌∷◌}
use codecov_api.Owner.{Repository}
use codecov_api.Store.{Exec, Outcome, World, err, notify, ok}
use codecov_api.Hooks.{Response, Services, queue, update_where}
use codecov_api.Hooks.Rules.{After, Keeps}
use codecov_api.Hooks.Stable.{IsCoherent, IsStable, IsTame}
use codecov_api.Hooks.Stable.Github.{Keeps-github_post}
use codecov_api.Hooks.Stable.Github.Pushes.{Keeps-on_status}
use codecov_api.Hooks.Stable.Gitlab.{Keeps-gitlab_post, Keeps-on_job}
use codecov_api.Hooks.Stable.Bitbucket.{Keeps-bitbucket_post, Keeps-bitbucket_server_post}
use codecov_api.Hooks.Github.{Request}
use codecov_api.Hooks.Github.Accounts.{github_post}
use codecov_api.Hooks.Gitlab.Post.{gitlab_post}
use codecov_api.Hooks.Gitlab.{GitlabRequest, GitlabSettings}
use codecov_api.Hooks.Bitbucket.{
  BitbucketRequest, ServerRequest, bitbucket_post, bitbucket_server_post,
}

-- A request, with the name of the service and the key for the classes that have a variant.
pub data Hook : Type 0 where
  from_github : String → String → Request → Hook
  from_gitlab : String → GitlabSettings → GitlabRequest → Hook
  from_bitbucket : BitbucketRequest → Hook
  from_bitbucket_server : ServerRequest → Hook

module _ (services : Services) where
  -- The `post` of the provider's handler.
  unfoldable pub receive : Hook → Exec Response
  unfolding github_post gitlab_post bitbucket_post bitbucket_server_post
  receive (from_github service_name key r) = github_post services service_name key r
  receive (from_gitlab service_name settings r) =
      gitlab_post services.same_text service_name settings r
  receive (from_bitbucket r) = bitbucket_post r
  receive (from_bitbucket_server r) = bitbucket_server_post r

  -- Requests one after the other, each answered or ended by an exception.
  abbrev pub receive_all : List Hook → World → World
  receive_all [] w = w
  receive_all (h ∷ hs) w = receive_all hs (receive h w).1

  Keeps-receive :
      {I : World → Type 0} (stable : IsStable I)
      (notes : (i : ℕ) (c : String) → Keeps I (queue (notify i c))) (h : Hook)
      → Keeps I (receive h)
  unfolding receive
  Keeps-receive stable notes (from_github service_name key r) =
      Keeps-github_post services service_name key stable r
        (Keeps-on_status services service_name key stable r.payload notes)
  Keeps-receive stable notes (from_gitlab service_name settings r) =
      Keeps-gitlab_post stable services.same_text service_name settings r
        (λ repo. Keeps-on_job stable r repo notes)
  Keeps-receive stable notes (from_bitbucket r) = Keeps-bitbucket_post stable r notes
  Keeps-receive stable notes (from_bitbucket_server r) = Keeps-bitbucket_server_post stable r

All-update_where :
    (p : Repository → Bool) (f : Repository → Repository)
    → IsTame f
    → (rows : List Repository) → All IsCoherent rows
    → All IsCoherent (update_where p f rows)
unfolding update_where
All-update_where p f t [] h = tt
All-update_where p f t (r ∷ rows) h = (one_row (p r), All-update_where p f t rows h.1)
  where
    one_row : (b : Bool) → IsCoherent (if b then f r else r)
    one_row true = t r h.0
    one_row false = h.0

All-snoc :
    (rows : List Repository) (r : Repository)
    → All IsCoherent rows
    → IsCoherent r
    → All IsCoherent (rows ++ r ∷ [])
All-snoc [] r h c = (c, tt)
All-snoc (q ∷ rows) r h c = (h.0, All-snoc rows r h.1 c)

IsStable-All : IsStable (λ w. All IsCoherent w.repos)
IsStable-All = record {
  owners = λ w rows i h. h;
  commits = λ w rows h. h;
  branches = λ w rows h. h;
  pulls = λ w rows h. h;
  events = λ w es h. h;
  tasks = λ w t e h. h;
  repos = λ w p f t h. All-update_where p f t w.repos h;
  repo = λ w r i c h. All-snoc w.repos r h c;
}

after_run : {A : Type 0} (I : World → Type 0) (r : Outcome A × World) → After (λ _. I) I r → I r.1
after_run I (ok a, w) h = h
after_run I (err e, w) h = h

-- No sequence of webhook requests of any providers leads to a repository that is marked as deleted
-- and yet active or activated, where there was none before.
pub receive_all-IsCoherent :
    (services : Services) (hooks : List Hook) (w : World)
    → All IsCoherent w.repos
    → All IsCoherent (receive_all services hooks w).repos
receive_all-IsCoherent services [] w h = h
receive_all-IsCoherent services (k ∷ hooks) w h =
    receive_all-IsCoherent services hooks (receive services k w).1 (
      after_run (λ v. All IsCoherent v.repos) (receive services k w)
        ((Keeps-receive services IsStable-All (λ i c. record { run = λ v g. g }) k).run w h))
