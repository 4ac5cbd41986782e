-- ===== src/Lib.antt =====
-- Codecov's API: plans, seats, billing, comparisons, report paths, webhooks, uploads, commands and
-- logins.
--
-- The parts and the files that model them:
--   * Plan (plan/constants.py, plan/service.py): the tables of plans, and `PlanService`, which
--     keeps an organisation's plan and the dates of its trial. The status of a trial is computed
--     from the dates and the clock. Plan.Constants holds the tables, Plan.Service the operations.
--   * Owner and Seats (codecov_auth/models.py, services/activation.py, services/self_hosted.py):
--     the row of an owner, which stands for a user or an organisation, and who holds a seat in
--     it. Seats has the methods of `Owner`, Seats.Cloud `try_auto_activate` with
--     `CloudActivator`, Seats.SelfHosted the seats of an installation with a licence, and
--     Seats.Activation the choice between the two.
--   * Billing (services/billing.py, billing/views.py, billing/constants.py): `StripeService` and
--     `BillingService`, which carry changes of plan to Stripe (Billing.Proration,
--     Billing.Payment, Billing.Service), and the handlers of the events that Stripe sends back
--     (Billing.Webhooks). Both write plans to owners through Plan.Service.
--   * Access (api/shared/permissions.py): who may read a repository. A check may ask the provider,
--     which is the parameter `Provider`, remember the answer in the owner's row, and take a seat
--     through Seats.Cloud.
--   * Compare (services/comparison.py): `FileComparisonTraverseManager`, which walks the lines of
--     a file in two revisions along the segments of a diff, and `CreateLineComparisonVisitor`, which
--     it calls for each line. A traversal is a list of these calls. Compare.Segments has
--     `LineComparison` and `Segment`, Compare.Summary `CreateChangeSummaryVisitor` and
--     Compare.Files `FileComparison`, which runs both visitors.
--     Compare.Reports puts the files of two reports together, and has the base of a pull request
--     and when a stored comparison is computed again.
--   * Hooks (webhook_handlers/views, core/managers.py): the webhooks of GitHub, GitLab, Bitbucket and
--     Bitbucket Server. Hooks has what the handlers share, Hooks.Rows the creation of rows,
--     Hooks.Github, Hooks.Gitlab and Hooks.Bitbucket with their children the handlers, and
--     Hooks.Receive the requests of all of them. Hooks.Updates tells the rows that an update
--     writes from the others. Hooks.Rules and Hooks.Stable have the rules by
--     which a condition is carried through a handler.
--   * Upload (upload/helpers.py, upload/throttles.py): the branch, the pull request and the headers
--     of an upload (Upload), the limits on uploads (Upload.Limits, and Upload.Bounds for what holds
--     of them), `validate_upload` (Upload.Validate) and `insert_commit` (Upload.Commits);
--     Upload.Roots has `root_organization`, which climbs like the limits do. Upload
--     writes the same rows of repositories and commits as Hooks.
--   * Paths (services/path.py): the files of a report below a directory, and the tree of files and
--     directories. Paths.Prefix has the texts, Paths.Groups the grouping by base names, Paths.Tree,
--     Paths.Cover and Paths.Whole what the recursion lists, Paths.Amounts the totals, and
--     Paths.Endless a selection on which the recursion does not end.
--   * Impacted (services/comparison.py, compare/commands/compare/interactors): `ImpactedFile`,
--     `ComparisonReport` and `FetchImpactedFiles`, which filters and sorts the files.
--   * Commands (codecov_auth/commands, core/commands, codecov/commands/base.py, services/refresh.py,
--     services/sentry.py,
--     graphql_api/types/mutation, graphql_api/helpers/mutation.py): the interactors of the commands
--     on owners (Commands.Owners), on tokens and sessions (Commands.Tokens) and on repositories
--     (Commands.Repositories), the link with a user of Sentry
--     (Commands.Sentry), and the mutations that run them (Commands.Mutations), with the guard
--     of a resolver where it has one. Accounts has the rows that they write. They start and cancel
--     trials through Plan.Service.
--   * Login (codecov_auth/views/base.py): `StateMixin`, whose states say where a login redirects to,
--     and `LoginMixin.login_owner`, which gives a user to an owner and enters its session.
--     Login.States and Login.Links have what holds of them. A login asks for a refresh by Commands.
--
-- Store is the state that requests work on: the clock, the rows of owners, repositories, commits,
-- branches and pulls, and the logs of the requests to Stripe, of the events for Segment and of the
-- queued tasks. A method is a function of this state to a result or an exception, and the state
-- that it leaves. A method that raises keeps what it wrote before; the changes that a request makes
-- are not rolled back. An object of a model class is a record: `save` writes it to its row.
-- Store.Ensures has the rules by which an invariant is carried through a method, exceptions
-- included.
--
-- What is not code of the repository is a parameter: `Stripe` answers the requests, and may depend
-- on all requests that were made before; `Provider` answers for the provider of a repository;
-- `Settings`, `GitlabSettings` and `UploadSettings` are the settings that the code reads, and
-- `Services` are the digests of the library hmac, the database's comparison of case-insensitive
-- texts and a set in Redis; `Forms` are
-- Django's check of an email and the libraries that read and validate a yaml and decode a token; `Auth` are Django's
-- sessions, and `Site` is urlparse with the allowed domains; the seats of a
-- self-hosted licence are an argument. A random token is a number that was not given before. Logging is left
-- out. A request to a webhook or to an upload is a record of what the code reads of it.
--
-- Numbers of seats and lines are natural numbers without a bound, and times are counted in
-- microseconds; the model takes the time of a request as one moment. The traversal of a file runs
-- on fuel, one unit for each line that it visits and one for its end; the climb to the group that
-- answers for an upload takes one unit for each group; the listing of a directory takes one unit
-- for each level, for which the length of the longest path is enough. Coverage is an exact ratio
-- where the source divides floats.
--
-- Not modelled: the views and serializers of the REST API and the queries of GraphQL, which call the
-- services; the validation of an upload's parameters by cerberus, the tokenless upload handlers and
-- the upload views; reports, whose format belongs to another package; storage and queues;
-- of a login, the exchanges with the providers.
mod Base
pub mod Owner
pub mod Accounts
pub mod Store
pub mod Plan
pub mod Seats
pub mod Billing
pub mod Access
pub mod Compare
pub mod Hooks
pub mod Upload
pub mod Paths
pub mod Impacted
pub mod Commands
pub mod Login
mod Examples
