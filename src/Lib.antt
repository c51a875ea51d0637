-- ===== src/Lib.antt =====
-- A model of the SaaSmint backend (core/), a Django application with Stripe billing, and the theorems
-- about it.
--
-- The program: Stripe posts events to an endpoint that stores each once and queues a task; the task
-- processes the stored event, which updates the mirror of the Stripe subscriptions, grants credits, or
-- schedules the deletion of an org. Orgs have members with roles, an owner, invitations that reserve
-- seats of a subscription, and deletions that cascade. Users hold refresh tokens and one-time tokens.
--
-- The state is one record of tables, `Db` (Database/State), each table a list of rows with the columns
-- that the modelled code uses; the queue of dispatched Celery tasks is a column beside them. A handler is a
-- function from tables to a result and tables, where a raise keeps what was written and `atomic` takes
-- it back. A UUID and an instant (seconds) are numbers; a payload is a decoded JSON value (Json).
--
-- Which file models what:
--   Domain/Subscriptions, Domain/Orgs, Domain/Users: core/core/saasmint_core/domain/ and the models of
--     core/apps/billing, core/apps/orgs and core/apps/users.
--   Billing/Customers, Billing/Events, Billing/Repositories: core/apps/billing/repositories.py, with the
--     unique constraints of the subscription table.
--   Billing/Webhooks/Payload, Sync, Schedule, Checkout, Process:
--     core/core/saasmint_core/services/webhooks.py, from the parse of a payload to
--     `process_stored_event` and `_dispatch`; the callbacks of `WebhookRepos` are parameters.
--   Billing/Webhooks/Endpoint: core/apps/billing/webhook.py and `process_stripe_webhook` of
--     core/apps/billing/tasks.py.
--   Billing/Views: the authority of a change and `ScheduledChangeView.delete` of core/apps/billing/views.py.
--   Billing/Views/Checks, Billing/Views/Notices, Billing/Views/Update: the checks, the notices, the PATCH
--     and the DELETE of `SubscriptionView` there.
--   Billing/Views/Pricing: the currency, the country and the Stripe price of a request there; Python's
--     methods of texts are the parameter `PythonText`.
--   Prices/Minting: core/apps/billing/management/commands/sync_stripe_catalog.py, with Keys for its lookup keys
--     and Command for its loops.
--   Billing/Views/Checkout, Billing/Services/Sessions: the views that open a hosted session there, and the
--     functions of core/core/saasmint_core/services/billing.py that they call.
--   Billing/Credits: core/apps/billing/services.py.
--   Orgs/Roles: core/core/saasmint_core/services/orgs.py.
--   Orgs/Members, Orgs/Invitations: the views of core/apps/orgs/views.py that change state, with
--     `accept_invitation` of core/apps/orgs/services.py.
--   Orgs/Seats: `lock_active_team_sub`, `_validate_seat_limit` and the check at acceptance.
--   Orgs/Cascade: the deletions of core/apps/orgs/services.py and core/apps/orgs/tasks.py with the
--     `on_delete` rules of the foreign keys.
--   Users/Tokens, Users/Access: core/apps/users/authentication.py, the stored tokens and the access tokens.
--   Users/Accounts: the insert and the save of a user, with the cache that a save clears.
--   Users/Auth: the password views of core/apps/users/auth_views.py; Users/Exchange: its one-time code.
--   Users/OAuth: `resolve_oauth_user` of core/apps/users/services.py.
--   Users/Deletion: core/core/saasmint_core/services/gdpr.py with the hook of core/apps/users/views.py, whose
--     steps on the tables are committed one by one and may raise.
--   Orgs/Cancellation: `cancel_stripe_subs_task` of core/apps/orgs/tasks.py.
--   Stripe: the requests to the Stripe SDK and the steps that make them; Stripe/Log and Stripe/Run have the
--     lemmas on such steps.
--   Billing/Services, with Customer, Cancel and Plans: core/core/saasmint_core/services/billing.py and
--     core/core/saasmint_core/services/subscriptions.py.
--   Orgs/Slugs, Orgs/Checkout: `generate_unique_slug`, `_create_org_with_owner` and
--     `on_team_checkout_completed` of core/apps/orgs/services.py.
--   Prices: core/apps/billing/vat.py; Prices/Currency: core/core/saasmint_core/services/currency.py;
--     Prices/Catalog: the tables of prices, a record `Catalog` of its own beside `Db`; Prices/Sync:
--     `sync_localized_prices` of core/apps/billing/tasks.py. An amount is an exact fraction where Python has a
--     double, and a rate of the feed is a decimal fraction that is not negative.
-- The files below these hold the proofs, named for what they prove; the Examples files apply each
-- theorem to the tables of Samples.
--
-- Taken from outside as parameters: the answer of Stripe to each request after each history of requests, the
-- clock, fresh UUIDs and tokens, the order of the primary keys of memberships, the token hash, Python's text
-- functions and UUID parser, the errors of the database and the broker in an account deletion, the comparison
-- of emails by the database, the request validation of the REST framework, the exchange rates, and the
-- signature check of the Stripe SDK. Three
-- loops have fuel: the search for a free slug, one round more than there are slugs to avoid, the decimals of
-- a number, one digit more than the number, and the batches of lookup keys, one for each key; all are proved
-- to be enough. Every other recursion is on a list, a
-- text or a JSON value. A row lock is not a step of its own: it is held to the end of the
-- transaction, so a locked transaction is one step.
--
-- Not modelled: the rest of the billing views, the HTTP side of OAuth, the plain read endpoints, the
-- administration, the seeding of the catalog, the mail transport and the frontend.
pub mod Base
pub mod Domain
pub mod Json
pub mod Database
pub mod Stripe
pub mod Billing
pub mod Orgs
pub mod Users
pub mod Prices
pub mod Samples
