-- ===== src/Lib.antt =====
-- The API of a multi-tenant platform, apps/api/app: what its services promise, as definitions
-- translated from the Python code and theorems about them.
--
-- The parts. A request is resolved to a tenant (tenancy/deps.py) for a signed-in user
-- (auth/service.py); its role decides what it may do (auth/permissions.py), and the listeners of
-- every database session (tenancy/tenant_base.py) keep it to rows of that tenant. The directory holds
-- the members, their invitations (directory/service.py) and, in the tenant's own database, their teams
-- (directory/router.py); what its routes change is written in the tenant's audit log
-- (audit/service.py), which is read in pages (audit/router.py). The connectors (connectors/) link a
-- tenant to an account at a provider by the user's consent, call it under a budget, refresh its tokens
-- under a lock and receive its webhooks; the gateway (ai/gateway.py) calls language models as the
-- tenant's policy allows, meters each call and counts it against a quota, which a daily task corrects
-- from the events (ai/tasks.py); the automation enables modules by tenant (automation/service.py),
-- checks their manifests (automation/registry.py) and runs their periodic tasks under the locks of the
-- connectors (automation/scheduler.py).
--
-- The files, with paths below apps/api/app:
--   Prelude      errors and state (Effects), tables (Table), texts, lists
--   Core         core/config.py, core/db.py, core/crypto.py, and the Valkey server as the interfaces
--                Counters and Keys, records of operations and laws
--   Directory    directory/models.py, directory/service.py (Service), directory/router.py (Routes for
--                members and invitations, Teams), directory/tenant_models.py
--   Auth         auth/models.py, auth/service.py (Users, Sessions, Totp), auth/permissions.py,
--                auth/rate_limit.py, auth/tasks.py (Purge), auth/router.py (Routes), auth/oauth.py,
--                auth/tokens.py (SignedPayload)
--   Tenancy      tenancy/models.py (Models, Slug), tenancy/deps.py and tenancy/provisioning.py
--                (Slug, Resolve), tenancy/context.py and tenancy/tenant_base.py (Guards)
--   Ai           ai/policy.py, ai/pricing.py, ai/quota.py, ai/gateway.py with ai/metering.py,
--                ai/tasks.py (Rollup)
--   Audit        audit/tenant_models.py and audit/service.py (Log), audit/router.py (Pages)
--   Connectors   connectors/throttle.py, connectors/service.py (Tokens), connectors/tenant_models.py and
--                connectors/models.py (Models), connectors/registry.py, connectors/capabilities.py and
--                the providers' manifests (Registry), connectors/oauth.py (Consent, Upsert,
--                Callback), connectors/webhooks.py, connectors/subscriptions.py,
--                connectors/tasks.py (Beat, Events)
--   Automation   automation/service.py (Activation), automation/contract.py and
--                automation/registry.py (Registry), automation/scheduler.py
--   Tests        the theorems at concrete inputs
-- A definition has the name of the function that it translates, without a leading underscore; its
-- theorems stand in modules below its own.
--
-- How the code is read. A service function is a function from the database, a record of tables, to a
-- result and the database after it: what was written before an exception stays written, and it is
-- the session (Core.UnitOfWork) that drops it when a request ends without a commit. The instant, new
-- identifiers and random tokens are arguments. The directory's routes work on two such sessions,
-- that of the tenant and that of the control database, and record their commits in a history. Times
-- are microseconds, except in the signed payloads and the daily aggregates, which count seconds;
-- numbers are not negative. Loops over sequences are recursions on lists; the five attempts of a
-- call and the twenty tries for a lock are recursions on the rounds left, so that no fuel is needed.
--
-- Not modelled. Hashes, encryption, HTTP, SQLAlchemy, Valkey and LiteLLM are parameters, with their
-- documented laws as hypotheses; the laws of Valkey stand for a stretch in which no key expires,
-- unless a theorem says otherwise. Each operation runs alone: interleavings of two transactions are
-- not modelled, except that other processes may act on the keys while a lock is waited for. Logs,
-- mails and most audit events of the services are left out. The renewal of subscriptions
-- (connectors/subscriptions.py, connectors/tasks.py), the adapters of the providers, the gateway's
-- embeddings and streams, the command line, the mounting of the modules, the CSRF check, the
-- remaining routes of auth/router.py (logout, the second factor, the exchange of an OAuth login) and
-- the routes that only read are not modelled.
pub mod Prelude
pub mod Core
pub mod Directory
pub mod Auth
pub mod Tenancy
pub mod Ai
pub mod Audit
pub mod Connectors
pub mod Automation
pub mod Tests
