-- ===== src/Lib.antt =====
-- Models of the Goderash ledger, its guards and the code around them, in Python, and what is proved
-- of them. Agents emit events through the SDK (python/goderash_sdk); the core (python/core) stores
-- them per tenant in a ledger whose rows are chained by SHA-256, verifies and replays the ledger,
-- and makes evidence packs of it. Below, core/ stands for python/core/src/goderash_core/ and sdk/
-- for python/goderash_sdk/src/goderash_sdk/.
--
-- Which file models which code:
--   Events, Events/Dump      core/events/types.py: payload classes, envelope, model_dump
--   Ledger/Chain             core/ledger/chain.py: compute_hash, verify_chain
--   Ledger/Store             core/ledger/store.py and core/models/event.py: append_many, iter_tenant
--   Ledger/Upcast            core/ledger/upcast.py: the registry of upcasters
--   WhatIf                   core/whatif/projector.py: replay under another policy
--   Contracts                core/contracts: clauses, checks, the enforcer
--   Packs                    core/packs: collection, the guard of build, the controls
--   Webhooks                 core/webhooks/dispatcher.py: targets, delivery and its retries
--   Billing                  core/billing/usage.py: the usage counter and the quota
--   Guards                   sdk/guards/chain.py; its children the guards beside it: Budget,
--                            Velocity, PermissionMode, Fraud, Cancellation
--   Database                 core/models/*.py: the tables, their constraints; core/db.py: transactions
--   Security                 core/security: session tokens, their revocation, passwords
--   Api/Auth                 core/api/auth.py: require_api_key; Access: whom it binds to
--   Api/Orgs, Api/Invites    core/api/orgs.py, core/api/invites.py: members, keys, invites
--   Api/Identity             core/api/auth_public.py: sessions, login, logout; Sessions
--   Api/Accounts             core/api/auth_public.py: signup, resets, accepted invites
--   Api/Team                 the requests of these as steps in any order: owners, revoked keys
--   Api/Routes, Api/Queries  core/api/routes.py: ingest, listings, verify; the usage of orgs.py
--   Api/Reports              core/api/packs.py, core/api/whatif.py; the packs of orgs.py
--   Api/Billing              core/api/billing.py: usage, the events of Stripe
--   Api/Endpoints            core/api/webhooks.py
--   Billing/Stripe           core/billing/service.py
--   Client                   sdk/client.py: the buffer and the posts of batches
--   Wrap                     sdk/wrap/tool.py, agent.py, llm.py: the events around calls
--   Common, Int, Json, Real, Http   shared types and lemmas; what the code uses of Python
--   Tests                    runs at concrete inputs, and each theorem applied at one
--
-- State is passed on: a method is a function from its arguments and the object's state to its result
-- and the next state; a table is the list of its rows; an exception is the value `raised` of Outcome.
-- A request's handler is a function from the database to an error, which rolls it back, or a result
-- and the next database; random texts, new identifiers and the clock are its arguments.
-- The methods that hold a lock, and a transaction under the tenant's advisory lock, are one step each.
--
-- What the repository does not hold is a parameter. Hasher is SHA-256, canonical JSON and the round trip
-- through JSONB; theorems that need SHA-256 to have no collisions end with "or two different texts of
-- those hashed have one digest", for the texts of the rows and batches at hand. Real is the
-- arithmetic of floats, of which OrderLaws and WindowLaws are what a proof needs: finite floats keep
-- to them. The search of regular expressions, `str`, dates and the taking apart of paths and filters
-- are functions. Amounts that Python compares with an int are compared as floats.
--
-- Bounds and fuel: whole numbers are unbounded, as Python's are; the lock key is cut to 63 bits. The
-- loops are structural on their lists, but for three that count down the rounds the source allows:
-- `advance` (the versions still to go), `post_attempts` (4) and `attempts` (max_retries + 1). Each
-- count is the bound of the source's own loop, so no run ends early.
--
-- PyJWT, argon2, Stripe and the string methods are parameters; of PyJWT, JwtLaws is what a proof needs.
--
-- Not modelled: HTTP itself and the validation of requests, rate limits by address, the adapters and
-- the default extractor of tokens, the Redis counter of velocity, the asynchronous twins of the
-- client's methods, signatures of webhooks, zip archives; and configuration, migrations and mail,
-- which are input and output or calls of libraries. The dashboards and the TypeScript packages are
-- outside.
pub mod Common
pub mod Int
pub mod Json
pub mod Real
pub mod Events
pub mod Ledger
pub mod Api
pub mod Billing
pub mod Client
pub mod Contracts
pub mod Database
pub mod Guards
pub mod Http
pub mod Packs
pub mod Security
pub mod Webhooks
pub mod WhatIf
pub mod Wrap
pub mod Tests
