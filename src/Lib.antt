-- ===== src/Lib.antt =====
-- daraja-payment-wrapper: a service that asks M-Pesa customers for payment over Safaricom's Daraja
-- API (STK Push), and keeps a record of every payment.
--
-- The parts and how they interact. A client posts a request (app/schemas/stk.py validates it); the
-- service (app/services/stk.py) answers from its cache in Redis, or takes a lock in Redis, makes a
-- record in PostgreSQL (app/repository/payment_repo.py), asks Daraja (app/daraja), and stores what
-- Daraja answered. Later Daraja posts a callback, and the service settles the payment. Exceptions
-- (app/exceptions.py) become problem responses (app/main.py).
--
-- Which file models which part:
--   Prelude, Prelude/*: shared names, texts as lists of code points, Python's integers.
--   Exec, Exec/Keeps: code that changes a state and may raise; what such code keeps.
--   Errors, Errors/*: app/exceptions.py; the exception handlers of app/main.py.
--   Payment: app/models/payment.py.
--   Schemas, Schemas/*: app/schemas/stk.py. `normalise_phone`, the validators of
--     `STKPushInitiateRequest` (`validate`), and the callback body have the source's names.
--   Redis, Database: interfaces of the two servers, with the laws that the code relies on; Redis/Memory
--     and Database/Memory are implementations that fit them.
--   Repository: app/repository/payment_repo.py, `PaymentRepository`.
--   Json: dictionaries that come from JSON.
--   Daraja, Daraja/*: app/daraja. Daraja/Circuit is the breaker of app/daraja/client.py
--     (`_check_circuit`, `_on_success`, `_on_failure`), Daraja/Client its `post` and
--     `_execute_request`, Daraja/Auth app/daraja/auth.py, Daraja/Stk app/daraja/stk.py, Daraja/Query
--     app/daraja/query.py.
--   Audit, Audit/*: app/models/audit.py, the checksum chain (Audit/Chain) and the sanitised payloads
--     (Audit/Sanitise).
--   Middleware, Middleware/*: app/middleware, `dispatch` of each class: Middleware/ApiKey api_key.py,
--     Middleware/RateLimit rate_limit.py, Middleware/IpAllowlist ip_allowlist.py,
--     Middleware/SecurityHeaders security_headers.py; Middleware/RateLimit/Script is the loading of
--     the script. The responses themselves, their headers and the order of the classes in app/main.py
--     are left out.
--   Config, Config/*: app/config.py, `Settings`; its validators have the source's names, and `validate`
--     runs them in their order. Config/Getter is `get_settings` with what app/main.py, `create_app`, makes
--     of it. Config/Keys has `parsed_api_keys` with the middleware that takes them.
--   Observability, Observability/*: app/observability.py, the processors `_add_service_context` and
--     `_strip_pii_from_logs`, and `_sentry_before_send`; Observability/Configured the functions
--     `configure_*`, over an interface of the libraries, and Observability/Metrics `PaymentMetrics`.
--   Routes, Routes/*: app/routes/stk.py, the callback route, with the envelope of app/schemas/stk.py;
--     app/routes/health.py.
--   Dependencies, Dependencies/*: app/dependencies.py, the objects of the application: `lifespan` cut at
--     its `yield` (`startup`, `shutdown`) and the getters with what they close (Dependencies/Scope).
--   Sql, Sql/*: the database schema. Sql/Models has the tables and indexes of app/models, Sql/Migration
--     `upgrade` and `downgrade` of migrations/versions/d3de5502634c_initial_tables.py, Sql/Ddl the
--     interface of Alembic on PostgreSQL, with Sql/Ddl/Memory, which fits it. Sql/Rows states which rows
--     the columns and checks of a table take, by the documented limits of the column types.
--   Tasks, Tasks/*: app/tasks. Tasks is one row of `expire_stale_pending_payments` of
--     reconciliation_tasks.py, Tasks/Reconcile the whole task, Tasks/Worker the retries of Celery,
--     Tasks/Stk stk_tasks.py, Tasks/Infra _infra.py and _worker_utils.py, Tasks/Celery celery.py.
--   Service, Service/*: app/services/stk.py, `STKService`. Service/Initiate has `initiate_stk_push` cut
--     at its steps (`from_cache`, `locked`, `under_lock`, `resume`, `start`, `dispatch`,
--     `call_daraja`), Service/Process `process_callback`, Service/Status `get_payment_status` and its
--     route. Service/Wired is `get_stk_service` of app/dependencies.py, the service with its Daraja
--     client. Service/Once runs the service over histories of events (Service/Once/History) against a
--     ledger entry for each key (Service/Once/Ledger). Service/Race interleaves the parts of requests
--     with one key, cut at their transactions and their Daraja call.
--   Tests, and the files named Tests: the theorems at concrete inputs, in the
--     environments of the files named Sample.
--
-- How code is modelled. Code that changes a state and may raise is a function from the state to a
-- result and the next state (`Exec`); what was done before an exception stays done. A module that uses
-- code outside the repository takes it as a parameter: `Environment` and `Platform` hold the servers,
-- the clock, httpx, pydantic's JSON, `uuid4`, `strptime` and the settings, `Tenacity` the retries of
-- the client, `Celery` those of the tasks, `Scripting` the scripts of Redis, `HeaderMap` the headers
-- of a response, `StaleQuery` the query of the reconciliation, `Ddl` the operations of Alembic. The
-- laws of these parameters state documented behaviour: what a Redis command or an SQL statement that
-- succeeds or raises has done, that a response is read back from its JSON, and when a retry happens.
-- Calls of a server may fail at any time, and what a failed call has done is left open where the
-- servers leave it open.
--
-- Numbers are exact: a `Decimal` is a coefficient and a count of places, times are whole seconds or
-- microseconds, and the tokens of the rate limit are counted in halves of a millionth. Texts are lists
-- of code points; the decimal digits are those of Unicode 15. The English texts of messages and the
-- log are left out. The loops are structural: the poll for a token counts down its rounds, and the
-- retries are those of tenacity, at most `daraja_retry_attempts`, which app/config.py bounds from 1 to
-- 5. A task of Celery is run on fuel: one run for the first delivery and one for each retry, so six for
-- a callback and three for a batch are enough.
--
-- Not modelled: cancellation of coroutines; other requests between two steps of one outside
-- Service/Race (what they can have done is in the state that a step finds), and statements of two
-- transactions at the same time, of which the unique index lets one be committed; the expiry of
-- keys while a request runs; the settings that Celery alone reads, which are glue;
-- migrations/env.py, which hands a connection to Alembic; the order of the middleware and the
-- headers of the responses; the defaults of the settings. The default of the database URL is taken
-- through its validators, which leave it as it is. The limits of the columns are stated beside the
-- interface of the session, which leaves open why a statement raises. An object of the application
-- that cannot be made, and two starts of one process at the same time, are left out.
pub mod Config
pub mod Observability
pub mod Prelude
pub mod Json
pub mod Errors
pub mod Exec
pub mod Database
pub mod Redis
pub mod Payment
pub mod Schemas
pub mod Repository
pub mod Daraja
pub mod Audit
pub mod Sql
pub mod Middleware
pub mod Service
pub mod Dependencies
pub mod Routes
pub mod Tasks
pub mod Tests
