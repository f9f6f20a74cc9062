-- ===== src/Lib.antt =====
-- CloudCommander: the event-sourced core of the service, modelled and proved.
--
-- A command comes in over HTTP (app/api/routers/commands.py). Its handler reads the stream of the
-- aggregate from the event log (app/infrastructure/repository.py), which verifies the hash of every
-- row (app/security/hash_chain.py), replays it through the reducer (app/domain/reducers.py), which
-- checks the actor's claims (app/security/rbac_policy.py) for an allocation, a freeze and a
-- resolution, and appends the new event together with an outbox entry in one transaction, under the
-- constraints that migrations/*.sql declare. Workers (app/worker/projection_worker.py) claim the
-- entries of the outbox in batches. For each they read the event, show it to the guardrail, let the
-- reconciler apply an allocation through an adapter, and then write the projection, or the
-- follow-ups of a compensation, and mark the entry. The read routes answer from what they wrote. A
-- gate (app/api/middleware.py) refuses commands by the rates that app/control/backpressure_manager.py
-- keeps, and migrations/run.py brings the database up.
--
-- Which file models what:
--   Prelude, Prelude/Lists, Prelude/Tests: the names that the other files share, and their lemmas
--   Text, Uuid, Float: Python's str as code points, UUID as a 128-bit number with its text, and
--     float as an interface whose laws are those of doubles
--   Errors: the exceptions as one type, fallible code as `Result`
--   Security/RbacPolicy: app/security/rbac_policy.py
--   Security/HashChain: app/security/hash_chain.py; json.dumps and SHA-256 are the interface
--     `Hasher`, and that digests are 64 hex digits is the hypothesis `Digests`
--   Domain/Schemas: app/domain/schemas.py, a record per class and a test per set of constraints
--   Domain/Reducers: app/domain/reducers.py; `replay` is the loop in app/api/routers/commands.py.
--     Replay, Lifecycle and Validity hold its theorems
--   Infrastructure/Database: the tables of migrations/*.sql as lists of rows, the constraints in the
--     order in which PostgreSQL tests them, transactions with the deferred foreign key
--   Infrastructure/Repository: app/infrastructure/repository.py, a method as a function on `Db`. Its
--     modules Append, Invariant, Select, Read, Stream, RoundTrip, Nodes and Conflict hold the theorems
--   Api/Commands: app/api/routers/commands.py; what other clients commit between the validation and
--     the append of a command is an argument, `others`. Validation, Handlers, Writes, Accepted and Late
--     hold the theorems
--   Api/Dependencies: app/api/dependencies.py
--   Api/Middleware: app/api/middleware.py, the gate over the rest of the application
--   Api/Projections, Telemetry: the read routes of app/api/routers
--   Api/App: the life of the pool in app/main.py
--   Infrastructure/Adapters: app/infrastructure/adapters, the abstract class as an interface over the
--     state of an adapter, and the mock
--   Control/MautRollback, PidGuardrail, Backpressure: app/control, over the interface of floats
--   Worker/Reconciler: app/worker/reconciler.py
--   Worker/Outbox: the claim query of app/worker/projection_worker.py and its two marks. Claim, Lease,
--     Settled and Stale hold the theorems
--   Worker/Processing, Guardrail, Followups, Records, Batch, Loop, Projection: the rest of
--     app/worker/projection_worker.py, from what an intent's outcome means to the polling loop
--   Migrations: migrations/run.py; what PostgreSQL does with a migration is the interface `SqlServer`
--   Environment: the variables that the processes read
--   System: handlers and workers at one database, as a relation between the states that their
--     commits, and the statements of their transactions, lead to. Advances, Writes, Grows, Once and
--     Shown hold the theorems
--   Tests: concrete inputs
--
-- The models keep the program's numbers as natural numbers: sequence numbers and times are not
-- negative by their schemas, and the widths of the database's columns are the test `columns_fit`.
-- `decimal` runs on fuel, one unit per digit and n + 1 units for n, which is enough since every
-- step divides by ten. JSON is a parameter; what pydantic writes to it and reads from it is the
-- interface `Codec`, and that it reads back what it wrote is the hypothesis `ReadsBack`. A JSONB
-- column is taken to hold and return the value that was written, which asyncpg does with a codec;
-- the program registers none. The two intervals that the claim query gets as texts are taken as the
-- times that they spell, where asyncpg expects a timedelta.
--
-- PostgreSQL runs the transactions at READ COMMITTED, so others may commit between the statements of
-- one. The functions of the handlers and of the worker have others run before a transaction, and
-- take its statements on one state; that others commit between the SELECT of a stream's head and the
-- INSERT of the event is `append_event_on`. The relation of System has both: whole transactions, and
-- the appends and the single writes of a worker's transaction with others between them. Theorems on
-- one append, one handler or the processing of one entry speak of transactions that no commit falls
-- into. In those of System this holds only of the commands that they name, not of the run around them.
--
-- The polling loop runs on fuel, a unit for each test of the stop event, as it has no end of its own:
-- one unit more than there are turns before the event is set is enough.
--
-- Not modelled: HTTP parsing and routing by FastAPI, logging, printing, sleeps, reading files, the
-- pool of connections, and connections that fail between the claim of an entry and its mark.
pub mod Prelude
pub mod Text
pub mod Uuid
pub mod Float
pub mod Errors
pub mod Environment
pub mod Security
pub mod Domain
pub mod Infrastructure
pub mod Api
pub mod Control
pub mod Worker
pub mod System
pub mod Migrations
mod Tests
