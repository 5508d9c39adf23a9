-- ===== src/Lib.antt =====
-- A model of fronta, a task queue on PostgreSQL.
--
-- A client enqueues a task as a row of the table `tasks`. A worker claims queued rows, which gives each
-- a token and a lease, runs a handler for each in a controller, renews the leases, and reports the
-- outcomes in batches; each write is fenced by the token. A reaper takes back rows whose lease has
-- expired, and each transition publishes events to the subscriptions that want it. Hints wake the
-- listeners outside of the commits.
--
-- The files, with the code that they model (paths under src/fronta):
--   Prelude, Errors: shared names and lemmas; errors.py as values.
--   Model, Model/Backoff, Model/Json: model.py, the retry delay of store.py, the JSON forms of a policy.
--   Codec/Text, Codec/Check, Codec/Truncate: codec.py, text as code points, the checks of a value and
--     the truncation of errors.
--   Store/Row: a row and what each statement of store.py, complete.sql and claim.sql does to it.
--   Store/Tables: the tables, an UPDATE over them and its events (`_with_events`, `_PUBLISHED`).
--   Store/Enqueue: `enqueue` with its argument checks and its loop over the dedupe race.
--   Store/Claim: the candidate query claim_candidate.sql. Store/Claim/Admission: `fronta.claim` of
--     claim.sql, with the locks, snapshots and clocks that its statements meet as arguments.
--   Store/Attempts: the final statement of a claim, `heartbeat`, `set_progress`, `complete`,
--     `release_orphans`. Store/Control: `request_cancel`, `reap`, `requeue`, `set_paused`, `purge_tasks`.
--     Store/Types: `publish_task_type`, `stats`, `purge_events`, `check_schema`.
--   Store/History: the statements on tasks as the steps of a history.
--   Worker/Attempt: the controller `Attempt`. Worker/Context: what a handler asks of it.
--     Worker/Completions: `_Completions`. Worker/Renewals: the lease renewals. Worker/Claims: the claim
--     loop. Worker/Writes: `fenced_write`. Worker/Lifecycle: shutdown requests, exit codes and the
--     watchdog. Worker/Startup: the checks of a start. Worker/Drain: the drain and the background rounds.
--   Sandbox/Pidfd: `Pidfd`. Sandbox/Process: `SandboxProcess` and its kills. Sandbox/Output: what its
--     `run` keeps. Sandbox/Identity: worker ids. Sandbox/Scavenger: the marked processes and the sweep
--     for orphans. Sandbox/Abort: the end of a failed spawn, the probe. Sandbox/Command: `Sandbox` of model.py, the environment and the command line.
--   Definitions, Executors: definitions.py and executors.py, over pydantic's models as parameters.
--   Server/Service, Server/Enqueue: server/service.py over the tables. Server/Paging,
--     Server/Cancelling: its lists and its cancellations. Server/Gates: the bearer check of
--     server/api.py, and the middleware of server/app.py.
--   Config: the relations between settings in config.py, and `Policy` of model.py.
--   Hints: hints.py. Feed: feed.py, and the statements of store.py on subscriptions and events.
-- The Examples modules hold tests and the theorems at concrete inputs.
--
-- A statement of the database is a function on the tables: statements that PostgreSQL runs in one
-- transaction are one step, and interleavings are sequences of steps. `now()`, the clocks and the
-- draws of `random()` (in thousandths, under 1000) are arguments. Times and durations are whole
-- microseconds unless a file says otherwise, a backoff factor is in hundredths, a priority is its offset
-- from the least integer -2 ** 31, and tokens are numbers: that a fresh one differs from the old ones
-- is a hypothesis where it matters. A row stands in front of the older ones. In a
-- history the choice of rows by a claim is an argument (any choice), as is the text that the codec
-- makes of an error. The admission of a claim runs over the rounds that it meets, and one round more
-- than there are ids is enough; a client that follows a list needs one page more than there are tasks.
-- What a coroutine of the worker observes at its awaits is an argument too: how a runner ended, what a
-- kill answered, what arrived meanwhile; a list of such observations that ends early is a coroutine
-- that still waits. `attempts` of a worker is a dict: its keys are modelled, and a row whose id has an
-- entry replaces it. The transactions that commit around the statements of `enqueue` are arguments, and
-- so are the snapshots of a claim, with what its locks hold as hypotheses: its locked rows and types stay,
-- and no other claim starts rows of a limited type whose lock it has got. The loop of `enqueue` runs on fuel, and one round more than the clock needs to pass
-- the deadline is enough; a truncation needs more than its texts are long.
--
-- Not modelled: the tasks and threads that run a worker's loops, its signal handlers, the
-- launch of a process and the reading of `/proc` beyond the answers that they give, pydantic and
-- jsonschema, the fingerprint of a definition (a hash), the routes and MCP tools, which hand their
-- arguments to the service, the command line, connection pools and the schema's DDL: they are glue over
-- libraries and the operating system.
pub mod Prelude
pub mod Errors
pub mod Model
pub mod Config
pub mod Codec
pub mod Hints
pub mod Store
pub mod Feed
pub mod Sandbox
pub mod Executors
pub mod Definitions
pub mod Server
pub mod Worker
