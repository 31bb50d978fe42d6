-- ===== src/Lib.antt =====
-- ScaleQueue: the job API, the workers and the dashboard of a background-job queue, modelled from
-- its source.
--
-- The API (api-service/src, TypeScript) accepts jobs over HTTP, lists them and replays dead ones.
-- It keeps its state in MySQL: the tables jobs, job_audit_logs, job_outbox and api_clients of
-- api-service/migrations/sqls. A worker service (worker-service, Go) publishes the outbox rows to
-- a Redis stream, claims jobs under a lease and stores their outcome. A page (dashboard) lists the
-- jobs through the API, submits and replays them.
--
-- Which file models what:
-- - Schema, Schema/Tables, Schema/Keys: the rows of the tables, and INSERT, UPDATE and lookups with the checks
--   of primary, unique and foreign keys. NOW(6) is a number of microseconds.
-- - Session: a MySQL connection. An action is a function from a session, which holds the committed
--   database, the view of the open transaction, the clock and the events to come, to a result and
--   a session. Each round trip takes one event, which may lose the request or the reply; the
--   theorems range over every list of events. Session/Rules, Session/Autocommit, Session/Calm (no
--   fault to come), Session/Timely (none, within a bounded time) and Session/Instants (when each
--   round trip reaches the server) have the proof rules.
-- - Identity: `canonical` of services/identity.ts, over Json; Identity/Order and
--   Identity/Reordering: what it forgets; Identity/Normal (the same as a sort and a print),
--   Identity/Lexing, Identity/Reading and their children: what it keeps, by a reader of the text,
--   whose fuel is the value's weight.
-- - JobService and its children Create, Requeue, Listing: the methods of services/jobService.ts.
--   Create/Acceptance, Create/Arrival, Create/Idempotency, Create/SameRequest, Create/Retry,
--   Requeue/Replay, Listing/Pages and Listing/Results prove.
-- - Http, Validator, Controller: controllers/jobController.ts, with Controller/Statuses and
--   Controller/Limits. Auth, Auth/Gate: middleware/auth.ts.
-- - WorkerStore: worker-service/internal/db/mysql.go, with Claim (`Claim`), Lease (`Renew`,
--   `Finish`) and Dispatch (`Dispatch`); Claim/Recording, Claim/Outcomes, Lease/Fencing, the Soundness modules,
--   the Liveness modules, Lease/Completion, WorkerStore/Rules, WorkerStore/Held and
--   Delivery/Transactions prove.
-- - Delivery: the invariant of jobs and outbox, with Delivery/Statements and Delivery/References for
--   the statements and Delivery/History for the histories in which the API's and the worker's
--   methods follow each other, from an empty database or from one that the upgrade made, and
--   Delivery/Attempts for the attempts that such a history begins, with the Counters modules and
--   Delivery/Counting.
-- - Backoff: worker-service/internal/retry/backoff.go.
-- - Worker: worker-service/internal/worker/worker.go (`ProcessJob`), with Worker/Handlers for
--   worker-service/internal/handlers; Attempt, Verdicts and Completion prove, and Steps has the
--   sessions at rest. Between the calls of the
--   store, other sessions may commit what they like.
-- - Consumer, Consumer/Deliveries: `handle` and `Publish` of worker-service/internal/queue, with
--   Consumer/Completion and Consumer/Progress for the deliveries that are carried out;
--   Consumer/Loop, Consumer/Loop/Returns: `Start` and `recover`, with as fuel one more than the
--   reads of `stop` before it is set, which is proved to be enough.
-- - WorkerConfig: `Load` of worker-service/internal/config/config.go, with Bounds and Validity; Pool:
--   `Run` of worker-service/internal/worker/pool.go, with Names and Relay, the dispatcher's loop,
--   whose fuel is that of the consumer's, and Relay/Draining. Its waits and the context of `Dispatch`
--   take no time.
-- - Server: api-service/src/server.ts, routes/jobs.ts and the ping of services/queueService.ts,
--   with Server/Routing, Server/Handlers, Server/Reading, Server/Startup for the start with the pool of
--   db/mysql.ts, and Server/Shutdown for the signals. Config: config/index.ts.
-- - Dashboard: dashboard/app.js, as events on the page: Dashboard/Drawing (what is drawn), Calls
--   (what is sent), Answers (what is done with an answer) and Events (`react`). Tallies, Rows,
--   Consistency, Late, Service and Replays prove.
-- - Migration: the upgrade of api-service/migrations/sqls/20261025000000-durable-delivery-up.sql,
--   statement by statement, with Inserting, Rows, Keys and Upgrade; Migration/Runner:
--   api-service/migrations/*.js.
-- - Benchmark: the runners of scripts/benchmark.cjs.
-- - Tests: concrete data, and the theorems at concrete inputs.
--
-- Parameters: the SHA-256 digest, randomUUID, the collation under which user-supplied texts are
-- compared, ORDER BY with ties left open (`Platform`), and Zod's `parse` (`Validator`), with what
-- MySQL and Zod document of them as hypotheses; the worker's `publish`, which is taken to leave
-- the transaction alone, `rand.Int64N`, and the outbox rows that SKIP LOCKED passes over; how
-- Express matches paths (`Express`); the middleware of helmet, cors and express.json
-- (`Middleware`); what `json.Unmarshal` makes of a payload (`Decoder`); the
-- locale's dates; the worker's environment and `time.ParseDuration`.
--
-- Assumptions of the model: transactions of several sessions are serialised (row locks and unique
-- keys); ids and digests are compared exactly; numbers of `parseInt` are exact; a payload is kept
-- parsed; an answer that the dashboard gets has the shape that the API gives it. The functions on
-- a JSON value and on lists recur on their argument; `decimal` has as fuel its argument and one,
-- which is more than its digits.
--
-- Not modelled: connection pools, logging, metrics, the down scripts of the migrations, the other scripts, the goroutines of the worker's
-- pool with the deadline of its shutdown, and the worker's main.
pub mod Common
pub mod Json
pub mod Schema
pub mod Identity
pub mod Session
pub mod JobService
pub mod Http
pub mod Validator
pub mod Auth
pub mod Controller
pub mod WorkerStore
pub mod Delivery
pub mod Backoff
pub mod Server
pub mod Migration
pub mod Benchmark
pub mod Config
pub mod Worker
pub mod WorkerConfig
pub mod Pool
pub mod Consumer
pub mod Dashboard
mod Tests
