-- ===== src/JobService/Requeue.antt =====
-- `requeueJob` of api-service/src/services/jobService.ts.

pub mod Replay
use scalequeue.Common.{ℕ, ◌+◌, String, Bool, true, false, none, some}
use scalequeue.Schema.{JobStatus, Job}
use scalequeue.Schema.Tables.{seconds, find_job, insert_log, insert_outbox, update_job, done}
use scalequeue.Session.{
  Error, Action, throw, ◌>>=◌, ◌>>◌, catch, execute, query, get_connection, begin_transaction,
  commit, rollback, releasing,
}
use scalequeue.JobService.{job_not_found, not_requeueable, update_not_fetched, or_throw}

-- The reset of `requeueJob`: UPDATE jobs SET status = 'PENDING', …
abbrev pub reset_job : ℕ → Job → Job
reset_job now j = record j {
  status = JobStatus.pending;
  retry_count = 0;
  attempt_count = 0;
  generation = j.generation + 1;
  next_attempt_at = now;
  lease_owner = none;
  lease_until = none;
  error_msg = none;
  processed_at = none;
  updated_at = seconds now;
}

abbrev pub is_replayable : JobStatus → Bool
is_replayable JobStatus.pending = false
is_replayable JobStatus.processing = false
is_replayable JobStatus.completed = false
is_replayable JobStatus.failed = true
is_replayable JobStatus.dead = true

-- The statements of `requeueJob` on the row that it has locked, up to the commit.
reset_all : Job → String → Action Unit
reset_all job id = do
  execute (λ now d. done (update_job id (reset_job now) d))
  execute (insert_log id (some job.status) JobStatus.pending "Manually requeued via API" none)
  execute (λ now. insert_outbox id (job.generation + 1) 1 now)

-- What follows the row's lock in `requeueJob`; the test is that the status is DEAD or FAILED.
replay_locked : Bool → Job → String → Action Job
unfolding reset_all or_throw
replay_locked false job id = throw not_requeueable
replay_locked true job id = do
  reset_all job id
  commit
  updated ← query (find_job id)
  or_throw updated update_not_fetched

-- The body of the `try` in `requeueJob`.
replay : String → Action Job
unfolding replay_locked or_throw
replay id = do
  begin_transaction
  found ← query (find_job id)
  job ← or_throw found job_not_found
  replay_locked (is_replayable job.status) job id

-- The `catch` of `requeueJob`.
undo : Error → Action Job
undo e = do rollback; throw e

unfoldable pub requeue_job : String → Action Job
unfolding replay undo
requeue_job id = do get_connection; λ s. releasing (catch (replay id) undo s)
