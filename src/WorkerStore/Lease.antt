-- ===== src/WorkerStore/Lease.antt =====
-- `Renew` and `Finish` of worker-service/internal/db/mysql.go: the writes that a lease guards.
pub mod Soundness
pub mod Counters
pub mod Fencing
pub mod Liveness
pub mod Completion
use scalequeue.Common.{
  ℕ, ◌+◌, String, Bool, true, false, not, Option, none, some, ◌==◌, str_eq, if◌then◌else◌, count,
  map_where, find?, ⊤,
}
use scalequeue.Schema.{JobStatus, Job, Db}
use scalequeue.Schema.Tables.{seconds, rounded, has_id, find_job, insert_outbox, Reply, done}
use scalequeue.Session.{
  Action, pure, throw, ◌>>=◌, ◌>>◌, statement, execute, get_connection, commit, releasing,
}
use scalequeue.WorkerStore.{lost_lease, begin_tx, with_rollback, is_held, audit}

-- An UPDATE of the rows that the lease guards, with the number of rows it affects.
abbrev pub update_held : Job → (ℕ → Job → Job) → ℕ → Db → Reply (ℕ × Db)
update_held j f now d =
    done
      (count (is_held j now) d.jobs, record d { jobs = map_where (is_held j now) (f now) d.jobs })

owned : ℕ → Action ⊤
owned n = if n == 1 then pure tt else throw lost_lease

abbrev pub extend : ℕ → ℕ → Job → Job
extend lease now row = record row { lease_until = some (now + lease); updated_at = seconds now }

-- The affected rows are counted as the matched ones: the new end of the lease is a later instant.
renew_row : ℕ → Job → Action ⊤
unfolding owned
renew_row lease j = do get_connection; n ← statement (update_held j (extend lease)); owned n

unfoldable pub renew : ℕ → Job → Action ⊤
unfolding renew_row
renew lease j s = releasing (renew_row lease j s)

-- NULLIF(?,'')
abbrev pub null_if_empty : String → Option String
null_if_empty s = if str_eq s "" then none else some s

abbrev pub is_pending : JobStatus → Bool
is_pending JobStatus.pending = true
is_pending JobStatus.processing = false
is_pending JobStatus.completed = false
is_pending JobStatus.failed = false
is_pending JobStatus.dead = false

-- UPDATE jobs SET status=?, …
abbrev pub settle_job : JobStatus → String → ℕ → ℕ → Job → Job
settle_job status text delay now row = record row {
  status = status;
  error_msg = null_if_empty text;
  next_attempt_at = now + delay;
  lease_owner = none;
  lease_until = none;
  processed_at = if is_pending status then none else some (rounded now);
  updated_at = rounded now;
}

-- INSERT INTO job_outbox … SELECT id,generation,attempt_count+1,next_attempt_at FROM jobs WHERE id=?
abbrev pub intend : Option Job → Db → Reply Db
intend none d = done d
intend (some row) d =
    insert_outbox row.id row.generation (row.attempt_count + 1) row.next_attempt_at d

-- The retry that a PENDING outcome schedules.
schedule : Bool → String → Action ⊤
schedule false id = pure tt
schedule true id = execute (λ now d. intend (find_job id d) d)

finish_rows : Job → JobStatus → String → ℕ → Action ⊤
unfolding owned schedule
finish_rows j status text delay = do
  begin_tx
  n ← statement (update_held j (settle_job status text delay))
  owned n
  audit j.id JobStatus.processing status text j.lease_owner
  schedule (is_pending status) j.id
  commit

unfoldable pub finish : Job → JobStatus → String → ℕ → Action ⊤
unfolding finish_rows
finish j status text delay s = with_rollback (finish_rows j status text delay s)
