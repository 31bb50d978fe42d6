-- ===== src/WorkerStore/Claim.antt =====
-- `Claim` of worker-service/internal/db/mysql.go.
pub mod Soundness
pub mod Recording
pub mod Outcomes
pub mod Liveness
use scalequeue.Common.{
  ℕ, ◌+◌, ◌-◌, String, Bool, true, false, not, ◌&&◌, ◌||◌, Option, none, some, leb, ltb, ◌==◌,
  if◌then◌else◌, ⊤,
}
use scalequeue.Schema.{JobStatus, Job}
use scalequeue.Schema.Tables.{seconds, rounded, find_job, update_job, done}
use scalequeue.Session.{Action, pure, throw, ◌>>=◌, ◌>>◌, statement, execute, commit}
use scalequeue.WorkerStore.{busy, begin_tx, with_rollback, is_after, is_processing, audit}

-- What the SELECT … FOR UPDATE returns: the row, whether its lease is active, and whether its next
-- attempt is still to come.
pub record Seen : Type 0 where
  pub row : Job
  pub active : Bool
  pub early : Bool

abbrev pub see : ℕ → Option Job → Option Seen
see now none = none
see now (some j) =
    some
      (record { row = j; active = is_after j.lease_until now; early = ltb now j.next_attempt_at })

-- COMPLETED or DEAD
abbrev pub is_final : JobStatus → Bool
is_final JobStatus.pending = false
is_final JobStatus.processing = false
is_final JobStatus.completed = true
is_final JobStatus.failed = false
is_final JobStatus.dead = true

abbrev pub exhausted : String
exhausted = "Attempt budget exhausted after interrupted execution"

-- UPDATE jobs SET status='DEAD', …; the column `updated_at` follows every update.
abbrev pub bury : ℕ → Job → Job
bury now j = record j {
  status = JobStatus.dead;
  error_msg = some exhausted;
  lease_owner = none;
  lease_until = none;
  processed_at = some (rounded now);
  updated_at = seconds now;
}

-- UPDATE jobs SET status='PROCESSING', …; `retry_count` is computed from the new `attempt_count`.
abbrev pub take_over : String → ℕ → ℕ → Job → Job
take_over owner lease now j = record j {
  status = JobStatus.processing;
  attempt_count = j.attempt_count + 1;
  retry_count = j.attempt_count + 1 - 1;
  lease_owner = some owner;
  lease_until = some (now + lease);
  updated_at = rounded now;
}

-- The job that Claim returns: the row it read, with the counters and the owner set.
abbrev pub claimed : String → Job → Job
claimed owner j = record j {
  attempt_count = j.attempt_count + 1;
  retry_count = j.attempt_count + 1 - 1;
  status = JobStatus.processing;
  lease_owner = some owner;
}

-- Of another generation, or settled.
abbrev pub is_stale : ℕ → Job → Bool
is_stale generation j = not (j.generation == generation) || is_final j.status

module _ (lease : ℕ) (id : String) (generation : ℕ) (owner : String) where
  give_up : Job → Action (Option Job)
  give_up j = do
    execute (λ now d. done (update_job id (bury now) d))
    audit id j.status JobStatus.dead exhausted (some owner)
    commit
    pure none

  start : Job → Action (Option Job)
  start j = do
    execute (λ now d. done (update_job id (take_over owner lease now) d))
    audit id j.status JobStatus.processing "Attempt claimed" (some owner)
    commit
    pure (some (claimed owner j))

  -- What follows the checks; the test is that the attempts are used up.
  spend : Bool → Job → Action (Option Job)
  unfolding give_up start
  spend true j = give_up j
  spend false j = start j

  decide : Option Seen → Action (Option Job)
  unfolding spend
  decide none = pure none
  decide (some seen) =
      if is_stale generation seen.row
      then pure none
      else if is_processing seen.row.status && seen.active
      then throw busy
      else if seen.early
      then pure none
      else spend (leb (seen.row.max_retries + 1) seen.row.attempt_count) seen.row

  claim_rows : Action (Option Job)
  unfolding decide
  claim_rows = do
    begin_tx
    found ← statement (λ now d. done ((see now (find_job id d), d)))
    decide found

  unfoldable pub claim : Action (Option Job)
  unfolding claim_rows
  claim s = with_rollback (claim_rows s)
