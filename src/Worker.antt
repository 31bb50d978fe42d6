-- ===== src/Worker.antt =====
-- `ProcessJob` of worker-service/internal/worker/worker.go, one attempt at a job. The heartbeat runs
-- beside the handler: of it the model keeps the renewals, in their order, before the handler ends.
-- The metrics are left out.
pub mod Handlers
pub mod Attempt
pub mod Steps
pub mod Verdicts
pub mod Completion
use Prim.Native.String.{◌++◌ as str_append}
use scalequeue.Common.{
  ℕ, zero, suc, ◌+◌, ◌/◌, String, Bool, true, false, ◌||◌, Option, none, some, leb, if◌then◌else◌,
  ⊤,
}
use scalequeue.Schema.{JobStatus, Job, Db}
use scalequeue.Session.{Error, message, ok, Action, pure, throw, ◌>>=◌, ◌>>◌}
use scalequeue.WorkerStore.Claim.{claim}
use scalequeue.WorkerStore.Lease.{renew, finish}
use scalequeue.Backoff.{ℤ, pos, negsuc, exponential_delay}

-- How a handler ends; `errors.As(e, &permanent)` is the flag.
pub data Outcome : Type 0 where
  succeeded : Outcome
  failed : (text : String) (permanent : Bool) → Outcome
  panicked : String → Outcome

-- What one run meets: the renewals before the handler ends, `ctx.Err()` after it, `rand.Int64N`, and
-- what other sessions commit before each call of the store, by the calls that are still to come.
pub record Surroundings : Type 0 where
  pub others : ℕ → Db → Db
  pub beats : ℕ
  pub ctx_error : Option String
  pub random : ℕ → ℕ

pub record Verdict : Type 0 where
  pub status : JobStatus
  pub text : String
  pub delay : ℕ

-- `delay.Microseconds()`; a panic, or a delay below 0, of which there are none, gives nothing.
abbrev pub microseconds : Option ℤ → Option ℕ
microseconds none = none
microseconds (some (pos n)) = some (n / 1000)
microseconds (some (negsuc n)) = none

abbrev pub is_last : Job → Bool
is_last j = leb (j.max_retries + 1) j.attempt_count

abbrev after_failure : String → Bool → Option ℕ → Option Verdict
after_failure text to_dead none = none
after_failure text to_dead (some delay) = some (record {
  status = if to_dead then JobStatus.dead else JobStatus.pending;
  text = text;
  delay = delay;
})

-- The status, the message and the delay that `Finish` is called with.
unfoldable pub verdict : (ℕ → ℕ) → Job → Outcome → Option Verdict
verdict random j succeeded =
    some (record { status = JobStatus.completed; text = "Completed successfully"; delay = 0 })
verdict random j (failed text permanent) =
    after_failure text (permanent || is_last j)
      (microseconds (exponential_delay random (pos j.retry_count)))
verdict random j (panicked text) = none

-- The transactions of other sessions.
abbrev pub meanwhile : (Db → Db) → Action ⊤
meanwhile f s = (ok tt, record s { committed = f s.committed })

-- The renewals of the heartbeat; the first that fails ends the attempt with its error.
heartbeat : ℕ → Job → (ℕ → Db → Db) → ℕ → Action ⊤
heartbeat lease j others zero = meanwhile (others 0)
heartbeat lease j others (suc n) = do
  meanwhile (others (suc n))
  renew lease j
  heartbeat lease j others n

store_verdict : Job → Option Verdict → Action ⊤
store_verdict j none = throw (message "handler panic")
store_verdict j (some v) = finish j v.status v.text v.delay

-- What follows the handler.
conclude : Option String → (ℕ → ℕ) → Job → Outcome → Action ⊤
unfolding store_verdict verdict
conclude none random j outcome = store_verdict j (verdict random j outcome)
conclude (some e) random j outcome = throw (message e)

module _ (handle : Job → Outcome) (around : Surroundings) (lease : ℕ) (owner : String) where
  attempt : Option Job → Action ⊤
  unfolding heartbeat conclude
  attempt none = pure tt
  attempt (some j) = do
    heartbeat lease j around.others around.beats
    conclude around.ctx_error around.random j (handle j)

  unfoldable pub process_job : String → ℕ → Action ⊤
  unfolding attempt
  process_job id generation = do claimed ← claim lease id generation owner; attempt claimed
