-- ===== src/Consumer/Progress.antt =====
-- What becomes of a delivery (worker-service/internal/queue/consumer.go) whose job waits in a
-- database that the API and the worker reach.
use scalequeue.Common.{
  ℕ, ◌+◌, ◌≤◌, ◌<◌, ◌^◌, ◌≡◌, ◌≢◌, refl, ◌⊎◌, inl, inr, String, false, List, [], ◌∷◌, none, some,
  any, find?, arith, Bool-cases, count-positive, eq_iff, str_eq, ◌==◌, ◌&&◌, ⊤,
}
use scalequeue.Schema.{Job, Outbox, Db}
use scalequeue.Schema.Tables.{has_id, has_identity, find_job}
use scalequeue.Session.{Session, Action}
use scalequeue.Session.Timely.{IsTimely}
use scalequeue.JobService.{Platform}
use scalequeue.WorkerStore.{is_processing, is_after}
use scalequeue.WorkerStore.Claim.{claimed, is_final}
use scalequeue.WorkerStore.Claim.Liveness.{IsClaimable}
use scalequeue.WorkerStore.Lease.Completion.{IsCompleted}
use scalequeue.WorkerStore.Dispatch.Soundness.{LeavesTransaction}
use scalequeue.Delivery.{IsReached, IsBehind, AreBehind, IsSound}
use scalequeue.Delivery.Transactions.{same_job}
use scalequeue.Delivery.History.{Reachable, Reachable-IsSound}
use scalequeue.Worker.{Outcome, Surroundings, Verdict, verdict}
use scalequeue.Worker.Completion.{IsBystander}
use scalequeue.Consumer.{published, handle}
use scalequeue.Consumer.Completion.{IsDone, handle-IsCompleted}

-- The job `j` waits for an attempt at `low`: it is neither settled nor under a lease, due, and has an
-- attempt left.
pub record IsWaiting (j : Job) (low : ℕ) : Type 0 where
  pub unsettled : is_final j.status ≡ false
  pub idle : (is_processing j.status ≡ false) ⊎ (is_after j.lease_until low ≡ false)
  pub due : j.next_attempt_at ≤ low
  pub left : j.attempt_count ≤ j.max_retries

-- No intent is ahead of its job.
not_ahead :
    (generation attempt : ℕ) (j : Job)
    → IsReached generation attempt j
    → (generation == j.generation && attempt == j.attempt_count + 2) ≡ false
not_ahead generation attempt j h = ground arith

row_behind :
    (id : String) (j : Job) (jobs : List Job) (o : Outbox)
    → find? (has_id id) jobs ≡ some j
    → IsBehind jobs o
    → has_identity id j.generation (j.attempt_count + 2) o ≡ false
row_behind id j jobs o found (i, owner, reached) = elim (Bool-cases (str_eq o.job_id id)) [
  | inl e ↦
      let same : i ≡ j = same_job (rw ((eq_iff o.job_id id).0 e) at owner) found in
      rw e (not_ahead o.generation o.attempt j (rw same at reached))
  | inr e ↦ rw e refl
]

fresh_of :
    (id : String) (j : Job) (jobs : List Job) (os : List Outbox)
    → find? (has_id id) jobs ≡ some j
    → AreBehind jobs os
    → any (has_identity id j.generation (j.attempt_count + 2)) os ≡ false
fresh_of id j jobs [] found h = refl
fresh_of id j jobs (o ∷ os) found (b, h) =
    rw (row_behind id j jobs o found b) (fresh_of id j jobs os found h)

IsWaiting-IsClaimable :
    (id : String) (j : Job) (low : ℕ) (d : Db)
    → IsSound d
    → find_job id d ≡ some j
    → IsWaiting j low
    → IsClaimable id j.generation j low d
IsWaiting-IsClaimable id j low d sound found h = record {
  found = found;
  current = refl;
  unsettled = h.unsettled;
  idle = h.idle;
  due = h.due;
  left = h.left;
  unique =
      let some_row = count-positive (has_id id) d.jobs j found in
      let one_row = sound.keyed id in omega arith;
  fresh = fresh_of id j d.jobs d.outbox found sound.behind;
}

module _ (platform : Platform) (publish : String → ℕ → Action ⊤)
    (leaves : LeavesTransaction publish) where
  -- A delivery of a job that waits is carried out. In every database that the API's and the
  -- worker's methods reach, in any order and under any faults, let a job wait for an attempt. Where
  -- from then on nothing is lost and all that is to come takes less time than the lease, the
  -- delivery that the dispatcher published for the job is acknowledged, the verdict on its
  -- handler's outcome is stored with no lease left, and the intent of the next attempt waits in the
  -- outbox where there is to be one: with any number of renewals, and beside other sessions that
  -- leave this job alone. The job's id is not empty and its generation fits Go's `int`.
  pub waiting_job_completes :
      (run : Job → Outcome) (around : Surroundings) (lease : ℕ) (owner : String) (low high : ℕ)
      (id : String) (j : Job) (v : Verdict) (s : Session)
      → Reachable platform publish s.committed
      → s.working ≡ none
      → find_job id s.committed ≡ some j
      → IsWaiting j low
      → IsTimely low high s
      → high < low + lease
      → ((n : ℕ) → IsBystander id (around.others n))
      → around.ctx_error ≡ none
      → verdict around.random (claimed owner j) (run (claimed owner j)) ≡ some v
      → id ≢ ""
      → 1 ≤ j.generation
      → j.generation < 2 ^ 63
      → IsDone
          (λ e. IsCompleted (claimed owner j) v.status v.text v.delay low high e)
          (handle run around lease owner (published id j.generation) s)
  waiting_job_completes run around lease owner low high id j v s reached idle found waiting timely
        long aside alive judged named positive bounded =
      handle-IsCompleted run around lease owner id j.generation j v s named positive bounded long
        aside alive judged
        (IsWaiting-IsClaimable id j low s.committed
          (Reachable-IsSound platform publish leaves s.committed reached) found waiting)
        (refl, idle) timely
