-- ===== src/Delivery/Attempts.antt =====
-- How often a history of api-service/src/services/jobService.ts and
-- worker-service/internal/db/mysql.go gives a job to a worker.
use scalequeue.Common.{ℕ, ◌+◌, ◌≤◌, ◌≡◌, refl, inl, inr, String, some, if◌then◌else◌, arith, ⊤}
use scalequeue.Schema.{Job, Db}
use scalequeue.Schema.Tables.{find_job}
use scalequeue.Session.{Session, Action}
use scalequeue.Session.Rules.{Ends-mono}
use scalequeue.JobService.{Platform}
use scalequeue.JobService.Requeue.{requeue_job}
use scalequeue.JobService.Requeue.Replay.{requeue_job_atomic}
use scalequeue.WorkerStore.Claim.{claim}
use scalequeue.WorkerStore.Dispatch.Soundness.{LeavesTransaction}
use scalequeue.Delivery.Counters.{KeepsCounters}
use scalequeue.WorkerStore.Lease.Counters.{renew-EndsKeeping, finish-EndsKeeping}
use scalequeue.WorkerStore.Dispatch.Counters.{dispatch-EndsSame}
use scalequeue.Delivery.History.{
  connect, left_by, Reachable, start, upgraded, create, requeue, claim_job, renew_job, finish_job,
  dispatch_intent, Reachable-IsSound,
}
use scalequeue.Delivery.Counting.{
  was_replayed, starts_added, left_by-EndsDb, Counts, KeepsCounters-Counts, claim-Counts,
  create-KeepsCounters, replayed-Counts,
}

module _ (platform : Platform) (publish : String → ℕ → Action ⊤) where
  -- How often the calls of `Claim` of a history have given the job to a worker, since it was created,
  -- or last replayed by the API, or since the upgrade: counted by the audit entries that they commit.
  pub attempts_made : {d : Db} → Reachable platform publish d → String → ℕ
  attempts_made (start clients) id = 0
  attempts_made (upgraded at old before made) id = 0
  attempts_made (create now events key input request_key h) id = attempts_made h id
  attempts_made (requeue {d} now events key h) id =
      if was_replayed key id d (left_by (requeue_job key (connect d now events)))
      then 0
      else attempts_made h id
  attempts_made (claim_job {d} now events lease key generation owner h) id =
      attempts_made h id
      + starts_added id d (left_by (claim lease key generation owner (connect d now events)))
  attempts_made (renew_job now events lease j h) id = attempts_made h id
  attempts_made (finish_job now events j status text delay h) id = attempts_made h id
  attempts_made (dispatch_intent now events skipped h) id = attempts_made h id

module _ (platform : Platform) (publish : String → ℕ → Action ⊤)
    (leaves : LeavesTransaction publish) where
  requeue-Counts :
      (key : String) (s : Session) (n : ℕ) (id : String)
      → Counts n id s.committed
      → let e = left_by (requeue_job key s) in
        Counts (if was_replayed key id s.committed e then 0 else n) id e
  requeue-Counts key s n id h =
      let step = λ (e : Db). replayed-Counts key n id s.committed e in
      left_by-EndsDb (λ e. Counts (if was_replayed key id s.committed e then 0 else n) id e) _
        (Ends-mono _
          (λ _ t q. elim q [
            | inl (same, _) ↦ step t.committed (inl same) h
            | inr (done, _) ↦ step t.committed (inr done) h
          ])
          (λ _ t q. step t.committed (inr (q.0)) h) (requeue_job_atomic key s))

  -- The counter of a job's row is no less than the attempts that were made.
  attempts_made-Counts :
      {d : Db} (h : Reachable platform publish d) (id : String)
      → Counts (attempts_made platform publish h id) id d
  unfolding attempts_made
  attempts_made-Counts (start clients) id = omega arith
  attempts_made-Counts (upgraded at old before made) id = omega arith
  attempts_made-Counts (create {d} now events key input request_key h) id =
      KeepsCounters-Counts _ id d.jobs _
        (create-KeepsCounters platform key input request_key (connect d now events))
        (attempts_made-Counts h id)
  attempts_made-Counts (requeue {d} now events key h) id =
      requeue-Counts key (connect d now events) _ id (attempts_made-Counts h id)
  attempts_made-Counts (claim_job {d} now events lease key generation owner h) id =
      claim-Counts lease key generation owner (connect d now events) _ id
        (attempts_made-Counts h id)
  attempts_made-Counts (renew_job {d} now events lease j h) id =
      KeepsCounters-Counts _ id d.jobs _
        (left_by-EndsDb (λ e. KeepsCounters d.jobs e.jobs) _
          (renew-EndsKeeping lease j (connect d now events) refl))
        (attempts_made-Counts h id)
  attempts_made-Counts (finish_job {d} now events j status text delay h) id =
      KeepsCounters-Counts _ id d.jobs _
        (left_by-EndsDb (λ e. KeepsCounters d.jobs e.jobs) _
          (finish-EndsKeeping j status text delay (connect d now events)))
        (attempts_made-Counts h id)
  attempts_made-Counts (dispatch_intent {d} now events skipped h) id =
      let same =
        left_by-EndsDb (λ e. e.jobs ≡ d.jobs) _
          (dispatch-EndsSame skipped publish leaves (connect d now events)) in
      rw same (attempts_made-Counts h id)

  -- No job is attempted more often than its retries allow. In every history of the API's and the
  -- worker's methods, from an empty database or from one that the upgrade made, in any order, with
  -- any arguments and under any faults of the connections, the calls of `Claim` have given a job to
  -- a worker at most `max_retries` and one times since it was created, last replayed or upgraded,
  -- counted by the audit entries that they committed; and the job's row counts at least so many,
  -- and at most `max_retries` and one. The function that publishes to the stream is taken to leave
  -- the transaction alone.
  pub attempts_within_budget :
      (d : Db) (id : String) (j : Job) (h : Reachable platform publish d)
      → find_job id d ≡ some j
      → (attempts_made platform publish h id ≤ j.attempt_count)
        × (j.attempt_count ≤ j.max_retries + 1)
        × (attempts_made platform publish h id ≤ j.max_retries + 1)
  attempts_within_budget d id j h found =
      let budget = (Reachable-IsSound platform publish leaves d h).budgeted id j found in
      let made : attempts_made platform publish h id ≤ j.attempt_count =
        rw found at (attempts_made-Counts h id) in
      (made, budget, omega (arith, made, budget))
