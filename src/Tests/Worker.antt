-- ===== src/Tests/Worker.antt =====
-- The worker's theorems at concrete inputs.
use scalequeue.Backoff.{pos, exponential_delay, LiesWithin, ideal_cap, exponential_delay_bounded}
use scalequeue.Common.{
  suc, zero, ◌∷◌, false, ◌-◌, arith, ◌≤◌, ◌+◌, ◌⊎◌, ℕ, ◌≡◌, refl, String, true, some, none, any, [],
  ⊤,
}
use scalequeue.Schema.{JobStatus, Job, Db}
use scalequeue.Schema.Tables.{update_job}
use scalequeue.Session.{Action, pure}
use scalequeue.JobService.Create.{new_job, create_job}
use scalequeue.WorkerStore.{with_rollback}
use scalequeue.WorkerStore.Claim.{claim}
use scalequeue.WorkerStore.Claim.Outcomes.{IsThrown, IsReturned, claim_atomic}
use scalequeue.WorkerStore.Lease.{finish}
use scalequeue.WorkerStore.Lease.Fencing.{IsFinished, finish_atomic}
use scalequeue.WorkerStore.Rules.{EndsDb}
use scalequeue.WorkerStore.Dispatch.Soundness.{LeavesTransaction}
use scalequeue.Delivery.{is_intent}
use scalequeue.Delivery.History.{
  installed, connect, left_by, start, create, claim_job, open_job_has_intent, Reachable,
}
use scalequeue.Delivery.Attempts.{attempts_made, attempts_within_budget}
use scalequeue.Worker.{Outcome, failed, Surroundings, Verdict, verdict, process_job}
use scalequeue.Worker.Attempt.{Returning, IsProcessed, process_job_lem}
use scalequeue.Worker.Steps.{IsAtRest}
use scalequeue.Worker.Verdicts.{IsJudged, IsDelay, verdict_lem}
use scalequeue.Consumer.{published, handle}
use scalequeue.Consumer.Loop.{Turn, start as start_loop}
use scalequeue.Consumer.Loop.Returns.{Returns, start-Returns}
use scalequeue.Consumer.Deliveries.{Handled, handle_lem}
use scalequeue.Tests.Data.{session_runs, demo, input}

abbrev pub publish_nothing : String → ℕ → Action ⊤
publish_nothing id generation = pure tt

pub nothing-LeavesTransaction : LeavesTransaction publish_nothing
nothing-LeavesTransaction = record { left = λ id generation d w s h. record { holds = h } }

-- A job that was accepted and then claimed, where the reply to the accepting commit was lost.
abbrev pub after_create : Db
after_create = left_by (create_job demo "a" input none (connect (installed []) 1000000 []))

abbrev after_claim : Db
after_claim = left_by (claim 30000000 "a" 1 "w" (connect after_create 2000000 []))

abbrev claimed_row : Job
claimed_row = record (new_job "a" input none none 1000000) {
  status = JobStatus.processing;
  attempt_count = 1;
  lease_owner = some "w";
  lease_until = some 32000000;
  updated_at = 2;
}

open_job_has_intent_example : any (is_intent "a" 1) after_claim.outbox ≡ true
unfolding create_job claim session_runs with_rollback update_job
open_job_has_intent_example =
    open_job_has_intent demo publish_nothing nothing-LeavesTransaction after_claim "a" claimed_row
      (claim_job 2000000 [] 30000000 "a" 1 "w" (create 1000000 [] "a" input none (start []))) refl
      refl

claim_atomic_example :
    EndsDb
      (IsThrown 30000000 "a" 1 "w" (connect after_create 2000000 []))
      (IsReturned 30000000 "a" 1 "w" (connect after_create 2000000 []))
      (claim 30000000 "a" 1 "w" (connect after_create 2000000 []))
claim_atomic_example = claim_atomic 30000000 "a" 1 "w" (connect after_create 2000000 [])

finish_atomic_example :
    EndsDb
      (λ _ e.
        (e ≡ after_claim)
        ⊎ IsFinished claimed_row JobStatus.pending "timeout" 1500000 after_claim e)
      (λ _ e. IsFinished claimed_row JobStatus.pending "timeout" 1500000 after_claim e)
      (finish claimed_row JobStatus.pending "timeout" 1500000 (connect after_claim 3000000 []))
finish_atomic_example =
    finish_atomic claimed_row JobStatus.pending "timeout" 1500000 (connect after_claim 3000000 [])

abbrev claim_history : Reachable demo publish_nothing after_claim
claim_history =
    claim_job 2000000 [] 30000000 "a" 1 "w" (create 1000000 [] "a" input none (start []))

attempts_within_budget_example :
    (attempts_made demo publish_nothing claim_history "a" ≤ claimed_row.attempt_count)
    × (claimed_row.attempt_count ≤ claimed_row.max_retries + 1)
    × (attempts_made demo publish_nothing claim_history "a" ≤ claimed_row.max_retries + 1)
unfolding create_job claim session_runs with_rollback update_job
attempts_within_budget_example =
    attempts_within_budget demo publish_nothing nothing-LeavesTransaction after_claim "a"
      claimed_row claim_history refl

-- The largest number that `rand.Int64N` may return.
abbrev greatest : ℕ → ℕ
greatest n = n - 1

exponential_delay_bounded_example :
    LiesWithin (ideal_cap (pos 3)) (exponential_delay greatest (pos 3))
exponential_delay_bounded_example =
    exponential_delay_bounded greatest (pos 3) λ n positive. omega arith

-- From the ninth attempt on the delay is at most five minutes.
ninth_delay : exponential_delay greatest (pos 9) ≡ some (pos 300000000000)
unfolding exponential_delay
ninth_delay = refl

-- One run with one renewal, beside which nothing else happens.
abbrev pub alone : Surroundings
alone = record { others = λ n d. d; beats = 1; ctx_error = none; random = greatest }

abbrev pub timeout : Job → Outcome
timeout j = failed "timeout" false

process_job_lem_example :
    Returning
      (λ _ e. IsProcessed timeout alone 30000000 "w" "a" 1 (connect after_create 2000000 []) e)
      (process_job timeout alone 30000000 "w" "a" 1 (connect after_create 2000000 []))
process_job_lem_example =
    process_job_lem timeout alone 30000000 "w" "a" 1 (connect after_create 2000000 [])

pub after_create-IsAtRest : IsAtRest demo publish_nothing (connect after_create 2000000 [])
after_create-IsAtRest = (refl, create 1000000 [] "a" input none (start []))

verdict_lem_example :
    (v : Verdict) × (verdict greatest claimed_row (failed "timeout" false) ≡ some v)
    × (v.text ≡ "timeout")
    × IsJudged claimed_row false v.status
    × IsDelay claimed_row v.delay
verdict_lem_example = verdict_lem greatest claimed_row "timeout" false λ n positive. omega arith

handle_lem_example :
    Handled timeout alone 30000000 "w"
      (published "a" 1)
      (connect after_create 2000000 [])
      (handle timeout alone 30000000 "w" (published "a" 1) (connect after_create 2000000 []))
handle_lem_example =
    handle_lem timeout alone 30000000 "w" (published "a" 1) (connect after_create 2000000 [])

-- A stream with one message, and then none.
abbrev turns : ℕ → Turn
turns zero = record {
  due = true;
  claimed = some ("0-0", []);
  streamed =
      some (record { message = published "a" 1; run = timeout; around = alone; over = false } ∷ []);
}
turns (suc n) = record { due = false; claimed = none; streamed = none }

start-Returns_example :
    let s = connect after_create 2000000 [] in
    Returns 4 30000000 "w" turns s (start_loop 4 30000000 "w" 5 turns 0 "0-0" 0 s)
start-Returns_example =
    start-Returns 4 30000000 "w" turns 4 0 "0-0" 0 (connect after_create 2000000 []) (omega arith)
