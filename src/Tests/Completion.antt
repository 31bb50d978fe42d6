-- ===== src/Tests/Completion.antt =====
-- The theorem on deliveries that are carried out, at concrete inputs.
use scalequeue.Common.{◌≡◌, refl, inl, some, none, [], ◌∷◌, arith}
use scalequeue.Schema.{JobStatus, Job}
use scalequeue.Session.{Event, Session, calm}
use scalequeue.Session.Timely.{IsTimely}
use scalequeue.Delivery.History.{connect, start, create}
use scalequeue.JobService.Create.{new_job, create_job}
use scalequeue.WorkerStore.Claim.{claimed}
use scalequeue.Consumer.Progress.{IsWaiting, waiting_job_completes}
use scalequeue.WorkerStore.Lease.Completion.{IsCompleted}
use scalequeue.Worker.{Verdict, verdict}
use scalequeue.Worker.Completion.{IsBystander}
use scalequeue.Backoff.{exponential_delay}
use scalequeue.Consumer.{published, handle}
use scalequeue.Consumer.Completion.{IsDone}
use scalequeue.Tests.Data.{demo, session_runs, input}
use scalequeue.Tests.Worker.{
  publish_nothing, nothing-LeavesTransaction, after_create, alone, timeout,
}

abbrev waiting_row : Job
waiting_row = new_job "a" input none none 1000000

-- Each of the first three round trips takes a second.
abbrev pub slow : Event
slow = record { delay = 1000000; fault = calm }

abbrev pub slow_session : Session
slow_session = connect after_create 2000000 (slow ∷ slow ∷ slow ∷ [])

-- The failure of the first attempt is to be tried again after the shortest of its delays.
abbrev again : Verdict
again = record { status = JobStatus.pending; text = "timeout"; delay = 2000000 }

waiting_row-IsWaiting : IsWaiting waiting_row 2000000
waiting_row-IsWaiting = record {
  unsettled = refl;
  idle = inl refl;
  due = omega arith;
  left = omega arith;
}

aside : IsBystander "a" (λ d. d)
aside = record {
  same_row = λ d. refl;
  same_count = λ d. refl;
  no_intent = λ d generation attempt h. h;
}

judged :
    verdict alone.random (claimed "w" waiting_row) (timeout (claimed "w" waiting_row)) ≡ some again
unfolding verdict exponential_delay
judged = refl

pub slow-IsTimely : IsTimely 2000000 5000000 slow_session
slow-IsTimely = record {
  faultless = (refl, (refl, (refl, tt)));
  since = omega arith;
  until = omega arith;
}

waiting_job_completes_example :
    IsDone
      (λ e.
        IsCompleted (claimed "w" waiting_row) JobStatus.pending "timeout" 2000000 2000000 5000000 e)
      (handle timeout alone 30000000 "w" (published "a" 1) slow_session)
unfolding create_job session_runs
waiting_job_completes_example =
    waiting_job_completes demo publish_nothing nothing-LeavesTransaction timeout alone 30000000 "w"
      2000000 5000000 "a" waiting_row again slow_session
      (create 1000000 [] "a" input none (start [])) refl refl waiting_row-IsWaiting slow-IsTimely
      (omega arith) (λ n. aside) refl judged (λ e. cc) (omega arith) (omega arith)
