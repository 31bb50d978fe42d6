-- ===== src/Worker/Attempt.antt =====
-- What an attempt of worker-service/internal/worker/worker.go leaves in the database.
use scalequeue.Common.{ℕ, ◌≡◌, refl, ◌⊎◌, inl, inr, String, Option, none, some, ⊤}
use scalequeue.Schema.{Job, Db}
use scalequeue.Session.{Session, Result, ok, err}
use scalequeue.Session.Rules.{Ends-mono, Ends-continue}
use scalequeue.WorkerStore.Rules.{EndsDb}
use scalequeue.WorkerStore.Claim.{claimed}
use scalequeue.WorkerStore.Claim.Outcomes.{IsTaken, IsReturned, claim_atomic}
use scalequeue.WorkerStore.Lease.Fencing.{IsFinished, finish_atomic}
use scalequeue.Worker.{
  Outcome, Surroundings, Verdict, verdict, heartbeat, store_verdict, conclude, attempt, process_job,
}

-- After a return; nothing is said of a throw.
abbrev pub Returning : {A : Type 0} → (A → Db → Type 0) → Result A × Session → Type 0
Returning P m = EndsDb (λ _ _. ⊤) P m

Returning-all : {A : Type 0} (m : Result A × Session) → Returning (λ _ _. ⊤) m
Returning-all (ok a, s) = record { holds = tt }
Returning-all (err e, s) = record { holds = tt }

module _ (handle : Job → Outcome) (around : Surroundings) (lease : ℕ) (owner : String) (id : String)
    (generation : ℕ) where
  -- The outcome of the handler was stored for the claimed job, as `Finish` does for the holder of the
  -- lease; `before` is the database that the renewals and the other sessions left.
  abbrev pub IsStored : Job → Db → Type 0
  IsStored j e =
      (v : Verdict) × (verdict around.random j (handle j) ≡ some v)
      × ((before : Db) × IsFinished j v.status v.text v.delay before e)

  -- From the session `s` there was nothing to be done, or the job was claimed and the outcome of its
  -- handler is stored in `e`.
  abbrev pub IsProcessed : Session → Db → Type 0
  IsProcessed s e =
      IsReturned lease id generation owner s none e
      ⊎ ((row : Job) × (taken : Db) × IsTaken lease id generation owner s row taken
          × IsStored (claimed owner row) e)

  store_verdict_lem :
      (j : Job) (o : Option Verdict) (s : Session)
      → verdict around.random j (handle j) ≡ o
      → Returning (λ _ e. IsStored j e) (store_verdict j o s)
  unfolding store_verdict
  store_verdict_lem j none s same = record { holds = tt }
  store_verdict_lem j (some v) s same =
      Ends-mono _ (λ _ _ _. tt) (λ _ t q. (v, same, (s.committed, q)))
        (finish_atomic j v.status v.text v.delay s)

  conclude_lem :
      (j : Job) (error : Option String) (s : Session)
      → Returning (λ _ e. IsStored j e) (conclude error around.random j (handle j) s)
  unfolding conclude
  conclude_lem j none s = store_verdict_lem j (verdict around.random j (handle j)) s refl
  conclude_lem j (some e) s = record { holds = tt }

  -- The next call begins with what other sessions have committed since the last.
  attempt_lem :
      (start : Session) (r : Option Job) (s : Session)
      → IsReturned lease id generation owner start r s.committed
      → Returning (λ _ e. IsProcessed start e) (attempt handle around lease owner r s)
  unfolding attempt
  attempt_lem start none s h = record { holds = inl h }
  attempt_lem start (some j) s (row, same, taken) =
      Ends-continue _ _ (Returning-all (heartbeat lease j around.others around.beats s)) λ _ t _.
        Ends-mono _ (λ _ _ _. tt) (λ _ u stored. inr (row, s.committed, taken, rw same at stored))
          (conclude_lem j around.ctx_error t)

  -- `ProcessJob` returns no error only where nothing was to be done or the outcome is stored. Where
  -- it returns none, either nothing changed, and when the claim read the row the job was unknown,
  -- of another generation, COMPLETED or DEAD, or under no lease that ran on and not yet due; or the
  -- claim gave up a job that was free with no attempt left; or it took the job, which was free, and
  -- the verdict on the handler's outcome was stored by `Finish`, for the row that the worker still
  -- held, whatever fails and whatever other sessions commit between the calls.
  pub process_job_lem :
      (s : Session)
      → Returning (λ _ e. IsProcessed s e) (process_job handle around lease owner id generation s)
  unfolding process_job
  process_job_lem s =
      Ends-continue _ _
        (Ends-mono _ (λ _ _ _. tt) (λ _ _ q. q) (claim_atomic lease id generation owner s))
        λ r t h. attempt_lem s r t h
