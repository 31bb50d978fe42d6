-- ===== src/Delivery/History.antt =====
-- The histories of the database, which begin with the migrations: the API's methods (api-service/src/services/jobService.ts) and the
-- worker's (worker-service/internal/db/mysql.go) in any order, with any arguments, each under its
-- own schedule of faults.
use scalequeue.Common.{
  ℕ, ◌≡◌, refl, String, Bool, true, Option, none, some, List, [], any, arith, ⊤, sym, ◌∙◌,
}
use scalequeue.Schema.{JobStatus, Job, Client, Db}
use scalequeue.Schema.Tables.{find_job, done}
use scalequeue.Session.{Session, Event, Action, Result, ok, err}
use scalequeue.JobService.{Platform, CreateJobInput}
use scalequeue.JobService.Create.{create_job}
use scalequeue.JobService.Requeue.{requeue_job}
use scalequeue.WorkerStore.Claim.{claim}
use scalequeue.WorkerStore.Claim.Soundness.{claim-IsSound}
use scalequeue.WorkerStore.Lease.{renew, finish}
use scalequeue.WorkerStore.Lease.Soundness.{renew-IsSound, finish-IsSound}
use scalequeue.WorkerStore.Dispatch.{dispatch}
use scalequeue.WorkerStore.Dispatch.Soundness.{LeavesTransaction, dispatch-IsSound}
use scalequeue.Migration.{OldDb, Instants, upgrade}
use scalequeue.Migration.Upgrade.{IsOld, upgrade-IsSound}
use scalequeue.Delivery.Transactions.{done_injective}
use scalequeue.Delivery.{is_open, is_intent, IsSound}
use scalequeue.Delivery.Api.{EndsSound, create_job-IsSound, requeue_job-IsSound}

-- The database after the migrations, before the first request.
abbrev pub installed : List Client → Db
installed clients = record {
  jobs = [];
  logs = [];
  outbox = [];
  clients = clients;
  next_log = 1;
  next_outbox = 1;
}

-- A pooled connection at an instant, with the events that its round trips meet.
abbrev pub connect : Db → ℕ → List Event → Session
connect d now events = record { committed = d; working = none; clock = now; events = events }

abbrev pub left_by : {A : Type 0} → Result A × Session → Db
left_by m = m.1.committed

module _ (platform : Platform) (publish : String → ℕ → Action ⊤) where
  -- The databases that a history reaches.
  pub data Reachable : Db → Type 0 where
    start : (clients : List Client) → Reachable (installed clients)
    upgraded :
        {d : Db} (at : Instants) (old : OldDb) → IsOld old → upgrade at old ≡ done d → Reachable d
    create :
        {d : Db} (now : ℕ) (events : List Event) (id : String) (input : CreateJobInput)
        (request_key : Option String)
        → Reachable d
        → Reachable (left_by (create_job platform id input request_key (connect d now events)))
    requeue :
        {d : Db} (now : ℕ) (events : List Event) (id : String)
        → Reachable d
        → Reachable (left_by (requeue_job id (connect d now events)))
    claim_job :
        {d : Db} (now : ℕ) (events : List Event) (lease : ℕ) (id : String) (generation : ℕ)
        (owner : String)
        → Reachable d
        → Reachable (left_by (claim lease id generation owner (connect d now events)))
    renew_job :
        {d : Db} (now : ℕ) (events : List Event) (lease : ℕ) (j : Job)
        → Reachable d
        → Reachable (left_by (renew lease j (connect d now events)))
    finish_job :
        {d : Db} (now : ℕ) (events : List Event) (j : Job) (status : JobStatus) (text : String)
        (delay : ℕ)
        → Reachable d
        → Reachable (left_by (finish j status text delay (connect d now events)))
    dispatch_intent :
        {d : Db} (now : ℕ) (events : List Event) (skipped : ℕ → Bool)
        → Reachable d
        → Reachable (left_by (dispatch skipped publish (connect d now events)))

pub EndsSound-left_by : {A : Type 0} (m : Result A × Session) → EndsSound m → IsSound (left_by m)
EndsSound-left_by (ok a, s) h = h.holds
EndsSound-left_by (err e, s) h = h.holds

module _ (platform : Platform) (publish : String → ℕ → Action ⊤)
    (leaves : LeavesTransaction publish) where
  pub Reachable-IsSound : (d : Db) → Reachable platform publish d → IsSound d
  Reachable-IsSound _ (start clients) = record {
    covered = λ id j found opened. cc;
    budgeted = λ id j found. cc;
    numbered = omega arith;
    keyed = λ id. omega arith;
    behind = tt;
  }
  Reachable-IsSound d (upgraded at old before made) =
      let (e, ran, sound) = upgrade-IsSound at old before in
      rw (done_injective (sym made ∙ ran)) sound
  Reachable-IsSound _ (create {d} now events id input request_key h) = EndsSound-left_by _ (
      create_job-IsSound platform id input request_key (connect d now events)
        (Reachable-IsSound d h))
  Reachable-IsSound _ (requeue {d} now events id h) =
      EndsSound-left_by _ (requeue_job-IsSound id (connect d now events) (Reachable-IsSound d h))
  Reachable-IsSound _ (claim_job {d} now events lease id generation owner h) =
      EndsSound-left_by _
        (claim-IsSound lease id generation owner (connect d now events) (Reachable-IsSound d h))
  Reachable-IsSound _ (renew_job {d} now events lease j h) =
      EndsSound-left_by _
        (renew-IsSound lease j (connect d now events) refl (Reachable-IsSound d h))
  Reachable-IsSound _ (finish_job {d} now events j status text delay h) =
      EndsSound-left_by _
        (finish-IsSound j status text delay (connect d now events) (Reachable-IsSound d h))
  Reachable-IsSound _ (dispatch_intent {d} now events skipped h) =
      EndsSound-left_by _
        (dispatch-IsSound skipped publish leaves (connect d now events) (Reachable-IsSound d h))

  -- No accepted job is forgotten. In every database that the API's and the worker's methods reach
  -- from an empty one or from one that the upgrade made, in any order, with any arguments and under
  -- any faults of the connections, a job that is neither COMPLETED nor DEAD has a row in the outbox
  -- for its current generation. The function that publishes to the stream is taken to leave the
  -- transaction alone.
  pub open_job_has_intent :
      (d : Db) (id : String) (j : Job)
      → Reachable platform publish d
      → find_job id d ≡ some j
      → is_open j.status ≡ true
      → any (is_intent id j.generation) d.outbox ≡ true
  open_job_has_intent d id j h found opened = (Reachable-IsSound d h).covered id j found opened
