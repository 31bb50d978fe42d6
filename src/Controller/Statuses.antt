-- ===== src/Controller/Statuses.antt =====
-- What the status of a response of api-service/src/controllers/jobController.ts says of the
-- database.
use scalequeue.Common.{◌≡◌, refl, ◌⊎◌, inl, inr, String, Option, none, some, Bool-cases}
use scalequeue.Schema.{Job, Db}
use scalequeue.Schema.Tables.{find_job}
use scalequeue.Session.{Session, Error, Result, ok, err}
use scalequeue.Session.Rules.{Ends}
use scalequeue.JobService.{Platform, CreateJobInput, has_message, IsNoConflict}
use scalequeue.JobService.Create.{key_hash, request_hash}
use scalequeue.JobService.Create.Acceptance.{IsAccepted, IsSameRequest, Outcome, create_job_atomic}
use scalequeue.JobService.Requeue.Replay.{IsReplayed, IsFailed, IsDone, requeue_job_atomic}
use scalequeue.Http.{Request, Response, Body, reply, respond}
use scalequeue.Validator.{Validator, valid}
use scalequeue.Controller.{
  create_error, requeue_error, bad_key, bad_id, scoped_key, create_parsed, create_job_handler,
  requeue_job_handler,
}

-- How POST /:id/requeue ends, from the database `d`.
pub data ReplayResponse (id : String) (d : Db) (r : Response × Session) : Type 0 where
  replayed :
      (j : Job)
      → r.0 ≡ reply 200 (Body.job j)
      → IsReplayed id d r.1.committed
      → find_job id r.1.committed ≡ some j
      → ReplayResponse id d r
  unknown : r.0.status ≡ 404 → find_job id d ≡ none → r.1.committed ≡ d → ReplayResponse id d r
  bad_request : r.0.status ≡ 400 → r.1.committed ≡ d → ReplayResponse id d r
  failed :
      r.0.status ≡ 500 → (r.1.committed ≡ d) ⊎ IsReplayed id d r.1.committed → ReplayResponse id d r

requeue_error_lem :
    (id : String) (d : Db) (e : Error) (t : Session)
    → IsFailed id d e t
    → ReplayResponse id d (requeue_error e, t)
unfolding requeue_error
requeue_error_lem id d e t (inl (same, inl (c, x))) = rw x (failed refl (inl same))
requeue_error_lem id d e t (inl (same, inr (inl (x, gone)))) = rw x (unknown refl gone same)
requeue_error_lem id d e t (inl (same, inr (inr (x, _)))) = rw x (bad_request refl same)
requeue_error_lem id d e t (inr (new, (a, b))) = rw (a, b) (failed refl (inr new))

requeue_respond :
    (id : String) (d : Db) (m : Result Job × Session)
    → Ends (IsFailed id d) (IsDone id d) m
    → ReplayResponse id d (respond m (λ j. reply 200 (Body.job j)) requeue_error)
unfolding respond
requeue_respond id d (ok j, t) h = replayed j refl (h.holds.0) (h.holds.1)
requeue_respond id d (err e, t) h = requeue_error_lem id d e t h.holds

-- The response to a replay tells what was done, whatever fails: 200 with the committed row where
-- the job was replayed; 404 only where the job is unknown, and 400, both with nothing changed; 500
-- where nothing changed or the replay was committed.
pub requeue_job_handler_lem :
    (req : Request) (s : Session) → ReplayResponse req.id s.committed (requeue_job_handler req s)
unfolding requeue_job_handler
requeue_job_handler_lem req s = elim (Bool-cases (bad_id req.id)) [
  | inl bad ↦ rw bad (bad_request refl refl)
  | inr fine ↦ rw fine (requeue_respond req.id s.committed _ (requeue_job_atomic req.id s))
]

module _ (platform : Platform) where
  -- How POST / ends for a valid input, from the database `d`.
  pub data CreateResponse (id : String) (input : CreateJobInput) (key : Option String) (d : Db)
      (r : Response × Session) : Type 0 where
    accepted :
        (j : Job)
        → r.0 ≡ reply 202 (Body.job j)
        → IsAccepted id input
            (key_hash platform key)
            (request_hash platform input key)
            d
            r.1.committed
        → find_job id r.1.committed ≡ some j
        → CreateResponse id input key d r
    repeated :
        (j : Job)
        → r.0 ≡ reply 202 (Body.job j)
        → IsSameRequest id input (key_hash platform key) (request_hash platform input key) d j
        → r.1.committed ≡ d
        → CreateResponse id input key d r
    refused :
        (r.0.status ≡ 400) ⊎ (r.0.status ≡ 409)
        → r.1.committed ≡ d
        → CreateResponse id input key d r
    failed :
        r.0.status ≡ 500
        → (r.1.committed ≡ d)
          ⊎ IsAccepted id input
              (key_hash platform key)
              (request_hash platform input key)
              d
              r.1.committed
        → CreateResponse id input key d r

  module _ (id : String) (input : CreateJobInput) (key : Option String) where
    create_error_lem :
        (d : Db) (e : Error) (t : Session)
        → (t.committed ≡ d)
          ⊎ (IsAccepted id input
                (key_hash platform key)
                (request_hash platform input key)
                d
                t.committed
              × IsNoConflict e)
        → CreateResponse id input key d (create_error e, t)
    unfolding create_error
    create_error_lem d e t (inl same) = elim (Bool-cases (has_message e "IDEMPOTENCY_CONFLICT")) [
      | inl c ↦ rw c (refused (inr refl) same)
      | inr c ↦ rw c (failed refl (inl same))
    ]
    create_error_lem d e t (inr (new, c)) = rw c (failed refl (inr new))

    create_respond :
        (d : Db) (m : Result Job × Session)
        → Outcome id input (key_hash platform key) (request_hash platform input key) d m
        → CreateResponse id input key d (respond m (λ j. reply 202 (Body.job j)) create_error)
    unfolding respond
    create_respond d (ok j, t) h = elim (h.holds) [
      | inl (new, found) ↦ accepted j refl new found
      | inr (old, same) ↦ repeated j refl old same
    ]
    create_respond d (err e, t) h = create_error_lem d e t h.holds

  accepts :
      (id : String) (req : Request) (input : CreateJobInput) (s : Session)
      → CreateResponse id input
          (scoped_key req.client_id req.idempotency_key)
          s.committed
          (create_parsed platform id req (valid input) s)
  unfolding create_parsed
  accepts id req input s = elim (Bool-cases (bad_key req.idempotency_key)) [
    | inl bad ↦ rw bad (refused (inl refl) refl)
    | inr fine ↦ rw fine (
        create_respond id input _ s.committed _
          (create_job_atomic platform id input (scoped_key req.client_id req.idempotency_key) s))
  ]

  -- The response to a valid request tells what was done, whatever fails: 202 with the row only
  -- where the job, its audit entry and its dispatch intent are committed, or the same request had
  -- been accepted before and nothing changed; 400 and 409 only with nothing changed; 500 where
  -- nothing changed or the job was accepted as a whole.
  pub create_job_handler_lem :
      (validator : Validator) (id : String) (req : Request) (input : CreateJobInput) (s : Session)
      → validator.parse req.body ≡ valid input
      → CreateResponse id input
          (scoped_key req.client_id req.idempotency_key)
          s.committed
          (create_job_handler platform validator id req s)
  unfolding create_job_handler
  create_job_handler_lem validator id req input s parsed = rw parsed (accepts id req input s)
