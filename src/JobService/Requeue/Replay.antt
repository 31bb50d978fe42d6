-- ===== src/JobService/Requeue/Replay.antt =====
-- What `requeueJob` of api-service/src/services/jobService.ts does to the database, under every
-- schedule of faults.
use scalequeue.Common.{
  ℕ, ◌+◌, ◌≡◌, refl, sym, ◌⊎◌, inl, inr, String, Bool, true, false, Option, none, some, [], ◌∷◌,
  ◌++◌, map_where, arith,
}
use scalequeue.Schema.{JobStatus, Job, Db}
use scalequeue.Schema.Tables.{
  SqlCode, other, done, seconds, has_id, find_job, insert_log, insert_outbox, update_job,
}
use scalequeue.Session.{Error, sql, Session, ◌>>=◌, continue}
use scalequeue.Session.Rules.{
  Ends, Ends-mono, Ends-recover, Ends-releasing, Ends-continue, IsInside, execute_sql,
  query-IsOutside, query-IsInside, get_connection_lem, begin-IsInside, commit-IsInside,
  rollback_lem,
}
use scalequeue.JobService.{
  or_throw, job_not_found, not_requeueable, update_not_fetched, IsNoRefusal,
}
use scalequeue.JobService.Requeue.{
  reset_job, is_replayable, reset_all, replay_locked, replay, undo, requeue_job,
}

-- DEAD or FAILED
abbrev pub IsSettled : JobStatus → Type 0
IsSettled status = (status ≡ JobStatus.dead) ⊎ (status ≡ JobStatus.failed)

is_replayable-IsSettled : (status : JobStatus) → is_replayable status ≡ true → IsSettled status
is_replayable-IsSettled JobStatus.pending h = ground arith
is_replayable-IsSettled JobStatus.processing h = ground arith
is_replayable-IsSettled JobStatus.completed h = ground arith
is_replayable-IsSettled JobStatus.failed h = inr refl
is_replayable-IsSettled JobStatus.dead h = inl refl

not-is_replayable-IsSettled :
    (status : JobStatus) → is_replayable status ≡ false → ¬ IsSettled status
not-is_replayable-IsSettled status h (inl e) = ground arith
not-is_replayable-IsSettled status h (inr e) = ground arith

module _ (id : String) where
  -- The database in which the job `j` was reset at `a`, its audit entry written at `b`, and the
  -- first dispatch intent of its next generation at `c`.
  abbrev pub replayed : Job → ℕ → ℕ → ℕ → Db → Db
  replayed j a b c d = record d {
    jobs =
        map_where (has_id id)
          (λ k. record k {
            status = JobStatus.pending;
            retry_count = 0;
            attempt_count = 0;
            generation = k.generation + 1;
            next_attempt_at = a;
            lease_owner = none;
            lease_until = none;
            error_msg = none;
            processed_at = none;
            updated_at = seconds a;
          })
          d.jobs;
    logs =
        d.logs
        ++ record {
          id = d.next_log;
          job_id = id;
          from_status = some j.status;
          to_status = JobStatus.pending;
          message = "Manually requeued via API";
          worker_id = none;
          created_at = seconds b;
        }
          ∷ [];
    next_log = d.next_log + 1;
    outbox =
        d.outbox
        ++ record {
          id = d.next_outbox;
          job_id = id;
          generation = j.generation + 1;
          attempt = 1;
          available_at = c;
          published_at = none;
        }
          ∷ [];
    next_outbox = d.next_outbox + 1;
  }

  -- `e` is `d` with the replayable job of this id replayed.
  abbrev pub IsReplayed : Db → Db → Type 0
  IsReplayed d e =
      (j : Job) × (a : ℕ) × (b : ℕ) × (c : ℕ) × (find_job id d ≡ some j)
      × IsSettled j.status
      × (e ≡ replayed j a b c d)

  -- Why a replay was refused: the database failed, the job is unknown, or it is not replayable.
  abbrev pub IsReason : Db → Error → Type 0
  IsReason d e =
      ((c : SqlCode) × (e ≡ sql c))
      ⊎ (((e ≡ job_not_found) × (find_job id d ≡ none))
          ⊎ ((e ≡ not_requeueable)
              × ((j : Job) × (find_job id d ≡ some j) × (¬ IsSettled j.status))))

  reset_all_done :
      (j : Job) (a b c : ℕ) (d w x y : Db)
      → done (update_job id (reset_job a) d) ≡ done w
      → insert_log id (some j.status) JobStatus.pending "Manually requeued via API" none b w
        ≡ done x
      → insert_outbox id (j.generation + 1) 1 c x ≡ done y
      → y ≡ replayed j a b c d
  unfolding update_job insert_log insert_outbox
  reset_all_done j a b c d w x y p q r = ground arith

  reset_all-IsInside :
      (j : Job) {d : Db} (s : Session)
      → IsInside d d s
      → Ends
          (λ e t. (t.committed ≡ d) × ((c : SqlCode) × (e ≡ sql c)))
          (λ _ t.
            (w : Db) × ((a : ℕ) × (b : ℕ) × (c : ℕ) × (w ≡ replayed j a b c d)) × IsInside d w t)
          (reset_all j id s)
  unfolding reset_all
  reset_all-IsInside j {d} s h =
      Ends-continue _ _ (execute_sql (λ now d. done (update_job id (reset_job now) d)) s h)
        λ _ s1 (a, w, p, h1). Ends-continue _ _ (execute_sql _ s1 h1) λ _ s2 (b, x, q, h2).
          Ends-mono _ (λ e t q. q)
            (λ _ t (c, y, r, h3). (y, (a, b, c, reset_all_done j a b c d w x y p q r), h3))
            (execute_sql (λ now. insert_outbox id (j.generation + 1) 1 now) s2 h2)

  -- After a failed `try`: nothing was committed and the error says why, or the replay was committed.
  abbrev pub IsFailed : Db → Error → Session → Type 0
  IsFailed d e t = ((t.committed ≡ d) × IsReason d e) ⊎ (IsReplayed d t.committed × IsNoRefusal e)

  abbrev pub IsDone : Db → Job → Session → Type 0
  IsDone d j t = IsReplayed d t.committed × (find_job id t.committed ≡ some j)

  return_updated :
      (o : Option Job) {d : Db} (s : Session)
      → IsReplayed d s.committed
      → o ≡ find_job id s.committed
      → Ends (IsFailed d) (IsDone d) (or_throw o update_not_fetched s)
  unfolding or_throw
  return_updated none s h e = record { holds = inr (h, (refl, refl)) }
  return_updated (some j) s h e = record { holds = (h, sym e) }

  replay_locked_lem :
      (b : Bool) (j : Job) {d : Db} (s : Session)
      → find_job id d ≡ some j
      → is_replayable j.status ≡ b
      → IsInside d d s
      → Ends (IsFailed d) (IsDone d) (replay_locked b j id s)
  unfolding replay_locked
  replay_locked_lem false j s fd fixed h = record {
    holds = inl (h.0, inr (inr (refl, (j, fd, not-is_replayable-IsSettled _ fixed))));
  }
  replay_locked_lem true j {d} s fd free h =
      Ends-continue _ _
        (Ends-mono _ (λ e t (q, x). inl (q, inl x)) (λ _ t q. q) (reset_all-IsInside j s h))
        λ _ s1 (w, (a, b, c, eq), h1).
          let new : IsReplayed d w = (j, a, b, c, fd, is_replayable-IsSettled _ free, eq) in
          Ends-continue _ _
            (Ends-mono _
              (λ e t (q, x). elim q [
                | inl same ↦ inl (same, inl (other, x))
                | inr y ↦ inr (rw y new, rw x (refl, refl))
              ])
              (λ _ t q. q) (commit-IsInside s1 h1))
            λ _ s2 h2.
              Ends-continue _ _
                (Ends-mono _ (λ e t ((q, _), x). inr (rw q new, rw x (refl, refl))) (λ _ t q. q)
                  (query-IsOutside (find_job id) s2 h2))
                λ found s3 (eq, (same, _)). return_updated found s3 (rw same new) (rw same eq)

  replay_found :
      (o : Option Job) {d : Db} (s : Session)
      → o ≡ find_job id d
      → IsInside d d s
      → Ends
          (IsFailed d)
          (IsDone d)
          ((or_throw o job_not_found >>= λ job. replay_locked (is_replayable job.status) job id) s)
  unfolding or_throw continue
  replay_found none s e h = record { holds = inl (h.0, inr (inl (refl, sym e))) }
  replay_found (some j) s e h = replay_locked_lem (is_replayable j.status) j s (sym e) refl h

  replay_lem : (d : Db) (s : Session) → s.committed ≡ d → Ends (IsFailed d) (IsDone d) (replay id s)
  unfolding replay
  replay_lem d s h =
      Ends-continue _ _
        (Ends-mono _ (λ e t (q, x). inl (q, inl (other, x))) (λ _ t q. q) (begin-IsInside s h))
        λ _ s1 h1.
          Ends-continue _ _
            (Ends-mono _ (λ e t (q, x). inl (q, inl x)) (λ _ t q. q)
              (query-IsInside (find_job id) s1 h1))
            λ found s2 (eq, h2). replay_found found s2 eq h2

  undo_lem :
      (d : Db) (e : Error) (s : Session) → IsFailed d e s → Ends (IsFailed d) (IsDone d) (undo e s)
  unfolding undo
  undo_lem d e s (inl (same, why)) =
      Ends-continue _ _
        (Ends-mono _ (λ e t ((q, _), x). inl (q, inl (other, x))) (λ _ t q. q)
          (rollback_lem s same))
        λ _ t h. record { holds = inl (h.0, why) }
  undo_lem d e s (inr (new, clear)) =
      Ends-continue _ _
        (Ends-mono _ (λ e t ((q, _), x). inr (rw q new, rw x (refl, refl))) (λ _ t q. q)
          (rollback_lem s refl))
        λ _ t h. record { holds = inr (rw (h.0) new, clear) }

  -- `requeueJob` replays the job as a whole or not at all, whatever fails and when. Where it
  -- returns a row, the job was replayable, its reset, its audit entry and the first dispatch intent
  -- of its next generation were committed together, and the row is the committed one. Where it
  -- throws, the same was committed and the error is neither of the two below, or nothing was and
  -- the database failed, the job is unknown (JOB_NOT_FOUND), or its status is neither DEAD nor
  -- FAILED (JOB_NOT_REQUEUEABLE).
  pub requeue_job_atomic :
      (s : Session) → Ends (IsFailed s.committed) (IsDone s.committed) (requeue_job id s)
  unfolding requeue_job
  requeue_job_atomic s =
      Ends-continue _ _
        (Ends-mono _ (λ e t (q, x). inl (q, inl (other, x))) (λ _ t q. q)
          (get_connection_lem s refl))
        λ _ s1 h1.
          Ends-releasing _ (Ends-recover _ _ (replay_lem s.committed s1 h1) (undo_lem s.committed))
            (λ e t q. q) (λ j t q. q)
