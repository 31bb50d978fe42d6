-- ===== src/JobService/Create/Acceptance.antt =====
-- What `createJob` of api-service/src/services/jobService.ts does to the database, under every
-- schedule of faults.
use scalequeue.Common.{
  ℕ, ◌+◌, ◌≡◌, refl, sym, ◌⊎◌, inl, inr, String, Bool, true, false, Option, none, some, [], ◌∷◌,
  ◌++◌, any, find?, arith, Bool-cases, eq_iff,
}
use scalequeue.Schema.{JobStatus, Job, Db}
use scalequeue.Schema.Tables.{
  other, done, seconds, has_id, has_key, find_job, insert_job, insert_log, insert_outbox,
}
use scalequeue.Session.{Error, sql, message, Session, Result}
use scalequeue.Session.Rules.{
  Ends, Ends-mono, Ends-recover, Ends-releasing, Ends-continue, IsInside, IsOutside,
  execute-IsInside, query-IsOutside, get_connection_lem, begin-IsInside, commit-IsInside,
  rollback_lem,
}
use scalequeue.JobService.{CreateJobInput, Platform, or_throw, IsNoConflict, not_fetched, differs}
use scalequeue.JobService.Create.{
  key_hash, request_hash, new_job, insert_all, accept, resolve, is_duplicate, after_rollback,
  explain, create_with, create_job,
}

module _ (id : String) (input : CreateJobInput) (key_hash request_hash : Option String) where
  -- The database with one more job, its audit entry and its dispatch intent, written at the
  -- instants `a`, `b` and `c`.
  abbrev pub accepted : ℕ → ℕ → ℕ → Db → Db
  accepted a b c d = record d {
    jobs = d.jobs ++ new_job id input key_hash request_hash a ∷ [];
    logs =
        d.logs
        ++ record {
          id = d.next_log;
          job_id = id;
          from_status = none;
          to_status = JobStatus.pending;
          message = "Job created";
          worker_id = none;
          created_at = seconds b;
        }
          ∷ [];
    next_log = d.next_log + 1;
    outbox =
        d.outbox
        ++ record {
          id = d.next_outbox;
          job_id = id;
          generation = 1;
          attempt = 1;
          available_at = c;
          published_at = none;
        }
          ∷ [];
    next_outbox = d.next_outbox + 1;
  }

  -- `e` is `d` with the job accepted, whose id and key were not in use.
  abbrev pub IsAccepted : Db → Db → Type 0
  IsAccepted d e =
      (a : ℕ) × (b : ℕ) × (c : ℕ) × (e ≡ accepted a b c d)
      × (any (has_id id) d.jobs ≡ false)
      × (any (has_key key_hash) d.jobs ≡ false)

  pub insert_all_done :
      (a b c : ℕ) (d w x y : Db)
      → insert_job (new_job id input key_hash request_hash a) d ≡ done w
      → insert_log id none JobStatus.pending "Job created" none b w ≡ done x
      → insert_outbox id 1 1 c x ≡ done y
      → (y ≡ accepted a b c d)
        × (any (has_id id) d.jobs ≡ false)
        × (any (has_key key_hash) d.jobs ≡ false)
  unfolding insert_job insert_log insert_outbox
  insert_all_done a b c d w x y p q r = ground arith

  insert_all-IsInside :
      {d : Db} (s : Session)
      → IsInside d d s
      → Ends
          (λ e t. t.committed ≡ d)
          (λ _ t. (w : Db) × IsAccepted d w × IsInside d w t)
          (insert_all id input key_hash request_hash s)
  unfolding insert_all
  insert_all-IsInside {d} s h =
      Ends-continue _ _ (Ends-mono _ (λ e t q. q.0) (λ _ t q. q) (execute-IsInside _ s h))
        λ _ s1 (a, w, p, h1).
          Ends-continue _ _ (Ends-mono _ (λ e t q. q.0) (λ _ t q. q) (execute-IsInside _ s1 h1))
            λ _ s2 (b, x, q, h2).
              Ends-mono _ (λ e t q. q.0)
                (λ _ t (c, y, r, h3).
                  let (e, f, g) = insert_all_done a b c d w x y p q r in
                  (y, (a, b, c, e, f, g), h3))
                (execute-IsInside _ s2 h2)

  -- After a failed `try`: nothing was committed, or the job was and the error is no duplicate entry.
  abbrev IsFailed : Db → Error → Session → Type 0
  IsFailed d e t =
      (t.committed ≡ d)
      ⊎ (IsAccepted d t.committed × (is_duplicate key_hash e ≡ false) × IsNoConflict e)

  not-duplicate_other : is_duplicate key_hash (sql other) ≡ false
  unfolding is_duplicate
  not-duplicate_other = ground arith

  not-duplicate_message : (m : String) → is_duplicate key_hash (message m) ≡ false
  unfolding is_duplicate
  not-duplicate_message m = ground arith

  or_throw_lem :
      (o : Option Job) {d : Db} (s : Session)
      → IsAccepted d s.committed
      → o ≡ find_job id s.committed
      → Ends
          (IsFailed d)
          (λ j t. IsAccepted d t.committed × (find_job id t.committed ≡ some j))
          (or_throw o not_fetched s)
  unfolding or_throw
  or_throw_lem none s h e = record { holds = inr (h, not-duplicate_message _, refl) }
  or_throw_lem (some j) s h e = record { holds = (h, sym e) }

  accept_lem :
      (d : Db) (s : Session)
      → s.committed ≡ d
      → Ends
          (IsFailed d)
          (λ j t. IsAccepted d t.committed × (find_job id t.committed ≡ some j))
          (accept id input key_hash request_hash s)
  unfolding accept
  accept_lem d s h =
      Ends-continue _ _ (Ends-mono _ (λ e t q. inl (q.0)) (λ _ t q. q) (begin-IsInside s h))
        λ _ s1 h1.
          Ends-continue _ _ (Ends-mono _ (λ e t q. inl q) (λ _ t q. q) (insert_all-IsInside s1 h1))
            λ _ s2 (w, acc, h2).
              Ends-continue _ _
                (Ends-mono _
                  (λ e t (q, x). elim q [
                    | inl same ↦ inl same
                    | inr new ↦ inr (rw new acc, rw x not-duplicate_other, rw x)
                  ])
                  (λ _ t q. q) (commit-IsInside s2 h2))
                λ _ s3 h3.
                  Ends-continue _ _
                    (Ends-mono _ (λ e t ((q, _), x). inr (rw q acc, rw x not-duplicate_other, rw x))
                      (λ _ t q. q) (query-IsOutside (find_job id) s3 h3))
                    λ found s4 (eq, (same, _)). or_throw_lem found s4 (rw same acc) (rw same eq)

  -- The row that a duplicate request is answered with: it has the request's key and hash.
  abbrev pub IsSameRequest : Db → Job → Type 0
  IsSameRequest d j = (find? (has_key key_hash) d.jobs ≡ some j) × (j.request_hash ≡ request_hash)

  not-differs : (a b : Option String) → differs a b ≡ false → a ≡ b
  not-differs none none h = refl
  not-differs none (some b) h = cc
  not-differs (some a) none h = cc
  not-differs (some a) (some b) h = ground (arith, eq_iff a b)

  resolve_lem :
      (o : Option Job) {d : Db} (e : Error) (s : Session)
      → IsOutside d s
      → o ≡ find? (has_key key_hash) d.jobs
      → Ends
          (λ _ t. t.committed ≡ d)
          (λ j t. IsSameRequest d j × (t.committed ≡ d))
          (resolve o request_hash e s)
  unfolding resolve
  resolve_lem none e s h eq = record { holds = h.0 }
  resolve_lem (some j) e s h eq = elim (Bool-cases (differs j.request_hash request_hash)) [
    | inl x ↦ rw x (record { holds = h.0 })
    | inr x ↦ rw x (record { holds = ((sym eq, not-differs _ _ x), h.0) })
  ]

  after_rollback_lem :
      (b : Bool) {d : Db} (e : Error) (s : Session)
      → IsOutside d s
      → Ends
          (λ _ t. t.committed ≡ d)
          (λ j t. IsSameRequest d j × (t.committed ≡ d))
          (after_rollback b key_hash request_hash e s)
  unfolding after_rollback
  after_rollback_lem false e s h = record { holds = h.0 }
  after_rollback_lem true e s h =
      Ends-continue _ _ (Ends-mono _ (λ e t ((q, _), _). q) (λ _ t q. q) (query-IsOutside _ s h))
        λ rows s1 (eq, h1). resolve_lem rows e s1 h1 eq

  -- How `createJob` may end, from the database `d`.
  abbrev pub Outcome : Db → Result Job × Session → Type 0
  Outcome d =
      Ends (λ e t. (t.committed ≡ d) ⊎ (IsAccepted d t.committed × IsNoConflict e))
        (λ j t.
          (IsAccepted d t.committed × (find_job id t.committed ≡ some j))
          ⊎ (IsSameRequest d j × (t.committed ≡ d)))

  thrown :
      {d : Db} (e : Error) (s : Session)
      → IsAccepted d s.committed
      → IsNoConflict e
      → Outcome d (after_rollback false key_hash request_hash e s)
  unfolding after_rollback
  thrown e s h k = record { holds = inr (h, k) }

  explain_lem :
      (d : Db) (e : Error) (s : Session)
      → IsFailed d e s
      → Outcome d (explain key_hash request_hash e s)
  unfolding explain
  explain_lem d e s (inl same) =
      Ends-continue _ _ (Ends-mono _ (λ e t ((q, _), _). inl q) (λ _ t q. q) (rollback_lem s same))
        λ _ s1 h1. Ends-mono _ (λ _ t q. inl q) (λ j t q. inr q) (after_rollback_lem _ e s1 h1)
  explain_lem d e s (inr (acc, no_dup, clear)) =
      Ends-continue _ _
        (Ends-mono _ (λ e t ((q, _), x). inr (rw q acc, rw x)) (λ _ t q. q) (rollback_lem s refl))
        λ _ s1 h1. rw no_dup (thrown e s1 (rw (h1.0) acc) clear)

  create_with_lem :
      (s : Session) → Outcome s.committed (create_with id input key_hash request_hash s)
  unfolding create_with
  create_with_lem s =
      Ends-continue _ _ (Ends-mono _ (λ e t q. inl (q.0)) (λ _ t q. q) (get_connection_lem s refl))
        λ _ s1 h1.
          Ends-releasing _
            (Ends-recover _ _
              (Ends-mono _ (λ e t q. q) (λ j t q. inl q) (accept_lem s.committed s1 h1))
              (explain_lem s.committed))
            (λ e t q. q) (λ j t q. q)

module _ (platform : Platform) where
  -- `createJob` accepts the job as a whole or not at all, whatever fails and when. Where it returns
  -- a job, either the job's row, its audit entry and its first dispatch intent were committed
  -- together, under an id and a key that were not in use, and the row is returned; or nothing
  -- changed and the row with the same key and the same request hash is returned. Where it throws,
  -- nothing changed, or all three rows were committed and the error is no IDEMPOTENCY_CONFLICT.
  pub create_job_atomic :
      (id : String) (input : CreateJobInput) (request_key : Option String) (s : Session)
      → Outcome id input
          (key_hash platform request_key)
          (request_hash platform input request_key)
          s.committed
          (create_job platform id input request_key s)
  unfolding create_job
  create_job_atomic id input request_key s = create_with_lem id input _ _ s
