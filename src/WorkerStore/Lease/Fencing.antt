-- ===== src/WorkerStore/Lease/Fencing.antt =====
-- What `Finish` of worker-service/internal/db/mysql.go does to the database, under every schedule of
-- faults.
use scalequeue.Common.{
  ◌<◌, Option, ltb→lt, eq_iff, ap, find?-test, List, find?, ℕ, ◌+◌, ◌≡◌, refl, ◌⊎◌, inl, inr,
  String, Bool, true, false, none, some, [], ◌∷◌, ◌++◌, count, map_where, if◌then◌else◌, arith,
  ◌==◌, Bool-cases,
}
use scalequeue.Schema.{JobStatus, Job, Db}
use scalequeue.Schema.Tables.{same_key, find_job, insert_log, insert_outbox, seconds, rounded, done}
use scalequeue.Session.{Session}
use scalequeue.Session.Rules.{
  Ends, Ends-mono, Ends-continue, IsInside, statement-IsInside, execute-IsInside, commit-IsInside,
}
use scalequeue.WorkerStore.{is_after, is_processing, is_held}
use scalequeue.WorkerStore.Rules.{EndsDb, with_rollback-EndsDb, begin_tx-IsInside}
use scalequeue.WorkerStore.Lease.{
  update_held, owned, settle_job, null_if_empty, is_pending, intend, schedule, finish_rows, finish,
}
use scalequeue.Delivery.Transactions.{read_lem}

-- The row is the caller's at `now`: its generation is PROCESSING under the caller's lease, which has
-- not run out.
abbrev pub BelongsTo : Job → ℕ → Job → Type 0
BelongsTo j now row =
    (row.id ≡ j.id)
    × (row.generation ≡ j.generation)
    × (row.status ≡ JobStatus.processing)
    × (row.lease_owner ≡ j.lease_owner)
    × ((until : ℕ) × (row.lease_until ≡ some until) × (now < until))

is_processing_lem :
    (status : JobStatus) → is_processing status ≡ true → status ≡ JobStatus.processing
is_processing_lem status h = ground arith

same_key_lem : (a b : Option String) → same_key a b ≡ true → a ≡ b
same_key_lem none b h = cc
same_key_lem (some a) none h = cc
same_key_lem (some a) (some b) h = ap some ((eq_iff a b).0 h)

is_after_lem :
    (o : Option ℕ) (now : ℕ)
    → is_after o now ≡ true
    → (until : ℕ) × (o ≡ some until) × (now < until)
is_after_lem none now h = cc
is_after_lem (some t) now h = (t, refl, ltb→lt now t h)

is_held-BelongsTo : (j : Job) (now : ℕ) (row : Job) → is_held j now row ≡ true → BelongsTo j now row
is_held-BelongsTo j now row h = (
  (eq_iff row.id j.id).0 (ground arith),
  ground arith,
  is_processing_lem row.status (ground arith),
  same_key_lem row.lease_owner j.lease_owner (ground arith),
  is_after_lem row.lease_until now (ground arith),
)

find?-of-count :
    (p : Job → Bool) (xs : List Job) → count p xs ≡ 1 → (x : Job) × (find? p xs ≡ some x)
find?-of-count p [] h = cc
find?-of-count p (x ∷ xs) h = elim (Bool-cases (p x)) [
  | inl e ↦ (x, rw e refl)
  | inr e ↦ rw e (find?-of-count p xs (ground arith))
]

found-BelongsTo :
    (j : Job) (now : ℕ) (xs : List Job)
    → count (is_held j now) xs ≡ 1
    → (row : Job) × (find? (is_held j now) xs ≡ some row) × BelongsTo j now row
found-BelongsTo j now xs h =
    let (row, found) = find?-of-count (is_held j now) xs h in
    (row, found, is_held-BelongsTo j now row (find?-test (is_held j now) xs row found))

module _ (j : Job) (status : JobStatus) (text : String) (delay : ℕ) where
  -- The database after the outcome was stored at `a`, and its audit entry written at `b`.
  abbrev pub settled : ℕ → ℕ → Db → Db
  settled a b d = record d {
    jobs =
        map_where (is_held j a)
          (λ row. record row {
            status = status;
            error_msg = null_if_empty text;
            next_attempt_at = a + delay;
            lease_owner = none;
            lease_until = none;
            processed_at = if is_pending status then none else some (rounded a);
            updated_at = rounded a;
          })
          d.jobs;
    logs =
        d.logs
        ++ record {
          id = d.next_log;
          job_id = j.id;
          from_status = some JobStatus.processing;
          to_status = status;
          message = text;
          worker_id = j.lease_owner;
          created_at = seconds b;
        }
          ∷ [];
    next_log = d.next_log + 1;
  }

  -- The intent of the row's next attempt, due when the row says, was added to the outbox.
  abbrev pub IsScheduled : Option Job → Db → Db → Type 0
  IsScheduled none w e = e ≡ w
  IsScheduled (some row) w e = e ≡ record w {
    outbox =
        w.outbox
        ++ record {
          id = w.next_outbox;
          job_id = row.id;
          generation = row.generation;
          attempt = row.attempt_count + 1;
          available_at = row.next_attempt_at;
          published_at = none;
        }
          ∷ [];
    next_outbox = w.next_outbox + 1;
  }

  intend-IsScheduled : (o : Option Job) (w e : Db) → intend o w ≡ done e → IsScheduled o w e
  unfolding insert_outbox
  intend-IsScheduled none w e h = ground arith
  intend-IsScheduled (some row) w e h = ground arith

  -- The outcome and its audit entry were stored, with a dispatch intent for the next attempt where
  -- the outcome is PENDING.
  abbrev pub HasRetry : Db → Db → Type 0
  HasRetry w e =
      ((is_pending status ≡ false) × (e ≡ w))
      ⊎ ((is_pending status ≡ true)
          × (intend (find_job j.id w) w ≡ done e)
          × IsScheduled (find_job j.id w) w e)

  -- One row was the caller's, and the outcome was stored.
  abbrev pub IsFinished : Db → Db → Type 0
  IsFinished d e =
      (a : ℕ) × (b : ℕ) × (count (is_held j a) d.jobs ≡ 1)
      × ((row : Job) × (find? (is_held j a) d.jobs ≡ some row) × BelongsTo j a row)
      × HasRetry (settled a b d) e

  owned_lem : (n : ℕ) (s : Session) → Ends (λ _ t. t ≡ s) (λ _ t. (n ≡ 1) × (t ≡ s)) (owned n s)
  unfolding owned
  owned_lem n s = elim (Bool-cases (n == 1)) [
    | inl e ↦ rw e (record { holds = (ground arith, refl) })
    | inr e ↦ rw e (record { holds = refl })
  ]

  schedule_lem :
      (b : Bool) {d w : Db} (s : Session)
      → is_pending status ≡ b
      → IsInside d w s
      → Ends
          (λ _ t. t.committed ≡ d)
          (λ _ t. (e : Db) × HasRetry w e × IsInside d e t)
          (schedule b j.id s)
  unfolding schedule
  schedule_lem false {w = w} s e h = record { holds = (w, inl (e, refl), h) }
  schedule_lem true {w = w} s e h =
      Ends-mono _ (λ _ t q. q.0)
        (λ _ t (now, w', made, h').
          (w', inr (e, made, intend-IsScheduled (find_job j.id w) w w' made), h'))
        (execute-IsInside (λ now d. intend (find_job j.id d) d) s h)

  written :
      (a b n : ℕ) (d w x : Db)
      → update_held j (settle_job status text delay) a d ≡ done (n, w)
      → insert_log j.id (some JobStatus.processing) status text j.lease_owner b w ≡ done x
      → (count (is_held j a) d.jobs ≡ n) × (x ≡ settled a b d)
  unfolding insert_log
  written a b n d w x p q = let (same, moved) = read_lem p in (same, ground arith)

  HasRetry-at : {w x e : Db} → w ≡ x → HasRetry w e → HasRetry x e
  HasRetry-at same h = rw (← same) h

  finish_rows_lem :
      (d : Db) (s : Session)
      → s.committed ≡ d
      → EndsDb
          (λ _ e. (e ≡ d) ⊎ IsFinished d e)
          (λ _ e. IsFinished d e)
          (finish_rows j status text delay s)
  unfolding finish_rows
  finish_rows_lem d s start =
      Ends-continue _ _ (Ends-mono _ (λ _ t q. inl q) (λ _ t q. q) (begin_tx-IsInside s start))
        λ _ s1 h1.
          Ends-continue _ _
            (Ends-mono _ (λ _ t q. inl (q.0)) (λ _ t q. q)
              (statement-IsInside (update_held j (settle_job status text delay)) s1 h1))
            λ n s2 (a, w, p, h2).
              Ends-continue _ _
                (Ends-mono _ (λ _ t q. inl (rw q (h2.0))) (λ _ t q. q) (owned_lem n s2))
                λ _ s3 (one, same).
                  Ends-continue _ _
                    (Ends-mono _ (λ _ t q. inl (q.0)) (λ _ t q. q)
                      (execute-IsInside
                        (insert_log j.id (some JobStatus.processing) status text j.lease_owner) s3
                        (rw same h2)))
                    λ _ s4 (b, x, q, h4).
                      let (held, made) = written a b n d w x p q in
                      Ends-continue _ _
                        (Ends-mono _ (λ _ t q. inl q) (λ _ t q. q)
                          (schedule_lem (is_pending status) s4 refl h4))
                        λ _ s5 (e, retry, h5).
                          let all : IsFinished d e = (
                            a,
                            b,
                            rw held one,
                            found-BelongsTo j a d.jobs (rw held one),
                            HasRetry-at made retry,
                          ) in
                          Ends-mono _
                            (λ _ t (y, _). elim y [
                              | inl old ↦ inl old
                              | inr new ↦ inr (rw new all)
                            ])
                            (λ _ t y. rw (y.0) all) (commit-IsInside s5 h5)

  -- `Finish` stores an outcome as a whole or not at all, and only for the holder of the lease,
  -- whatever fails and when. Where it returns, at some instant exactly one row had the job's id and
  -- generation, was PROCESSING under the caller's lease, and the lease had not run out; that row
  -- got the outcome and was released, and the audit entry and, for a retry, the next dispatch
  -- intent were committed with it. Where it returns an error, the same was committed or nothing
  -- was.
  pub finish_atomic :
      (s : Session)
      → EndsDb
          (λ _ e. (e ≡ s.committed) ⊎ IsFinished s.committed e)
          (λ _ e. IsFinished s.committed e)
          (finish j status text delay s)
  unfolding finish
  finish_atomic s =
      with_rollback-EndsDb (λ _ e. (e ≡ s.committed) ⊎ IsFinished s.committed e)
        (λ _ e. IsFinished s.committed e) _ (finish_rows_lem s.committed s refl)
