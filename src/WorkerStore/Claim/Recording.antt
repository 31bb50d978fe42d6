-- ===== src/WorkerStore/Claim/Recording.antt =====
-- The end of a call of `Claim` of worker-service/internal/db/mysql.go: one update of the row, its audit
-- entry and COMMIT, at their instants; and what it is to be under a lease.
use scalequeue.Common.{
  ◌∙◌, ℕ, ◌+◌, ◌<◌, ◌≡◌, refl, ◌⊎◌, inl, inr, String, true, false, ◌&&◌, Option, none, some, [],
  ◌∷◌, ◌++◌, map_where, arith,
}
use scalequeue.Schema.{JobStatus, Job, Db}
use scalequeue.Schema.Tables.{SqlCode, other, has_id, insert_log, update_job, seconds, done}
use scalequeue.Session.{Session, Error, sql, pure, execute, commit, ◌>>◌}
use scalequeue.Session.Rules.{Ends-mono, Ends-continue, IsInside, commit-IsInside}
use scalequeue.Session.Instants.{instant, IsAt, execute-IsAt}
use scalequeue.WorkerStore.{is_after, is_processing, audit}
use scalequeue.WorkerStore.Rules.{EndsDb}
use scalequeue.Delivery.Transactions.{done_injective}

-- One update of the job's row, at `a`, with its audit entry, written at `b`.
abbrev pub changed :
    String → (ℕ → Job → Job) → JobStatus → JobStatus → String → String → ℕ → ℕ → Db → Db
changed id f from to text owner a b d = record d {
  jobs = map_where (has_id id) (f a) d.jobs;
  logs =
      d.logs
      ++ record {
        id = d.next_log;
        job_id = id;
        from_status = some from;
        to_status = to;
        message = text;
        worker_id = some owner;
        created_at = seconds b;
      }
        ∷ [];
  next_log = d.next_log + 1;
}

-- The driver's error, with what the database may then be.
abbrev pub IsSql : Error → Type 0
IsSql e = (c : SqlCode) × (e ≡ sql c)

pub recorded_lem :
    (id : String) (f : ℕ → Job → Job) (from to : JobStatus) (text owner : String)
    (result : Option Job) (s : Session) {d : Db} (t : Session)
    → IsInside d d t
    → IsAt 3 s t
    → let e = changed id f from to text owner (instant 4 s) (instant 5 s) d in
      EndsDb
        (λ x u. IsSql x × ((u ≡ d) ⊎ (u ≡ e)))
        (λ r u. (r ≡ result) × (u ≡ e))
        ((do
          execute (λ now d. done (update_job id (f now) d))
          audit id from to text (some owner)
          commit
          pure result)
          t)
unfolding update_job insert_log
recorded_lem id f from to text owner result s {d} t h at =
    Ends-continue _ _
      (Ends-mono _ (λ _ u q. (q.1, inl (q.0))) (λ _ u q. q)
        (execute-IsAt (λ now d. done (update_job id (f now) d)) 3 s t h at))
      λ _ t1 ((w, p, h1), at1).
        Ends-continue _ _
          (Ends-mono _ (λ _ u q. (q.1, inl (q.0))) (λ _ u q. q)
            (execute-IsAt (insert_log id (some from) to text (some owner)) 4 s t1 h1 at1))
          λ _ t2 ((x, q, h2), _).
            let moved = done_injective p in
            let made : x ≡ changed id f from to text owner (instant 4 s) (instant 5 s) d =
              ground arith in
            Ends-continue _ _
              (Ends-mono _
                (λ _ u (y, lost).
                  ((other, lost), elim y [ inl old ↦ inl old | inr new ↦ inr (new ∙ made) ]))
                (λ _ u y. y) (commit-IsInside t2 h2))
              λ _ u y. record { holds = (refl, y.0 ∙ made) }

-- PROCESSING under a lease that runs on at `now`.
abbrev pub IsLeased : ℕ → Job → Type 0
IsLeased now row =
    (row.status ≡ JobStatus.processing)
    × ((until : ℕ) × (row.lease_until ≡ some until) × (now < until))

pub IsLeased-of :
    (now : ℕ) (row : Job)
    → (is_processing row.status && is_after row.lease_until now) ≡ true
    → IsLeased now row
IsLeased-of now row h = (ground arith, until row.lease_until (ground arith))
  where
    until : (o : Option ℕ) → is_after o now ≡ true → (until : ℕ) × (o ≡ some until) × (now < until)
    until none e = cc
    until (some t) e = (t, refl, ground arith)

pub not-IsLeased-of :
    (now : ℕ) (row : Job)
    → (is_processing row.status && is_after row.lease_until now) ≡ false
    → ¬ IsLeased now row
not-IsLeased-of now row h (running, (until, held, later)) = ground arith
