-- ===== src/Delivery/Counting.antt =====
-- The attempts at a job that a call of api-service/src/services/jobService.ts or
-- worker-service/internal/db/mysql.go begins, beside the counter of the job's row.
use scalequeue.Common.{
  ℕ, ◌+◌, ◌-◌, ◌≤◌, ◌≡◌, refl, ◌⊎◌, inl, inr, String, Bool, false, ◌&&◌, Option, none, some, List,
  [], ◌∷◌, ◌++◌, length, ltb, count, find?, map_where, if◌then◌else◌, arith, str_eq, eq_iff,
  Bool-cases, count-append, length-append, ap,
}
use scalequeue.Schema.{JobStatus, Job, AuditLog, Db}
use scalequeue.Schema.Tables.{has_id, find_job, seconds}
use scalequeue.Session.{Session, Result, ok, err}
use scalequeue.Session.Rules.{Ends-mono}
use scalequeue.JobService.{Platform, CreateJobInput}
use scalequeue.JobService.Create.{create_job, key_hash, request_hash}
use scalequeue.JobService.Create.Acceptance.{IsAccepted, create_job_atomic}
use scalequeue.JobService.Requeue.Replay.{IsReplayed}
use scalequeue.Session.Instants.{instant}
use scalequeue.WorkerStore.{is_processing}
use scalequeue.WorkerStore.Claim.{claim, bury, exhausted}
use scalequeue.WorkerStore.Claim.Recording.{changed}
use scalequeue.WorkerStore.Claim.Outcomes.{taken, IsTaken, IsBuried, IsReturned, claim_atomic}
use scalequeue.WorkerStore.Rules.{EndsDb}
use scalequeue.Delivery.Counters.{
  find?-counted, find?-other, attempts_of, KeepsCounters, KeepsCounters-refl, append-KeepsCounters,
  map_where-KeepsCounters,
}
use scalequeue.Delivery.History.{left_by}

-- An entry of the audit log by which the job is given to a worker.
abbrev pub is_start : String → AuditLog → Bool
is_start id l = str_eq l.job_id id && is_processing l.to_status

-- The entries of this kind that a call has added.
abbrev pub starts_added : String → Db → Db → ℕ
starts_added id d e = count (is_start id) e.logs - count (is_start id) d.logs

-- A call of `requeueJob` for the job `id` was committed: it has added to the audit log.
abbrev pub was_replayed : String → String → Db → Db → Bool
was_replayed replayed id d e = str_eq replayed id && ltb (length d.logs) (length e.logs)

-- What holds of the database that a call leaves, however it ends.
pub left_by-EndsDb :
    {A : Type 0} (P : Db → Type 0) (m : Result A × Session)
    → EndsDb (λ _ e. P e) (λ _ e. P e) m
    → P (left_by m)
left_by-EndsDb P (ok a, s) h = h.holds
left_by-EndsDb P (err e, s) h = h.holds

abbrev pub Counts : ℕ → String → Db → Type 0
Counts n id d = n ≤ attempts_of (find_job id d)

pub KeepsCounters-Counts :
    (n : ℕ) (id : String) (xs ys : List Job)
    → KeepsCounters xs ys
    → n ≤ attempts_of (find? (has_id id) xs)
    → n ≤ attempts_of (find? (has_id id) ys)
KeepsCounters-Counts n id xs ys kept h = omega (arith, kept id)

added_one :
    (id : String) (d : Db) (l : AuditLog)
    → count (is_start id) (d.logs ++ l ∷ []) - count (is_start id) d.logs
      ≡ (if is_start id l then 1 else 0)
added_one id d l = ground (arith, count-append (is_start id) d.logs (l ∷ []))

-- One update of the job `key` with its audit entry, which gives the job to no worker.
quiet-Counts :
    (key : String) (f : ℕ → Job → Job) (from to : JobStatus) (text owner : String) (a b n : ℕ)
    (id : String) (d : Db)
    → is_processing to ≡ false
    → ((j : Job) → (f a j).id ≡ j.id)
    → ((j : Job) → j.attempt_count ≤ (f a j).attempt_count)
    → Counts n id d
    → let e = changed key f from to text owner a b d in Counts (n + starts_added id d e) id e
quiet-Counts key f from to text owner a b n id d quiet same more h =
    let kept = map_where-KeepsCounters (has_id key) (f a) d.jobs same more id in
    let l : AuditLog = record {
      id = d.next_log;
      job_id = key;
      from_status = some from;
      to_status = to;
      message = text;
      worker_id = some owner;
      created_at = seconds b;
    } in
    ground (arith, kept, added_one id d l)

-- An update that adds one to the counter of the job `key`, with the entry that gives it to a worker.
counted-Counts :
    (key : String) (f : ℕ → Job → Job) (from : JobStatus) (text owner : String) (a b n : ℕ)
    (id : String) (d : Db) (row : Job)
    → ((j : Job) → (f a j).id ≡ j.id)
    → ((j : Job) → (f a j).attempt_count ≡ j.attempt_count + 1)
    → find_job key d ≡ some row
    → Counts n id d
    → let e = changed key f from JobStatus.processing text owner a b d in
      Counts (n + starts_added id d e) id e
counted-Counts key f from text owner a b n id d row same more found h =
    let kept =
      map_where-KeepsCounters (has_id key) (f a) d.jobs same (λ j. omega (arith, more j)) id in
    let l : AuditLog = record {
      id = d.next_log;
      job_id = key;
      from_status = some from;
      to_status = JobStatus.processing;
      message = text;
      worker_id = some owner;
      created_at = seconds b;
    } in
    elim (Bool-cases (str_eq key id)) [
      | inl e ↦
          let one : key ≡ id = (eq_iff key id).0 e in
          let counter : attempts_of (find? (has_id id) (map_where (has_id key) (f a) d.jobs))
              ≡ row.attempt_count + 1 =
            rw (← one) (find?-counted key (f a) d.jobs row same more found) in
          let before : attempts_of (find_job id d) ≡ row.attempt_count =
            rw (← one) (ap attempts_of found) in
          ground (arith, counter, before, added_one id d l)
      | inr e ↦ ground (arith, kept, added_one id d l)
    ]

claimed-Counts :
    (lease : ℕ) (key : String) (generation : ℕ) (owner : String) (s : Session) (n : ℕ) (id : String)
    (e : Db)
    → (e ≡ s.committed)
      ⊎ (IsBuried lease key generation owner s e
          ⊎ ((row : Job) × IsTaken lease key generation owner s row e))
    → Counts n id s.committed
    → Counts (n + starts_added id s.committed e) id e
claimed-Counts lease key generation owner s n id e (inl same) h = rw same (omega (arith, h))
claimed-Counts lease key generation owner s n id e (inr (inl (row, _, _, _, made))) h = rw made (
    quiet-Counts key bury row.status JobStatus.dead exhausted owner (instant 4 s) (instant 5 s) n id
      s.committed refl (λ _. refl) (λ _. omega arith) h)
claimed-Counts lease key generation owner s n id e (inr (inr (row, (found, _, _, made)))) h =
    rw made (
      counted-Counts key (taken lease key generation owner) row.status "Attempt claimed" owner
        (instant 4 s) (instant 5 s) n id s.committed row (λ _. refl) (λ _. refl) found h)

pub claim-Counts :
    (lease : ℕ) (key : String) (generation : ℕ) (owner : String) (s : Session) (n : ℕ) (id : String)
    → Counts n id s.committed
    → let e = left_by (claim lease key generation owner s) in
      Counts (n + starts_added id s.committed e) id e
claim-Counts lease key generation owner s n id h =
    let step = λ (e : Db). claimed-Counts lease key generation owner s n id e in
    left_by-EndsDb (λ e. Counts (n + starts_added id s.committed e) id e) _
      (Ends-mono _
        (λ x t q. elim q [
          | inl (_, same, _) ↦ step t.committed (inl same) h
          | inr (_, what) ↦ step t.committed what h
        ])
        (λ r t q. step t.committed (returned r t.committed q) h)
        (claim_atomic lease key generation owner s))
  where
    returned :
        (r : Option Job) (e : Db)
        → IsReturned lease key generation owner s r e
        → (e ≡ s.committed)
          ⊎ (IsBuried lease key generation owner s e
              ⊎ ((row : Job) × IsTaken lease key generation owner s row e))
    returned none e (inl (same, _)) = inl same
    returned none e (inr buried) = inr (inl buried)
    returned (some c) e (row, _, t) = inr (inr (row, t))

pub create-KeepsCounters :
    (platform : Platform) (id : String) (input : CreateJobInput) (request_key : Option String)
    (s : Session)
    → KeepsCounters s.committed.jobs (left_by (create_job platform id input request_key s)).jobs
create-KeepsCounters platform id input request_key s =
    left_by-EndsDb (λ e. KeepsCounters s.committed.jobs e.jobs) _
      (Ends-mono _
        (λ _ t q. elim q [
          | inl same ↦ unchanged t.committed same
          | inr (new, _) ↦ added t.committed new
        ])
        (λ _ t q. elim q [
          | inl (new, _) ↦ added t.committed new
          | inr (_, same) ↦ unchanged t.committed same
        ])
        (create_job_atomic platform id input request_key s))
  where
    unchanged : (e : Db) → e ≡ s.committed → KeepsCounters s.committed.jobs e.jobs
    unchanged e same = rw same (KeepsCounters-refl s.committed.jobs)

    added :
        (e : Db)
        → IsAccepted id input
            (key_hash platform request_key)
            (request_hash platform input request_key)
            s.committed
            e
        → KeepsCounters s.committed.jobs e.jobs
    added e (a, b, c, made, _, _) = rw made (append-KeepsCounters s.committed.jobs _)

-- After a replay the count begins again, for the job that was replayed.
pub replayed-Counts :
    (key : String) (n : ℕ) (id : String) (d e : Db)
    → (e ≡ d) ⊎ IsReplayed key d e
    → Counts n id d
    → Counts (if was_replayed key id d e then 0 else n) id e
replayed-Counts key n id d e (inl same) h = rw same (ground (arith, h))
replayed-Counts key n id d e (inr (j, a, b, c, found, _, made)) h =
    rw made (elim (Bool-cases (str_eq key id)) [
      | inl same ↦
          let l : AuditLog = record {
            id = d.next_log;
            job_id = key;
            from_status = some j.status;
            to_status = JobStatus.pending;
            message = "Manually requeued via API";
            worker_id = none;
            created_at = seconds b;
          } in
          ground (arith, length-append d.logs (l ∷ []))
      | inr differs ↦
          let other =
            find?-other key id
              (λ k. record k {
                status = JobStatus.pending;
                retry_count = 0;
                attempt_count = 0;
                generation = k.generation + 1;
                next_attempt_at = a;
                lease_owner = none;
                lease_until = none;
                error_msg = none;
                processed_at = none;
                updated_at = seconds a;
              })
              d.jobs differs (λ _. refl) in
          ground (arith, other)
    ])
