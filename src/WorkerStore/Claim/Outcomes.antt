-- ===== src/WorkerStore/Claim/Outcomes.antt =====
-- What `Claim` of worker-service/internal/db/mysql.go does to the database, under every schedule of
-- faults. Its round trips are the connection, BEGIN, the SELECT, the UPDATE, the INSERT and COMMIT,
-- so the SELECT reads the row at the third instant, and the UPDATE and the INSERT write at the
-- fourth and the fifth.
use scalequeue.Common.{
  ◌-◌, ◌∙◌, ℕ, ◌+◌, ◌≤◌, ◌<◌, ◌≡◌, ◌≢◌, refl, sym, ◌⊎◌, inl, inr, String, Bool, true, false, ◌&&◌,
  ◌==◌, Bool-cases, Option, none, some, arith, ltb, leb,
}
use scalequeue.Schema.{JobStatus, Job, Db}
use scalequeue.Schema.Tables.{other, find_job, seconds, rounded, done}
use scalequeue.Session.{Session, Error, Result, pure, throw}
use scalequeue.Session.Rules.{Ends-mono, Ends-continue, IsInside}
use scalequeue.Session.Instants.{instant, IsAt, statement-IsAt, open-IsAt, begin-IsInside-IsAt}
use scalequeue.WorkerStore.{busy, is_after, is_processing}
use scalequeue.WorkerStore.Rules.{EndsDb, with_rollback-EndsDb, if-EndsDb}
use scalequeue.WorkerStore.Claim.{
  see, is_final, exhausted, bury, take_over, claimed, is_stale, give_up, start, spend, decide,
  claim_rows, claim,
}
use scalequeue.Delivery.Transactions.{read_lem}
use scalequeue.WorkerStore.Claim.Recording.{
  changed, IsSql, recorded_lem, IsLeased, IsLeased-of, not-IsLeased-of,
}

some_injective : {a b : Job} → some a ≡ some b → a ≡ b
some_injective h = cc

module _ (lease : ℕ) (id : String) (generation : ℕ) (owner : String) where
  -- Of another generation, or settled.
  abbrev pub IsStale : Job → Type 0
  IsStale row =
      (row.generation ≢ generation)
      ⊎ ((row.status ≡ JobStatus.completed) ⊎ (row.status ≡ JobStatus.dead))

  -- A row that may be claimed at `now`: of the generation, neither COMPLETED nor DEAD, under no
  -- lease that runs on, and due.
  abbrev pub IsFree : ℕ → Job → Type 0
  IsFree now row =
      (row.generation ≡ generation)
      × (row.status ≢ JobStatus.completed)
      × (row.status ≢ JobStatus.dead)
      × (¬ IsLeased now row)
      × (row.next_attempt_at ≤ now)

  IsStale-of : (row : Job) → is_stale generation row ≡ true → IsStale row
  IsStale-of row h = elim (Bool-cases (row.generation == generation)) [
    | inl e ↦ inr (settled row.status (ground arith))
    | inr e ↦ inl (ground arith)
  ]
    where
      settled :
          (x : JobStatus) → is_final x ≡ true → (x ≡ JobStatus.completed) ⊎ (x ≡ JobStatus.dead)
      settled JobStatus.completed e = inl refl
      settled JobStatus.dead e = inr refl
      settled JobStatus.pending e = cc
      settled JobStatus.processing e = cc
      settled JobStatus.failed e = cc

  -- The row's update, with the count of retries written as the attempts before this one.
  abbrev pub taken : ℕ → Job → Job
  taken a k = record k {
    status = JobStatus.processing;
    attempt_count = k.attempt_count + 1;
    retry_count = k.attempt_count;
    lease_owner = some owner;
    lease_until = some (a + lease);
    updated_at = rounded a;
  }

  before_last : (n : ℕ) → n + 1 - 1 ≡ n
  before_last n = omega arith

  take_over-taken : take_over owner lease ≡ taken
  take_over-taken = λ i a k. record (taken a k) { retry_count = before_last k.attempt_count i }

  changed-taken :
      (from : JobStatus) (a b : ℕ) (d : Db)
      → changed id (take_over owner lease) from JobStatus.processing "Attempt claimed" owner a b d
        ≡ changed id taken from JobStatus.processing "Attempt claimed" owner a b d
  changed-taken from a b d = rw take_over-taken

  -- The row was free when it was read, with an attempt left, and is PROCESSING under the owner's
  -- lease, which runs from the instant of the update.
  abbrev pub IsTaken : Session → Job → Db → Type 0
  IsTaken s row e =
      (find_job id s.committed ≡ some row)
      × IsFree (instant 3 s) row
      × (row.attempt_count ≤ row.max_retries)
      × (e
          ≡ changed id taken row.status JobStatus.processing "Attempt claimed" owner (instant 4 s)
              (instant 5 s) s.committed)

  -- The row was free when it was read, with no attempt left, and is DEAD.
  abbrev pub IsBuried : Session → Db → Type 0
  IsBuried s e =
      (row : Job) × (find_job id s.committed ≡ some row)
      × IsFree (instant 3 s) row
      × (row.max_retries < row.attempt_count)
      × (e
          ≡ changed id
              (λ a k. record k {
                status = JobStatus.dead;
                error_msg = some exhausted;
                lease_owner = none;
                lease_until = none;
                processed_at = some (rounded a);
                updated_at = seconds a;
              })
              row.status JobStatus.dead exhausted owner (instant 4 s) (instant 5 s) s.committed)

  -- There is nothing to run: no such job, or a row that is stale, or under no lease that runs on and
  -- not yet due.
  abbrev pub IsIdle : Session → Type 0
  IsIdle s =
      (find_job id s.committed ≡ none)
      ⊎ ((row : Job) × (find_job id s.committed ≡ some row)
          × (IsStale row ⊎ ((¬ IsLeased (instant 3 s) row) × (instant 3 s < row.next_attempt_at))))

  abbrev pub IsReturned : Session → Option Job → Db → Type 0
  IsReturned s none e = ((e ≡ s.committed) × IsIdle s) ⊎ IsBuried s e
  IsReturned s (some c) e = (row : Job) × (c ≡ claimed owner row) × IsTaken s row e

  -- `ErrBusy`, for a row under a lease that runs on, or an error of the driver.
  abbrev pub IsThrown : Session → Error → Db → Type 0
  IsThrown s x e =
      ((x ≡ busy)
        × (e ≡ s.committed)
        × ((row : Job) × (find_job id s.committed ≡ some row) × IsLeased (instant 3 s) row))
      ⊎ (IsSql x × ((e ≡ s.committed) ⊎ (IsBuried s e ⊎ ((row : Job) × IsTaken s row e))))

  IsReturned-none :
      (s : Session) (r : Option Job) (e : Db) → r ≡ none → IsBuried s e → IsReturned s r e
  IsReturned-none s none e h b = inr b
  IsReturned-none s (some c) e h b = cc

  IsReturned-some :
      (s : Session) (r : Option Job) (row : Job) (e : Db)
      → r ≡ some (claimed owner row)
      → IsTaken s row e
      → IsReturned s r e
  IsReturned-some s none row e h t = cc
  IsReturned-some s (some c) row e h t = (row, some_injective h, t)

  module _ (s : Session) where
    abbrev EndsClaim : Result (Option Job) × Session → Type 0
    EndsClaim m = EndsDb (IsThrown s) (IsReturned s) m

    spend_lem :
        (b : Bool) (row : Job) (t : Session)
        → leb (row.max_retries + 1) row.attempt_count ≡ b
        → find_job id s.committed ≡ some row
        → IsFree (instant 3 s) row
        → IsInside s.committed s.committed t
        → IsAt 3 s t
        → EndsClaim (spend lease id generation owner b row t)
    unfolding spend give_up start
    spend_lem true row t full found free h at =
        let over : row.max_retries < row.attempt_count = ground arith in
        Ends-mono _
          (λ x u (lost, q). inr (
            lost,
            elim q [ inl same ↦ inl same | inr new ↦ inr (inl (row, found, free, over, new)) ],
          ))
          (λ r u (y, new). IsReturned-none s r u.committed y (row, found, free, over, new))
          (recorded_lem id bury row.status JobStatus.dead exhausted owner none s t h at)
    spend_lem false row t full found free h at =
        let left : row.attempt_count ≤ row.max_retries = ground arith in
        let same = changed-taken row.status (instant 4 s) (instant 5 s) s.committed in
        Ends-mono _
          (λ x u (lost, q). inr (
            lost,
            elim q [
              | inl old ↦ inl old
              | inr new ↦ inr (inr (row, (found, free, left, new ∙ same)))
            ],
          ))
          (λ r u (y, new). IsReturned-some s r row u.committed y (found, free, left, new ∙ same))
          (recorded_lem id (take_over owner lease) row.status JobStatus.processing "Attempt claimed"
            owner (some (claimed owner row)) s t h at)

    IsFree-of :
        (row : Job)
        → is_stale generation row ≡ false
        → ¬ IsLeased (instant 3 s) row
        → ltb (instant 3 s) row.next_attempt_at ≡ false
        → IsFree (instant 3 s) row
    IsFree-of row live idle due =
        (ground arith, (λ e. ground arith), (λ e. ground arith), idle, ground arith)

    decide_lem :
        (o : Option Job) (t : Session)
        → o ≡ find_job id s.committed
        → IsInside s.committed s.committed t
        → IsAt 3 s t
        → EndsClaim (decide lease id generation owner (see (instant 3 s) o) t)
    unfolding decide
    decide_lem none t e h at = record { holds = inl (h.0, inl (sym e)) }
    decide_lem (some row) t e h at =
        if-EndsDb (IsThrown s) (IsReturned s) (is_stale generation row) (pure none) _ t
          (λ stale. record { holds = inl (h.0, inr (row, sym e, inl (IsStale-of row stale))) })
          λ live.
            if-EndsDb (IsThrown s) (IsReturned s)
              (is_processing row.status && is_after row.lease_until (instant 3 s)) (throw busy) _ t
              (λ held. record {
                holds = inl (refl, h.0, (row, sym e, IsLeased-of (instant 3 s) row held));
              })
              λ free.
                let idle = not-IsLeased-of (instant 3 s) row free in
                if-EndsDb (IsThrown s) (IsReturned s) (ltb (instant 3 s) row.next_attempt_at)
                  (pure none) _ t
                  (λ early. record {
                    holds = inl (h.0, inr (row, sym e, inr (idle, ground arith)));
                  })
                  λ due. spend_lem _ row t refl (sym e) (IsFree-of row live idle due) h at

    claim_rows_lem : EndsClaim (claim_rows lease id generation owner s)
    unfolding claim_rows
    claim_rows_lem =
        Ends-continue _ _
          (Ends-continue _ _
            (Ends-mono _ (λ x t q. inr ((other, q.1), inl (q.0))) (λ _ t q. q)
              (open-IsAt 0 s s refl (refl, refl)))
            λ _ s1 h1.
              Ends-mono _ (λ x t q. inr ((other, q.1), inl (q.0))) (λ _ t q. q)
                (begin-IsInside-IsAt 1 s s1 (h1.0) (h1.1)))
          λ _ s2 h2.
            Ends-continue _ _
              (Ends-mono _ (λ x t q. inr (q.1, inl (q.0))) (λ _ t q. q)
                (statement-IsAt (λ now d. done ((see now (find_job id d), d))) 2 s s2 (h2.0)
                  (h2.1)))
              λ found s3 ((w, e, h3), at).
                let (same, unchanged) = read_lem e in
                rw (← same) (decide_lem _ s3 refl (rw (← unchanged) at h3) at)

  -- `Claim` gives a job to one owner at a time, as a whole or not at all, whatever fails and when;
  -- its SELECT is the third round trip of the call, and the row is judged at that instant. Where it
  -- returns a job, the row that was read was of the asked generation, neither COMPLETED nor DEAD,
  -- under no lease that ran on, due, and had an attempt left; it became PROCESSING under the
  -- owner's lease, from the instant of the update, with one more attempt, its audit entry was
  -- committed with it, and the returned job is that row. Where it returns no job, either nothing
  -- changed, and the job is unknown, of another generation, COMPLETED or DEAD, or under no lease
  -- that ran on and not yet due; or the row was free with no attempt left and became DEAD. Where it
  -- returns ErrBusy, nothing changed and the row was under a lease that ran on; where any other
  -- error, nothing changed or one of the two updates was committed.
  pub claim_atomic :
      (s : Session) → EndsDb (IsThrown s) (IsReturned s) (claim lease id generation owner s)
  unfolding claim
  claim_atomic s = with_rollback-EndsDb (IsThrown s) (IsReturned s) _ (claim_rows_lem s)
