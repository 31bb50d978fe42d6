-- ===== src/WorkerStore/Lease/Completion.antt =====
-- `Finish` of worker-service/internal/db/mysql.go for the holder of a lease that lasts, where nothing
-- is lost.
use scalequeue.Common.{
  if_true, ℕ, ◌+◌, ◌≤◌, ◌≡◌, refl, ap, ◌∙◌, String, Bool, true, false, ◌&&◌, none, some, any, find?,
  arith, any-of-find?, find?-append_last, ◌==◌, str_eq, eq_iff, eq_refl, find?-test, if◌then◌else◌,
  ⊤,
}
use scalequeue.Schema.{JobStatus, Job, Outbox, Db}
use scalequeue.Schema.Tables.{has_id, has_identity, find_job, insert_outbox, Reply}
use scalequeue.Session.{Session, commit, with_unit, ◌>>◌}
use scalequeue.Session.Rules.{Ends, Ends-mono, Ends-continue, IsInside, IsOutside}
use scalequeue.Session.Timely.{IsTimely, Gives, statement-IsInside-IsTimely, commit-IsTimely}
use scalequeue.WorkerStore.{audit}
use scalequeue.WorkerStore.Held.{
  is_held-generation, IsLeased, count-is_held, audit-IsTimely, begin_tx-IsTimely,
  with_rollback-IsTimely,
}
use scalequeue.WorkerStore.Lease.{
  owned, settle_job, is_pending, null_if_empty, intend, schedule, finish_rows, finish,
}
use scalequeue.WorkerStore.Lease.Liveness.{updated, update_held-found}

-- The outcome stands in the row of the job, which is free again; its next attempt is due after the
-- delay.
pub record IsSettled (j : Job) (status : JobStatus) (text : String) (delay low high : ℕ) (row : Job)
    (d : Db) : Type 0 where
  pub found : find_job j.id d ≡ some row
  pub outcome : row.status ≡ status
  pub said : row.error_msg ≡ null_if_empty text
  pub unowned : row.lease_owner ≡ none
  pub free : row.lease_until ≡ none
  pub current : row.generation ≡ j.generation
  pub counted : row.attempt_count ≡ j.attempt_count
  pub earliest : low + delay ≤ row.next_attempt_at
  pub latest : row.next_attempt_at ≤ high + delay

-- Where there is to be another attempt, its intent waits for the dispatcher until it is due.
abbrev pub IsScheduled : Bool → Job → ℕ → Db → Type 0
IsScheduled false j due d = ⊤
IsScheduled true j due d =
    (o : Outbox) × (find? (has_identity j.id j.generation (j.attempt_count + 1)) d.outbox ≡ some o)
    × (o.available_at ≡ due)
    × (o.published_at ≡ none)

abbrev IsNew : Job → Db → Type 0
IsNew j d = any (has_identity j.id j.generation (j.attempt_count + 1)) d.outbox ≡ false

if_tests :
    {A : Type 0} {b c : Bool} (x y z : A)
    → b ≡ true
    → c ≡ false
    → (if b then (if c then x else y) else z) ≡ y
if_tests x y z e f = rw e (rw f refl)

same_identity :
    (id : String) (generation attempt : ℕ)
    → (str_eq id id && (generation == generation && attempt == attempt)) ≡ true
same_identity id generation attempt = ground (arith, eq_refl id)

-- The intent that is inserted is the one that is found.
insert_outbox-Gives :
    {low high : ℕ} (id : String) (generation attempt due : ℕ) (w : Db)
    → any (has_id id) w.jobs ≡ true
    → any (has_identity id generation attempt) w.outbox ≡ false
    → Gives low high
        (λ _ d. with_unit (insert_outbox id generation attempt due d))
        (λ _ e.
          (e.jobs ≡ w.jobs)
          × ((o : Outbox) × (find? (has_identity id generation attempt) e.outbox ≡ some o)
              × (o.available_at ≡ due)
              × (o.published_at ≡ none)))
        w
unfolding insert_outbox
insert_outbox-Gives id generation attempt due w there fresh now a b = (
  tt,
  _,
  ap with_unit (if_tests _ _ _ there fresh),
  (
    refl,
    (
      _,
      find?-append_last (has_identity id generation attempt) w.outbox _ fresh
          ∙ if_true _ _ (same_identity id generation attempt),
      refl,
      refl,
    ),
  ),
)

intended :
    (row : Job) {id : String} {generation attempt : ℕ} (d : Db) {r : Reply (⊤ × Db)}
    → row.id ≡ id
    → row.generation ≡ generation
    → row.attempt_count ≡ attempt
    → with_unit (insert_outbox id generation (attempt + 1) row.next_attempt_at d) ≡ r
    → with_unit (intend (some row) d) ≡ r
intended row d a b c e = rw (a, b, c) e

intend-Gives :
    {low high : ℕ} (j row : Job) (w : Db)
    → find_job j.id w ≡ some row
    → row.generation ≡ j.generation
    → row.attempt_count ≡ j.attempt_count
    → IsNew j w
    → Gives low high
        (λ _ d. with_unit (intend (find_job j.id d) d))
        (λ _ e. (e.jobs ≡ w.jobs) × IsScheduled true j row.next_attempt_at e)
        w
intend-Gives j row w found age counted fresh now a b =
    let there : any (has_id j.id) w.jobs ≡ true = any-of-find? (has_id j.id) w.jobs row found in
    let named : row.id ≡ j.id =
      (eq_iff row.id j.id).0 (find?-test (has_id j.id) w.jobs row found) in
    let (u, e, given, rest) =
      insert_outbox-Gives j.id j.generation (j.attempt_count + 1) row.next_attempt_at w there fresh
        now a b in
    (u, e, rw found (intended row w named age counted given), rest)

schedule-IsTimely :
    {low high : ℕ} (again : Bool) (j row : Job) {d w : Db} (s : Session)
    → find_job j.id w ≡ some row
    → row.generation ≡ j.generation
    → row.attempt_count ≡ j.attempt_count
    → IsNew j w
    → IsInside d w s
    → IsTimely low high s
    → Ends
        (λ _ _. ⊥)
        (λ _ t.
          (e : Db) × ((e.jobs ≡ w.jobs) × IsScheduled again j row.next_attempt_at e)
          × IsInside d e t
          × IsTimely low high t)
        (schedule again j.id s)
unfolding schedule
schedule-IsTimely false j row s found age counted fresh o h = record {
  holds = (_, (refl, tt), o, h);
}
schedule-IsTimely true j row {w} s found age counted fresh o h =
    statement-IsInside-IsTimely _ _ s o h (intend-Gives j row w found age counted fresh)

owned-IsTimely :
    {low high : ℕ} (n : ℕ) {d w : Db} (s : Session)
    → n ≡ 1
    → IsInside d w s
    → IsTimely low high s
    → Ends (λ _ _. ⊥) (λ _ t. IsInside d w t × IsTimely low high t) (owned n s)
unfolding owned
owned-IsTimely n s one o h = rw one (record { holds = (o, h) })

module _ (j : Job) (status : JobStatus) (text : String) (delay : ℕ) (low high : ℕ) where
  abbrev IsStored : Job → Db → Type 0
  IsStored row d = IsSettled j status text delay low high row d

  -- The outcome is stored, and the next attempt has its intent.
  abbrev pub IsCompleted : Db → Type 0
  IsCompleted d =
      (row : Job) × IsStored row d × IsScheduled (is_pending status) j row.next_attempt_at d

  IsStored-of : (row : Job) (d e : Db) → e.jobs ≡ d.jobs → IsStored row d → IsStored row e
  IsStored-of row d e a h = record {
    found = rw a h.found;
    outcome = h.outcome;
    said = h.said;
    unowned = h.unowned;
    free = h.free;
    current = h.current;
    counted = h.counted;
    earliest = h.earliest;
    latest = h.latest;
  }

  settle_job-IsStored :
      (now : ℕ) (d : Db)
      → low ≤ now
      → now ≤ high
      → (h : IsLeased j high d)
      → IsStored
          (settle_job status text delay now h.row)
          (updated j (settle_job status text delay) now d)
  settle_job-IsStored now d a b h = record {
    found = update_held-found j (settle_job status text delay now) now d h b (λ x. refl);
    outcome = refl;
    said = refl;
    unowned = refl;
    free = refl;
    current = is_held-generation j high h.row h.held;
    counted = h.counted;
    earliest = omega arith;
    latest = omega arith;
  }

  -- What follows the UPDATE.
  record_outcome :
      (row : Job) (w : Db) {d : Db} (s : Session)
      → IsStored row w
      → IsNew j w
      → IsInside d w s
      → IsTimely low high s
      → Ends
          (λ _ _. ⊥)
          (λ _ t. (e : Db) × IsCompleted e × IsOutside e t × IsTimely low high t)
          ((audit j.id JobStatus.processing status text j.lease_owner
              >> (schedule (is_pending status) j.id >> commit))
            s)
  record_outcome row w s k fresh o h =
      Ends-continue _ _
        (audit-IsTimely j.id JobStatus.processing status text j.lease_owner row s k.found o h)
        λ _ t (x, (jobs, outbox), o1, h1).
          Ends-continue _ _
            (schedule-IsTimely (is_pending status) j row t (rw jobs k.found) k.current k.counted
              (rw outbox fresh) o1 h1)
            λ _ u (e, (same, planned), o2, h2).
              Ends-mono _ (λ _ _ (x : ⊥). x)
                (λ _ v (o3, h3). (e, (row, IsStored-of row w e (same ∙ jobs) k, planned), o3, h3))
                (commit-IsTimely u o2 h2)

  -- The holder of a lease that lasts longer than what is to come stores the outcome, and the intent
  -- of the next attempt where there is to be one.
  pub finish-IsTimely :
      {d : Db} (s : Session)
      → IsLeased j high d
      → IsOutside d s
      → IsTimely low high s
      → Ends
          (λ _ _. ⊥)
          (λ _ t. (e : Db) × IsCompleted e × IsOutside e t × IsTimely low high t)
          (finish j status text delay s)
  unfolding finish finish_rows
  finish-IsTimely {d} s leased o h = with_rollback-IsTimely _ _ (
      Ends-continue _ _ (begin_tx-IsTimely s o h) λ _ t (o1, h1).
        Ends-continue _ _
          (statement-IsInside-IsTimely {low = low} {high = high} _
            (λ n e. (n ≡ 1) × ((row : Job) × IsStored row e) × IsNew j e) t o1 h1
            λ now a b. (
              _,
              _,
              refl,
              (
                count-is_held now d b leased,
                (_, settle_job-IsStored now d a b leased),
                leased.fresh,
              ),
            ))
          λ n u (w, (one, (row, k), fresh), o2, h2).
            Ends-continue _ _ (owned-IsTimely n u one o2 h2)
              λ _ v (o3, h3). record_outcome row w v k fresh o3 h3)
