-- ===== src/WorkerStore/Held.antt =====
-- A job whose lease lasts, as the statements of worker-service/internal/db/mysql.go see it.
use scalequeue.Common.{
  if_true, ℕ, ◌+◌, ◌≤◌, ◌≡◌, refl, ap, String, true, false, Option, some, any, count, arith,
  any-of-find?, count-find?,
}
use scalequeue.Schema.{JobStatus, Job, Db}
use scalequeue.Schema.Tables.{has_id, has_identity, find_job, insert_log}
use scalequeue.Session.{rollback, Session, with_unit, Result, ok, err}
use scalequeue.Session.Rules.{Ends, IsInside, IsOutside}
use scalequeue.Session.Timely.{
  IsTimely, IsTimely-of, Gives, statement-IsInside-IsTimely, get_connection-IsTimely,
  begin-IsTimely, rollback-IsTimely,
}
use scalequeue.Session.Rules.{Ends-continue}
use scalequeue.WorkerStore.{is_held, begin_tx, with_rollback, audit}

-- The row of the claimed job `j` is held until after `high`, it is the only one of its id, and its
-- next attempt has no dispatch intent yet.
pub record IsLeased (j : Job) (high : ℕ) (d : Db) : Type 0 where
  pub row : Job
  pub found : find_job j.id d ≡ some row
  pub held : is_held j high row ≡ true
  pub counted : row.attempt_count ≡ j.attempt_count
  pub unique : count (has_id j.id) d.jobs ≡ 1
  pub fresh : any (has_identity j.id j.generation (j.attempt_count + 1)) d.outbox ≡ false

-- Of the tables, only the jobs and the intents matter.
pub IsLeased-of :
    {j : Job} {high : ℕ} (d e : Db)
    → e.jobs ≡ d.jobs
    → e.outbox ≡ d.outbox
    → IsLeased j high d
    → IsLeased j high e
IsLeased-of d e a b h = record {
  row = h.row;
  found = rw a h.found;
  held = h.held;
  counted = h.counted;
  unique = rw a h.unique;
  fresh = rw b h.fresh;
}

-- A lease that is active at an instant was active before it.
pub is_held_before :
    (j row : Job) (now high : ℕ) → now ≤ high → is_held j high row ≡ true → is_held j now row ≡ true
is_held_before j row now high le h = ground arith

pub is_held-has_id :
    (j : Job) (now : ℕ) (row : Job) → is_held j now row ≡ true → has_id j.id row ≡ true
is_held-has_id j now row h = ground arith

pub is_held-generation :
    (j : Job) (now : ℕ) (row : Job) → is_held j now row ≡ true → row.generation ≡ j.generation
is_held-generation j now row h = ground arith

-- One row is held.
pub count-is_held :
    {j : Job} {high : ℕ} (now : ℕ) (d : Db)
    → now ≤ high
    → IsLeased j high d
    → count (is_held j now) d.jobs ≡ 1
count-is_held {j} {high} now d le h =
    count-find? (has_id j.id) (is_held j now) d.jobs h.row (is_held-has_id j now) h.found
      (is_held_before j h.row now high le h.held) h.unique

-- The entry of a job that is there is accepted, and changes neither jobs nor intents.
pub insert_log-Gives :
    {low high : ℕ} (id : String) (from to : JobStatus) (text : String) (owner : Option String)
    (w : Db) (row : Job)
    → find_job id w ≡ some row
    → Gives low high
        (λ now d. with_unit (insert_log id (some from) to text owner now d))
        (λ _ e. (e.jobs ≡ w.jobs) × (e.outbox ≡ w.outbox))
        w
unfolding insert_log
insert_log-Gives id from to text owner w row found now a b =
    let there : any (has_id id) w.jobs ≡ true = any-of-find? (has_id id) w.jobs row found in
    (tt, _, ap with_unit (if_true _ _ there), (refl, refl))

pub audit-IsTimely :
    {low high : ℕ} (id : String) (from to : JobStatus) (text : String) (owner : Option String)
    {d w : Db} (row : Job) (s : Session)
    → find_job id w ≡ some row
    → IsInside d w s
    → IsTimely low high s
    → Ends
        (λ _ _. ⊥)
        (λ _ t.
          (e : Db) × ((e.jobs ≡ w.jobs) × (e.outbox ≡ w.outbox))
          × IsInside d e t
          × IsTimely low high t)
        (audit id from to text owner s)
audit-IsTimely id from to text owner {d} {w} row s found o h =
    statement-IsInside-IsTimely _ _ s o h (insert_log-Gives id from to text owner w row found)

pub begin_tx-IsTimely :
    {low high : ℕ} {d : Db} (s : Session)
    → IsOutside d s
    → IsTimely low high s
    → Ends (λ _ _. ⊥) (λ _ t. IsInside d d t × IsTimely low high t) (begin_tx s)
begin_tx-IsTimely s o h =
    Ends-continue _ _ (get_connection-IsTimely s o h) λ _ t (p, k). begin-IsTimely t p k

-- The deferred rollback finds no open transaction.
pub with_rollback-IsTimely :
    {A : Type 0} {low high : ℕ} (P : A → Db → Type 0) (m : Result A × Session)
    → Ends (λ _ _. ⊥) (λ a t. (e : Db) × P a e × IsOutside e t × IsTimely low high t) m
    → Ends
        (λ _ _. ⊥)
        (λ a t. (e : Db) × P a e × IsOutside e t × IsTimely low high t)
        (with_rollback m)
unfolding with_rollback
with_rollback-IsTimely P (ok a, s) h =
    let (e, p, (c, o), k) = h.holds in
    rw o (record { holds = (e, p, (c, refl), IsTimely-of s _ refl refl k) })
with_rollback-IsTimely P (err x, s) h = absurd h.holds

returned_state :
    {A : Type 0} (P : Session → Type 0) (m : Result A × Session)
    → Ends (λ _ _. ⊥) (λ _ t. P t) m
    → P m.1
returned_state P (ok a, s) h = h.holds
returned_state P (err x, s) h = absurd h.holds

-- The deferred rollback of a transaction that is open at the return.
pub rolled_back-IsTimely :
    {A : Type 0} {low high : ℕ} {d w : Db} (Q : A → Type 0) (a : A) (s : Session)
    → Q a
    → IsInside d w s
    → IsTimely low high s
    → Ends (λ _ _. ⊥) (λ a t. Q a × IsOutside d t × IsTimely low high t) (with_rollback (ok a, s))
unfolding with_rollback rollback
rolled_back-IsTimely {low = low} {high = high} {d = d} Q a s q (c, o) h =
    let ((same, idle), k) =
      returned_state (λ t. IsOutside d t × IsTimely low high t) (rollback s)
        (rollback-IsTimely s c h) in
    rw o (record { holds = (q, (same, refl), IsTimely-of (rollback s).1 _ refl refl k) })
