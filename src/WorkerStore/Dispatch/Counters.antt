-- ===== src/WorkerStore/Dispatch/Counters.antt =====
-- `Dispatch` of worker-service/internal/db/mysql.go leaves the jobs alone.
use scalequeue.Common.{
  ℕ, ◌≡◌, refl, inl, inr, String, Bool, true, false, Option, none, some, ap, find?, ⊤,
}
use scalequeue.Schema.{Job, Outbox, Db}
use scalequeue.Schema.Tables.{find_job, done}
use scalequeue.Session.{Session, Result, Action}
use scalequeue.Session.Rules.{
  Ends, Ends-mono, Ends-continue, IsInside, statement-IsInside, execute-IsInside, query-IsInside,
  commit-IsInside,
}
use scalequeue.WorkerStore.Rules.{EndsDb, with_rollback-EndsDb, begin_tx-IsInside}
use scalequeue.WorkerStore.Dispatch.{
  is_due, is_over, delete_outbox, mark_published, deliver, heal, dispatch_row, dispatch_rows,
  dispatch,
}
use scalequeue.WorkerStore.Dispatch.Soundness.{LeavesTransaction}
use scalequeue.Delivery.Transactions.{done_injective, read_lem}

module _ (skipped : ℕ → Bool) (publish : String → ℕ → Action ⊤)
    (leaves : LeavesTransaction publish) where
  -- The committed jobs are those of `d`, and those that the open transaction sees are too.
  abbrev SeesJobs : Db → Session → Type 0
  SeesJobs d t = (w : Db) × (w.jobs ≡ d.jobs) × IsInside d w t

  abbrev EndsSame : {A : Type 0} → Db → Result A × Session → Type 0
  EndsSame d m = EndsDb (λ _ e. e.jobs ≡ d.jobs) (λ _ e. e.jobs ≡ d.jobs) m

  deliver-SeesJobs :
      (b : Bool) (o : Outbox) {d : Db} (s : Session)
      → IsInside d d s
      → Ends (λ _ t. t.committed ≡ d) (λ _ t. SeesJobs d t) (deliver skipped publish b o s)
  unfolding deliver
  deliver-SeesJobs true o {d} s h =
      Ends-mono _ (λ _ t q. q.0) (λ _ t (now, w, e, i). (w, rw (← done_injective e) refl, i))
        (execute-IsInside (λ now d. done (delete_outbox o.id d)) s h)
  deliver-SeesJobs false o {d} s h =
      Ends-continue _ _
        (Ends-mono _ (λ _ t q. q.0) (λ _ t q. q) (leaves.left o.job_id o.generation d d s h))
        λ _ s1 h1.
          Ends-mono _ (λ _ t q. q.0) (λ _ t (now, w, e, i). (w, rw (← done_injective e) refl, i))
            (execute-IsInside (λ now d. done (mark_published o.id now d)) s1 h1)

  heal-EndsSame :
      (o : Outbox) (found : Option Job) {d : Db} (s : Session)
      → IsInside d d s
      → EndsSame d (heal skipped publish o found s)
  unfolding heal
  heal-EndsSame o none s h = record { holds = ap (λ x. x.jobs) (h.0) }
  heal-EndsSame o (some j) {d} s h =
      Ends-continue _ _
        (Ends-mono _ (λ _ t q. ap (λ x. x.jobs) q) (λ _ t q. q)
          (deliver-SeesJobs (is_over o j) o s h))
        λ _ s1 (w, same, h1).
          Ends-continue _ _
            (Ends-mono _
              (λ _ t (q, _). elim q [ inl old ↦ ap (λ x. x.jobs) old | inr new ↦ rw new same ])
              (λ _ t q. rw (q.0) same) (commit-IsInside s1 h1))
            λ _ t q. record { holds = q }

  dispatch_row-EndsSame :
      (due : Option Outbox) {d : Db} (s : Session)
      → IsInside d d s
      → EndsSame d (dispatch_row skipped publish due s)
  unfolding dispatch_row
  dispatch_row-EndsSame none s h = record { holds = ap (λ x. x.jobs) (h.0) }
  dispatch_row-EndsSame (some o) s h =
      Ends-continue _ _
        (Ends-mono _ (λ _ t q. ap (λ x. x.jobs) (q.0)) (λ _ t q. q)
          (query-IsInside (find_job o.job_id) s h))
        λ found s1 (_, h1). heal-EndsSame o found s1 h1

  -- A dispatch leaves the jobs alone.
  pub dispatch-EndsSame : (s : Session) → EndsSame s.committed (dispatch skipped publish s)
  unfolding dispatch dispatch_rows
  dispatch-EndsSame s =
      let d = s.committed in
      with_rollback-EndsDb (λ _ e. e.jobs ≡ d.jobs) (λ _ e. e.jobs ≡ d.jobs) _
        (Ends-continue _ _
          (Ends-mono _ (λ _ t q. ap (λ x. x.jobs) q) (λ _ t q. q) (begin_tx-IsInside s refl))
          λ _ s1 h1.
            Ends-continue _ _
              (Ends-mono _ (λ _ t q. ap (λ x. x.jobs) (q.0)) (λ _ t q. q)
                (statement-IsInside (λ now d. done ((find? (is_due skipped now) d.outbox, d))) s1
                  h1))
              λ due s2 (now, w, e, h2). dispatch_row-EndsSame due s2 (rw (← (read_lem e).1) at h2))
