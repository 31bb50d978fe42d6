-- ===== src/WorkerStore/Dispatch/Soundness.antt =====
-- `Dispatch` of worker-service/internal/db/mysql.go, the outbox and the attempts.
use scalequeue.Common.{
  ℕ, ◌≡◌, refl, sym, String, Bool, true, false, Option, none, some, arith, find?, ◌==◌, ⊤,
}
use scalequeue.Schema.{Job, Outbox, Db}
use scalequeue.Schema.Tables.{find_job, done}
use scalequeue.Session.{Session, Action}
use scalequeue.Session.Rules.{Ends, Ends-mono, Ends-continue, IsInside, query-IsInside}
use scalequeue.WorkerStore.Dispatch.{
  is_due, delete_outbox, mark_published, deliver, is_over, heal, dispatch_row, dispatch_rows,
  dispatch,
}
use scalequeue.WorkerStore.Rules.{with_rollback-EndsDb}
use scalequeue.Delivery.{is_open, IsSound}
use scalequeue.Delivery.Statements.{delete_outbox-IsSound, mark_published-IsSound}
use scalequeue.Delivery.Api.{EndsSound}
use scalequeue.Delivery.Transactions.{
  EndsWith, begin_tx-EndsWith, statement-EndsWith, execute-EndsWith, commit-EndsWith,
  done_injective, same_job, read_lem,
}

over-differs :
    (o : Outbox) (j : Job)
    → is_over o j ≡ true
    → is_open j.status ≡ true
    → (o.generation == j.generation) ≡ false
over-differs o j over opened = ground arith

-- A callback that works on other systems: it leaves the connection's transaction alone.
pub record LeavesTransaction (publish : String → ℕ → Action ⊤) : Type 0 where
  pub left :
      (id : String) (generation : ℕ) (d w : Db) (s : Session)
      → IsInside d w s
      → Ends (λ _ t. IsInside d w t) (λ _ t. IsInside d w t) (publish id generation s)

module _ (skipped : ℕ → Bool) (publish : String → ℕ → Action ⊤)
    (leaves : LeavesTransaction publish) where
  deliver-EndsWith :
      (b : Bool) (p : Outbox → Bool) (o : Outbox) (j : Job) {d : Db} (s : Session)
      → is_over o j ≡ b
      → find? p d.outbox ≡ some o
      → find_job o.job_id d ≡ some j
      → IsSound d
      → IsInside d d s
      → EndsWith (λ _ t. (w : Db) × IsSound w × IsInside d w t) (deliver skipped publish b o s)
  unfolding deliver
  deliver-EndsWith true p o j {d} s over due found sound h =
      execute-EndsWith (λ now d. done (delete_outbox o.id d)) s sound
        (λ now w e. rw (← done_injective e) (
          delete_outbox-IsSound p o d due
            (λ i again opened.
              rw (same_job again found) (over-differs o j over (rw (same_job found again) opened)))
            sound))
        h
  deliver-EndsWith false p o j {d} s over due found sound h =
      Ends-continue _ _
        (Ends-mono _ (λ _ t q. rw (q.0) sound) (λ _ t q. q)
          (leaves.left o.job_id o.generation d d s h))
        λ _ s1 h1.
          execute-EndsWith (λ now d. done (mark_published o.id now d)) s1 sound
            (λ now w e. rw (← done_injective e) (mark_published-IsSound o.id now d sound)) h1

  heal-EndsSound :
      (p : Outbox → Bool) (o : Outbox) (found : Option Job) {d : Db} (s : Session)
      → found ≡ find_job o.job_id d
      → find? p d.outbox ≡ some o
      → IsSound d
      → IsInside d d s
      → EndsSound (heal skipped publish o found s)
  unfolding heal
  heal-EndsSound p o none s e due sound h = record { holds = rw (h.0) sound }
  heal-EndsSound p o (some j) s e due sound h =
      Ends-continue _ _ (deliver-EndsWith (is_over o j) p o j s refl due (sym e) sound h)
        λ _ s1 (w, new, h1).
          Ends-continue _ _ (commit-EndsWith s1 sound new h1) λ _ t q. record { holds = q }

  dispatch_row-EndsSound :
      (p : Outbox → Bool) (due : Option Outbox) {d : Db} (s : Session)
      → due ≡ find? p d.outbox
      → IsSound d
      → IsInside d d s
      → EndsSound (dispatch_row skipped publish due s)
  unfolding dispatch_row
  dispatch_row-EndsSound p none s e sound h = record { holds = rw (h.0) sound }
  dispatch_row-EndsSound p (some o) s e sound h =
      Ends-continue _ _
        (Ends-mono _ (λ _ t q. rw (q.0) sound) (λ _ t q. q)
          (query-IsInside (find_job o.job_id) s h))
        λ found s1 (eq, h1). heal-EndsSound p o found s1 eq (sym e) sound h1

  pub dispatch-IsSound :
      (s : Session) → IsSound s.committed → EndsSound (dispatch skipped publish s)
  unfolding dispatch dispatch_rows
  dispatch-IsSound s sound =
      with_rollback-EndsDb (λ _ d. IsSound d) (λ _ d. IsSound d) _
        (Ends-continue _ _ (begin_tx-EndsWith s sound refl) λ _ s1 h1.
          Ends-continue _ _
            (statement-EndsWith (λ now d. done ((find? (is_due skipped now) d.outbox, d))) s1 sound
              h1)
            λ due s2 (now, w, e, h2).
              let (same, unchanged) = read_lem e in
              dispatch_row-EndsSound (is_due skipped now) due s2 (sym same) sound
                (rw (← unchanged) at h2))
