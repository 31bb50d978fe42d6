-- ===== src/WorkerStore/Lease/Soundness.antt =====
-- `Renew` and `Finish` of worker-service/internal/db/mysql.go, the outbox and the attempts.
use scalequeue.Common.{
  ℕ, ◌≡◌, refl, inl, inr, String, Bool, true, false, Option, none, some, arith, ◌==◌, ⊤, Bool-cases,
  sym, eq_iff, find?-test,
}
use scalequeue.Schema.{JobStatus, Job, Db}
use scalequeue.Schema.Tables.{has_id, find_job, insert_log, done}
use scalequeue.Session.{Session}
use scalequeue.Session.Rules.{Ends-mono, Ends-continue, Ends-releasing, IsInside}
use scalequeue.Session.Autocommit.{get_connection-IsOutside, statement-IsCommitted}
use scalequeue.WorkerStore.{is_processing, is_held}
use scalequeue.WorkerStore.Lease.{
  update_held, owned, extend, renew_row, renew, settle_job, is_pending, intend, schedule,
  finish_rows, finish,
}
use scalequeue.WorkerStore.Rules.{with_rollback-EndsDb}
use scalequeue.Delivery.{is_open, IsSound}
use scalequeue.Delivery.References.{IsOnward, map_where-IsKeyed, map_where-AreBehind}
use scalequeue.Delivery.Statements.{
  map_where-IsCovered, map_where-IsBudgeted, insert_log-IsSound, insert_outbox-IsSound,
}
use scalequeue.Delivery.Api.{EndsSound}
use scalequeue.Delivery.Transactions.{
  EndsWith, begin_tx-EndsWith, statement-EndsWith, execute-EndsWith, commit-EndsWith,
  done_injective, read_lem,
}

processing-is_open : (status : JobStatus) → is_processing status ≡ true → is_open status ≡ true
processing-is_open status h = ground arith

stays-IsOnward :
    (i j : Job) → j.generation ≡ i.generation → j.attempt_count ≡ i.attempt_count → IsOnward i j
stays-IsOnward i j a b = ground arith

-- Only a job in PROCESSING is held, so an update of held jobs that keeps id and generation may do
-- what it likes to the status.
update_held-IsSound :
    (j : Job) (f : ℕ → Job → Job) (now n : ℕ) (d e : Db)
    → ((row : Job) → (f now row).id ≡ row.id)
    → ((row : Job) → (f now row).generation ≡ row.generation)
    → ((row : Job)
        → ((f now row).attempt_count ≡ row.attempt_count)
          × ((f now row).max_retries ≡ row.max_retries))
    → update_held j f now d ≡ done (n, e)
    → IsSound d
    → IsSound e
update_held-IsSound j f now n d e same age spent h sound = rw (← (read_lem h).1) (record {
  covered =
      map_where-IsCovered (is_held j now) (f now) d.jobs d.outbox same
        (λ row id found held opened. (processing-is_open row.status (ground arith), age row))
        sound.covered;
  budgeted =
      map_where-IsBudgeted (is_held j now) (f now) d.jobs same
        (λ row id found held.
          let kept = sound.budgeted id row found in let (a, b) = spent row in rw a (rw b kept))
        sound.budgeted;
  numbered = sound.numbered;
  keyed = map_where-IsKeyed (is_held j now) (f now) d.jobs same sound.keyed;
  behind =
      map_where-AreBehind (is_held j now) (f now) d.jobs d.outbox same
        (λ row. stays-IsOnward row (f now row) (age row) (spent row).0) sound.behind;
})

owned-EndsWith :
    (n : ℕ) (P : ⊤ → Session → Type 0) (s : Session)
    → IsSound s.committed
    → P tt s
    → EndsWith P (owned n s)
unfolding owned
owned-EndsWith n P s sound p = elim (Bool-cases (n == 1)) [
  | inl e ↦ rw e (record { holds = p })
  | inr e ↦ rw e (record { holds = sound })
]

intend-IsSound :
    (id : String) (o : Option Job) (d e : Db)
    → find_job id d ≡ o
    → intend o d ≡ done e
    → IsSound d
    → IsSound e
intend-IsSound id none d e found h sound = rw (← (done_injective h)) sound
intend-IsSound id (some row) d e found h sound =
    let named : id ≡ row.id =
      sym ((eq_iff row.id id).0 (find?-test (has_id id) d.jobs row found)) in
    insert_outbox-IsSound _ _ _ _ d e h (row, (rw named at found), inr (refl, omega arith)) sound

schedule-EndsWith :
    (b : Bool) (id : String) {d w : Db} (s : Session)
    → IsSound d
    → IsSound w
    → IsInside d w s
    → EndsWith (λ _ t. (w' : Db) × IsSound w' × IsInside d w' t) (schedule b id s)
unfolding schedule
schedule-EndsWith false id {w = w} s old new h = record { holds = (w, new, h) }
schedule-EndsWith true id {w = w} s old new h =
    execute-EndsWith (λ now d. intend (find_job id d) d) s old
      (λ now w' e. intend-IsSound id (find_job id w) w w' refl e new) h

finish_rows-EndsSound :
    (j : Job) (status : JobStatus) (text : String) (delay : ℕ) (s : Session)
    → IsSound s.committed
    → EndsSound (finish_rows j status text delay s)
unfolding finish_rows
finish_rows-EndsSound j status text delay s sound =
    Ends-continue _ _ (begin_tx-EndsWith s sound refl) λ _ s1 h1.
      Ends-continue _ _
        (statement-EndsWith (update_held j (settle_job status text delay)) s1 sound h1)
        λ n s2 (now, w, e, h2).
          let new =
            update_held-IsSound j (settle_job status text delay) now n s.committed w (λ _. refl)
              (λ _. refl) (λ _. (refl, refl)) e sound in
          Ends-continue _ _
            (owned-EndsWith n (λ _ t. IsInside s.committed w t) s2 (rw (h2.0) sound) h2)
            λ _ s3 h3.
              Ends-continue _ _
                (execute-EndsWith
                  (insert_log j.id (some JobStatus.processing) status text j.lease_owner) s3 sound
                  (λ now w' e. insert_log-IsSound _ _ _ _ _ now w w' e new) h3)
                λ _ s4 (w4, sound4, h4).
                  Ends-continue _ _ (schedule-EndsWith (is_pending status) j.id s4 sound sound4 h4)
                    λ _ s5 (w5, sound5, h5). commit-EndsWith s5 sound sound5 h5

pub finish-IsSound :
    (j : Job) (status : JobStatus) (text : String) (delay : ℕ) (s : Session)
    → IsSound s.committed
    → EndsSound (finish j status text delay s)
unfolding finish
finish-IsSound j status text delay s sound =
    with_rollback-EndsDb (λ _ d. IsSound d) (λ _ d. IsSound d) _
      (finish_rows-EndsSound j status text delay s sound)

-- Outside a transaction.
pub renew-IsSound :
    (lease : ℕ) (j : Job) (s : Session)
    → s.working ≡ none
    → IsSound s.committed
    → EndsSound (renew lease j s)
unfolding renew renew_row
renew-IsSound lease j s idle sound =
    let extended : (now n : ℕ) (w : Db)
        → update_held j (extend lease) now s.committed ≡ done (n, w)
        → IsSound w =
      λ now n w e.
        update_held-IsSound j (extend lease) now n s.committed w (λ _. refl) (λ _. refl)
          (λ _. (refl, refl)) e sound in
    Ends-releasing _
      (Ends-continue _ _
        (Ends-mono _ (λ _ t q. rw q sound) (λ _ t q. q) (get_connection-IsOutside s (refl, idle)))
        λ _ s1 h1.
          Ends-continue _ _
            (Ends-mono _
              (λ _ t q. elim q [
                | inl same ↦ rw same sound
                | inr (now, n, w, e, x) ↦ rw x (extended now n w e)
              ])
              (λ n t (now, w, e, x). rw (x.0) (extended now n w e))
              (statement-IsCommitted (update_held j (extend lease)) s1 h1))
            λ n s2 new. owned-EndsWith n (λ _ t. IsSound t.committed) s2 new new)
      (λ _ _ q. q) (λ _ _ q. q)
