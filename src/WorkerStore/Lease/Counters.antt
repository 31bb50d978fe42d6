-- ===== src/WorkerStore/Lease/Counters.antt =====
-- `Renew` and `Finish` of worker-service/internal/db/mysql.go begin no attempt: what they leave of the
-- jobs' counters.
use scalequeue.Common.{
  ℕ, ◌≤◌, ◌≡◌, refl, inl, inr, String, Option, List, none, some, ap, arith, Bool-cases, ◌==◌,
}
use scalequeue.Schema.{JobStatus, Job, Db}
use scalequeue.Schema.Tables.{find_job, insert_outbox, done}
use scalequeue.Session.{Session}
use scalequeue.Session.Rules.{Ends-mono, Ends-continue, Ends-releasing}
use scalequeue.Session.Autocommit.{get_connection-IsOutside, statement-IsCommitted}
use scalequeue.WorkerStore.{is_held}
use scalequeue.WorkerStore.Lease.{update_held, owned, extend, renew_row, renew, finish, intend}
use scalequeue.WorkerStore.Lease.Fencing.{settled, HasRetry, IsFinished, finish_atomic}
use scalequeue.Delivery.Transactions.{read_lem}
use scalequeue.Delivery.Counters.{
  KeepsCounters, KeepsCounters-refl, map_where-KeepsCounters, EndsKeeping,
}

held-KeepsCounters :
    (j : Job) (f : ℕ → Job → Job) (now n : ℕ) (d e : Db)
    → ((row : Job) → (f now row).id ≡ row.id)
    → ((row : Job) → row.attempt_count ≤ (f now row).attempt_count)
    → update_held j f now d ≡ done (n, e)
    → KeepsCounters d.jobs e.jobs
held-KeepsCounters j f now n d e same more h =
    rw (← (read_lem h).1) (map_where-KeepsCounters (is_held j now) (f now) d.jobs same more)

owned-EndsKeeping :
    (n : ℕ) (jobs : List Job) (s : Session)
    → KeepsCounters jobs s.committed.jobs
    → EndsKeeping jobs (owned n s)
unfolding owned
owned-EndsKeeping n jobs s h = elim (Bool-cases (n == 1)) [
  | inl e ↦ rw e (record { holds = h })
  | inr e ↦ rw e (record { holds = h })
]

-- Outside a transaction.
pub renew-EndsKeeping :
    (lease : ℕ) (j : Job) (s : Session)
    → s.working ≡ none
    → EndsKeeping s.committed.jobs (renew lease j s)
unfolding renew renew_row
renew-EndsKeeping lease j s idle =
    let d = s.committed in
    let kept = KeepsCounters-refl d.jobs in
    let extended : (now n : ℕ) (w : Db)
        → update_held j (extend lease) now d ≡ done (n, w)
        → KeepsCounters d.jobs w.jobs =
      λ now n w e. held-KeepsCounters j (extend lease) now n d w (λ _. refl) (λ _. omega arith) e in
    Ends-releasing _
      (Ends-continue _ _
        (Ends-mono _ (λ _ t q. rw q kept) (λ _ t q. q) (get_connection-IsOutside s (refl, idle)))
        λ _ s1 h1.
          Ends-continue _ _
            (Ends-mono _
              (λ _ t q. elim q [
                | inl same ↦ rw same kept
                | inr (now, n, w, e, x) ↦ rw x (extended now n w e)
              ])
              (λ n t (now, w, e, x). rw (x.0) (extended now n w e))
              (statement-IsCommitted (update_held j (extend lease)) s1 h1))
            λ n s2 new. owned-EndsKeeping n d.jobs s2 new)
      (λ _ _ q. q) (λ _ _ q. q)

intend-jobs : (o : Option Job) (d e : Db) → intend o d ≡ done e → e.jobs ≡ d.jobs
unfolding insert_outbox
intend-jobs none d e h = ground arith
intend-jobs (some row) d e h = ground arith

module _ (j : Job) (status : JobStatus) (text : String) (delay : ℕ) where
  HasRetry-jobs : (w e : Db) → HasRetry j status text delay w e → e.jobs ≡ w.jobs
  HasRetry-jobs w e (inl (_, same)) = ap (λ x. x.jobs) same
  HasRetry-jobs w e (inr (_, made, _)) = intend-jobs (find_job j.id w) w e made

  IsFinished-KeepsCounters :
      (d e : Db) → IsFinished j status text delay d e → KeepsCounters d.jobs e.jobs
  IsFinished-KeepsCounters d e (a, b, _, _, retry) =
      rw (HasRetry-jobs (settled j status text delay a b d) e retry)
        (map_where-KeepsCounters (is_held j a) _ d.jobs (λ _. refl) (λ _. omega arith))

  pub finish-EndsKeeping :
      (s : Session) → EndsKeeping s.committed.jobs (finish j status text delay s)
  finish-EndsKeeping s =
      Ends-mono _
        (λ _ t q. elim q [
          | inl same ↦ rw same (KeepsCounters-refl s.committed.jobs)
          | inr all ↦ IsFinished-KeepsCounters s.committed t.committed all
        ])
        (λ _ t all. IsFinished-KeepsCounters s.committed t.committed all)
        (finish_atomic j status text delay s)
