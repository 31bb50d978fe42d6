-- ===== src/Consumer/Completion.antt =====
-- A delivery of worker-service/internal/queue/consumer.go whose job is carried out.
use scalequeue.Common.{ℕ, ◌+◌, ◌^◌, ◌≤◌, ◌<◌, ◌≡◌, ◌≢◌, refl, String, none, some}
use scalequeue.Schema.{Job, Db}
use scalequeue.Session.{Session, Result, ok, err}
use scalequeue.Session.Rules.{Ends, IsOutside}
use scalequeue.Session.Timely.{IsTimely}
use scalequeue.WorkerStore.Claim.{claimed}
use scalequeue.WorkerStore.Claim.Liveness.{IsClaimable}
use scalequeue.WorkerStore.Lease.Completion.{IsCompleted}
use scalequeue.Worker.{Outcome, Surroundings, Verdict, verdict}
use scalequeue.Worker.Completion.{IsBystander, process_job-IsCompleted}
use scalequeue.Consumer.{Delivery, acknowledged, settle_delivery, published, handle, handle_read}
use scalequeue.Consumer.Deliveries.{read-published}
use scalequeue.Common.{⊤}

-- The delivery is acknowledged, and `P` holds of the database that it leaves.
abbrev pub IsDone : (Db → Type 0) → Delivery × Session → Type 0
IsDone P r = (r.0 ≡ acknowledged) × P r.1.committed

settle_delivery-IsDone :
    {Q : Session → Type 0} (P : Db → Type 0) (r : Result ⊤ × Session)
    → ((t : Session) → Q t → P t.committed)
    → Ends (λ _ _. ⊥) (λ _ t. Q t) r
    → IsDone P (settle_delivery r)
unfolding settle_delivery
settle_delivery-IsDone P (ok a, t) weaken h = (refl, weaken t h.holds)
settle_delivery-IsDone P (err x, t) weaken h = absurd h.holds

-- Where nothing is lost and all that is to come takes less time than the lease, the delivery that
-- the dispatcher published for a job that can be claimed is acknowledged, and its outcome is stored,
-- with the intent of the next attempt where there is to be one: with any handler that ends, any
-- number of renewals, and beside other sessions that leave this job alone.
pub handle-IsCompleted :
    (run : Job → Outcome) (around : Surroundings) (lease : ℕ) (owner : String) {low high : ℕ}
    (id : String) (generation : ℕ) (j : Job) (v : Verdict) {d : Db} (s : Session)
    → id ≢ ""
    → 1 ≤ generation
    → generation < 2 ^ 63
    → high < low + lease
    → ((n : ℕ) → IsBystander id (around.others n))
    → around.ctx_error ≡ none
    → verdict around.random (claimed owner j) (run (claimed owner j)) ≡ some v
    → IsClaimable id generation j low d
    → IsOutside d s
    → IsTimely low high s
    → IsDone
        (λ e. IsCompleted (claimed owner j) v.status v.text v.delay low high e)
        (handle run around lease owner (published id generation) s)
unfolding handle handle_read
handle-IsCompleted run around lease owner {low} {high} id generation j v s named positive bounded
      long aside alive judged claimable o h =
    rw (read-published id generation named positive bounded) (
      settle_delivery-IsDone (λ e. IsCompleted (claimed owner j) v.status v.text v.delay low high e)
        _ (λ t (e, k, p, _). rw (p.0) k)
        (process_job-IsCompleted lease run around owner id generation j v s long aside alive judged
          claimable o h))
