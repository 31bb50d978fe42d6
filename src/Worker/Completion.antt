-- ===== src/Worker/Completion.antt =====
-- `ProcessJob` of worker-service/internal/worker/worker.go, where nothing is lost and the lease lasts.
use scalequeue.Common.{
  ℕ, zero, suc, ◌+◌, ◌<◌, ◌≡◌, refl, ◌∙◌, String, false, none, some, any, count,
}
use scalequeue.Schema.{Job, Db}
use scalequeue.Schema.Tables.{has_id, has_identity, find_job}
use scalequeue.Session.{Session, continue}
use scalequeue.Session.Rules.{Ends, Ends-continue, IsOutside}
use scalequeue.Session.Timely.{IsTimely, IsTimely-of}
use scalequeue.WorkerStore.Held.{IsLeased}
use scalequeue.WorkerStore.Claim.{claimed}
use scalequeue.WorkerStore.Claim.Liveness.{IsClaimable, IsClaimable-id, claim-IsTimely}
use scalequeue.WorkerStore.Lease.Liveness.{renew-IsTimely}
use scalequeue.WorkerStore.Lease.Completion.{IsCompleted, finish-IsTimely}
use scalequeue.Worker.{
  Outcome, Surroundings, Verdict, verdict, heartbeat, store_verdict, conclude, attempt, process_job,
}

-- The other sessions leave the job's row alone, add no second one, and no dispatch intent for it.
pub record IsBystander (id : String) (f : Db → Db) : Type 0 where
  pub same_row : (d : Db) → find_job id (f d) ≡ find_job id d
  pub same_count : (d : Db) → count (has_id id) (f d).jobs ≡ count (has_id id) d.jobs
  pub no_intent :
      (d : Db) (generation attempt : ℕ)
      → any (has_identity id generation attempt) d.outbox ≡ false
      → any (has_identity id generation attempt) (f d).outbox ≡ false

bystander-IsLeased :
    {j : Job} {high : ℕ} (f : Db → Db) (d : Db)
    → IsBystander j.id f
    → IsLeased j high d
    → IsLeased j high (f d)
bystander-IsLeased {j} f d b h = record {
  row = h.row;
  found = b.same_row d ∙ h.found;
  held = h.held;
  counted = h.counted;
  unique = b.same_count d ∙ h.unique;
  fresh = b.no_intent d j.generation (j.attempt_count + 1) h.fresh;
}

module _ {low high : ℕ} (lease : ℕ) where
  -- The lease lasts through the renewals.
  heartbeat-IsTimely :
      (j : Job) (others : ℕ → Db → Db) (n : ℕ) {d : Db} (s : Session)
      → high < low + lease
      → ((n : ℕ) → IsBystander j.id (others n))
      → IsLeased j high d
      → IsOutside d s
      → IsTimely low high s
      → Ends
          (λ _ _. ⊥)
          (λ _ t. (e : Db) × IsLeased j high e × IsOutside e t × IsTimely low high t)
          (heartbeat lease j others n s)
  unfolding heartbeat continue
  heartbeat-IsTimely j others zero {d} s long aside leased (c, o) h = record {
    holds = (
      others 0 s.committed,
      bystander-IsLeased (others 0) s.committed (aside 0) (rw c leased),
      (refl, o),
      IsTimely-of s _ refl refl h,
    );
  }
  heartbeat-IsTimely j others (suc n) {d} s long aside leased (c, o) h =
      Ends-continue _ _
        (renew-IsTimely j lease (record s { committed = others (suc n) s.committed }) long
          (bystander-IsLeased (others (suc n)) s.committed (aside (suc n)) (rw c leased)) (refl, o)
          (IsTimely-of s _ refl refl h))
        λ _ t (e, k, p, i). heartbeat-IsTimely j others n t long aside k p i

  module _ (handle : Job → Outcome) (around : Surroundings) (owner : String) where
    -- Where nothing is lost and all that is to come takes less time than the lease, `ProcessJob` of a
    -- job that can be claimed returns no error, and the verdict on its handler's outcome is stored,
    -- with the intent of the next attempt where there is to be one; with any number of renewals, and
    -- beside other sessions that leave this job alone.
    pub process_job-IsCompleted :
        (id : String) (generation : ℕ) (j : Job) (v : Verdict) {d : Db} (s : Session)
        → high < low + lease
        → ((n : ℕ) → IsBystander id (around.others n))
        → around.ctx_error ≡ none
        → verdict around.random (claimed owner j) (handle (claimed owner j)) ≡ some v
        → IsClaimable id generation j low d
        → IsOutside d s
        → IsTimely low high s
        → Ends
            (λ _ _. ⊥)
            (λ _ t.
              (e : Db) × IsCompleted (claimed owner j) v.status v.text v.delay low high e
              × IsOutside e t
              × IsTimely low high t)
            (process_job handle around lease owner id generation s)
    unfolding process_job attempt conclude store_verdict
    process_job-IsCompleted id generation j v {d} s long aside alive judged claimable o h =
        Ends-continue _ _ (claim-IsTimely lease owner id generation j s long claimable o h)
          λ r t (d1, (taken, leased), o1, h1). rw taken (
            Ends-continue _ _
              (heartbeat-IsTimely (claimed owner j) around.others around.beats t long
                (rw (IsClaimable-id id j d claimable) at aside) leased o1 h1)
              λ _ u (d2, held, o2, h2).
                rw (alive, judged)
                  (finish-IsTimely (claimed owner j) v.status v.text v.delay low high u held o2 h2))
