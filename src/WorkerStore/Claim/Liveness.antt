-- ===== src/WorkerStore/Claim/Liveness.antt =====
-- `Claim` of worker-service/internal/db/mysql.go, where nothing is lost.
use scalequeue.Common.{
  ℕ, ltb, ◌+◌, ◌≤◌, ◌<◌, ◌≡◌, refl, sym, ap, ◌∙◌, ◌⊎◌, inl, inr, String, false, ◌&&◌, some, any,
  count, arith, count-map_where, find?-of-map_where, eq_iff, eq_refl, find?-test, leb,
}
use scalequeue.Schema.{JobStatus, Job, Db}
use scalequeue.Schema.Tables.{has_id, has_identity, find_job, update_job}
use scalequeue.Session.{Session}
use scalequeue.Session.Rules.{Ends, Ends-continue, IsInside, IsOutside}
use scalequeue.Session.Timely.{IsTimely, statement-IsInside-IsTimely, commit-IsTimely}
use scalequeue.WorkerStore.{is_after, is_processing}
use scalequeue.WorkerStore.Held.{
  IsLeased, IsLeased-of, audit-IsTimely, begin_tx-IsTimely, with_rollback-IsTimely,
}
use scalequeue.WorkerStore.Claim.{
  see, take_over, claimed, is_final, is_stale, start, spend, decide, claim_rows, claim,
}

-- The row `j` of the id can be claimed at `low`: it is of the generation, neither settled nor under a
-- lease, due, and has an attempt left; no other row has the id, and the attempt after this one has
-- no dispatch intent yet.
pub record IsClaimable (id : String) (generation : ℕ) (j : Job) (low : ℕ) (d : Db) : Type 0 where
  pub found : find_job id d ≡ some j
  pub current : j.generation ≡ generation
  pub unsettled : is_final j.status ≡ false
  pub idle : (is_processing j.status ≡ false) ⊎ (is_after j.lease_until low ≡ false)
  pub due : j.next_attempt_at ≤ low
  pub left : j.attempt_count ≤ j.max_retries
  pub unique : count (has_id id) d.jobs ≡ 1
  pub fresh : any (has_identity id generation (j.attempt_count + 2)) d.outbox ≡ false

pub IsClaimable-id :
    (id : String) {generation : ℕ} (j : Job) {low : ℕ} (d : Db)
    → IsClaimable id generation j low d
    → id ≡ j.id
IsClaimable-id id j d h = sym ((eq_iff j.id id).0 (find?-test (has_id id) d.jobs j h.found))

-- A lease that has expired stays expired.
not_active :
    {low : ℕ} (now : ℕ) (j : Job)
    → low ≤ now
    → (is_processing j.status ≡ false) ⊎ (is_after j.lease_until low ≡ false)
    → (is_processing j.status && is_after j.lease_until now) ≡ false
not_active now j after (inl e) = rw e refl
not_active now j after (inr e) = ground arith

module _ {low high : ℕ} (lease : ℕ) (owner : String) where
  -- Taking the row over starts a lease that lasts longer than what is to come.
  take_over-IsLeased :
      (now : ℕ) (j : Job) (d : Db)
      → low ≤ now
      → high < low + lease
      → IsClaimable j.id j.generation j low d
      → IsLeased (claimed owner j) high (update_job j.id (take_over owner lease now) d)
  unfolding update_job
  take_over-IsLeased now j d a long h =
      let next : j.attempt_count + 1 + 1 ≡ j.attempt_count + 2 = omega arith in
      record {
        row = take_over owner lease now j;
        found =
            find?-of-map_where (has_id j.id) (has_id j.id) (take_over owner lease now) d.jobs j
              (λ x. refl) h.found (eq_refl j.id);
        held = ground (arith, eq_refl j.id, eq_refl owner);
        counted = refl;
        unique =
            count-map_where (has_id j.id) (has_id j.id) (take_over owner lease now) d.jobs
              (λ x. refl)
            ∙ h.unique;
        fresh = rw next h.fresh;
      }

  start-IsTimely :
      (j : Job) {d w : Db} (s : Session)
      → high < low + lease
      → IsClaimable j.id j.generation j low w
      → IsInside d w s
      → IsTimely low high s
      → Ends
          (λ _ _. ⊥)
          (λ r t.
            (e : Db) × ((r ≡ some (claimed owner j)) × IsLeased (claimed owner j) high e)
            × IsOutside e t
            × IsTimely low high t)
          (start lease j.id j.generation owner j s)
  unfolding start
  start-IsTimely j {w} s long claimable o h =
      Ends-continue _ _
        (statement-IsInside-IsTimely {low = low} {high = high} _
          (λ _ e. IsLeased (claimed owner j) high e) s o h
          λ now a b. (tt, _, refl, take_over-IsLeased now j w a long claimable))
        λ _ t (w1, leased, o1, h1).
          Ends-continue _ _
            (audit-IsTimely j.id j.status JobStatus.processing "Attempt claimed" (some owner)
              leased.row t leased.found o1 h1)
            λ _ u (w2, (jobs, outbox), o2, h2).
              Ends-continue _ _ (commit-IsTimely u o2 h2) λ _ v (o3, h3). record {
                holds = (w2, (refl, IsLeased-of w1 w2 jobs outbox leased), o3, h3);
              }

  -- The row that a claim can take passes every check.
  decide-IsTimely :
      (now : ℕ) (j : Job) {d w : Db} (s : Session)
      → low ≤ now
      → high < low + lease
      → IsClaimable j.id j.generation j low w
      → IsInside d w s
      → IsTimely low high s
      → Ends
          (λ _ _. ⊥)
          (λ r t.
            (e : Db) × ((r ≡ some (claimed owner j)) × IsLeased (claimed owner j) high e)
            × IsOutside e t
            × IsTimely low high t)
          (decide lease j.id j.generation owner (see now (some j)) s)
  unfolding decide spend
  decide-IsTimely now j {w} s after long claimable o h =
      let stale : is_stale j.generation j ≡ false = ground (arith, claimable.unsettled) in
      let active : (is_processing j.status && is_after j.lease_until now) ≡ false =
        not_active now j after claimable.idle in
      let early : ltb now j.next_attempt_at ≡ false = ground (arith, claimable.due) in
      let spent : leb (j.max_retries + 1) j.attempt_count ≡ false =
        ground (arith, claimable.left) in
      rw stale (rw active (rw early (rw spent (start-IsTimely j s long claimable o h))))

  claim_row-IsTimely :
      (j : Job) {d : Db} (s : Session)
      → high < low + lease
      → IsClaimable j.id j.generation j low d
      → IsOutside d s
      → IsTimely low high s
      → Ends
          (λ _ _. ⊥)
          (λ r t.
            (e : Db) × ((r ≡ some (claimed owner j)) × IsLeased (claimed owner j) high e)
            × IsOutside e t
            × IsTimely low high t)
          (claim lease j.id j.generation owner s)
  unfolding claim claim_rows
  claim_row-IsTimely j {d} s long claimable o h = with_rollback-IsTimely _ _ (
      Ends-continue _ _ (begin_tx-IsTimely s o h) λ _ t (o1, h1).
        Ends-continue _ _
          (statement-IsInside-IsTimely {low = low} {high = high} _
            (λ r e. (e ≡ d) × ((now : ℕ) × (low ≤ now) × (r ≡ see now (some j)))) t o1 h1
            λ now a b. (_, _, refl, (refl, (now, a, ap (see now) claimable.found))))
          λ r u (w, (same, (now, a, seen)), o2, h2).
            rw seen (decide-IsTimely now j u a long (rw same claimable) o2 h2))

  -- A claimable job is claimed, for longer than what is to come takes.
  pub claim-IsTimely :
      (id : String) (generation : ℕ) (j : Job) {d : Db} (s : Session)
      → high < low + lease
      → IsClaimable id generation j low d
      → IsOutside d s
      → IsTimely low high s
      → Ends
          (λ _ _. ⊥)
          (λ r t.
            (e : Db) × ((r ≡ some (claimed owner j)) × IsLeased (claimed owner j) high e)
            × IsOutside e t
            × IsTimely low high t)
          (claim lease id generation owner s)
  claim-IsTimely id generation j {d} s long claimable o h =
      let same = IsClaimable-id id j d claimable in
      rw (same, sym claimable.current)
        (claim_row-IsTimely j s long (rw (same, sym claimable.current) at claimable) o h)
