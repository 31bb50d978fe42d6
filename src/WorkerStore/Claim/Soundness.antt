-- ===== src/WorkerStore/Claim/Soundness.antt =====
-- `Claim` of worker-service/internal/db/mysql.go, the outbox and the attempts.
use scalequeue.Common.{
  ◌+◌, ◌≤◌, leb, ◌&&◌, ltb, ℕ, ◌≡◌, refl, sym, ◌∙◌, String, Bool, true, false, Option, none, some,
  arith, eq_iff, find?-test, inr,
}
use scalequeue.Schema.{JobStatus, Job, Db}
use scalequeue.Schema.Tables.{has_id, find_job, insert_log, update_job, done}
use scalequeue.Session.{Session, pure, throw, execute, commit, ◌>>◌}
use scalequeue.Session.Rules.{Ends-continue, IsInside}
use scalequeue.WorkerStore.{busy, is_processing, is_after, audit}
use scalequeue.WorkerStore.Claim.{
  see, bury, take_over, give_up, start, spend, is_stale, decide, claim_rows, claim,
}
use scalequeue.WorkerStore.Rules.{with_rollback-EndsDb}
use scalequeue.Delivery.{is_open, IsSound}
use scalequeue.Delivery.References.{IsOnward, map_where-IsKeyed, map_where-AreBehind}
use scalequeue.Delivery.Statements.{map_where-IsCovered, map_where-IsBudgeted, insert_log-IsSound}
use scalequeue.Delivery.Api.{EndsSound}
use scalequeue.Delivery.Transactions.{
  begin_tx-EndsWith, statement-EndsWith, execute-EndsWith, commit-EndsWith, done_injective,
  same_job, read_lem, if-EndsSound,
}

-- An UPDATE of one job keeps the database sound where it opens the job only if it was open, in the
-- same generation.
update_job-IsSound :
    (id : String) (f : Job → Job) (d : Db)
    → ((j : Job) → (f j).id ≡ j.id)
    → ((j : Job)
        → find_job id d ≡ some j
        → is_open (f j).status ≡ true
        → (is_open j.status ≡ true) × ((f j).generation ≡ j.generation))
    → ((j : Job) → find_job id d ≡ some j → (f j).attempt_count ≤ (f j).max_retries + 1)
    → ((j : Job) → IsOnward j (f j))
    → IsSound d
    → IsSound (update_job id f d)
unfolding update_job
update_job-IsSound id f d same keep spends onward sound = record {
  covered =
      map_where-IsCovered (has_id id) f d.jobs d.outbox same
        (λ j k found q opened.
          let by_k : j.id ≡ k = (eq_iff j.id k).0 (find?-test (has_id k) d.jobs j found) in
          let by_id : j.id ≡ id = (eq_iff j.id id).0 q in
          keep j (rw (sym by_id ∙ by_k) found) opened)
        sound.covered;
  budgeted =
      map_where-IsBudgeted (has_id id) f d.jobs same
        (λ j k found q.
          let by_k : j.id ≡ k = (eq_iff j.id k).0 (find?-test (has_id k) d.jobs j found) in
          let by_id : j.id ≡ id = (eq_iff j.id id).0 q in spends j (rw (sym by_id ∙ by_k) found))
        sound.budgeted;
  numbered = sound.numbered;
  keyed = map_where-IsKeyed (has_id id) f d.jobs same sound.keyed;
  behind = map_where-AreBehind (has_id id) f d.jobs d.outbox same onward sound.behind;
}

-- An update that a transaction makes from its reading of the job.
abbrev Keeps : String → (Job → Job) → Db → Type 0
Keeps id f d =
    (j : Job)
    → find_job id d ≡ some j
    → is_open (f j).status ≡ true
    → (is_open j.status ≡ true) × ((f j).generation ≡ j.generation)

-- The update, its audit entry and the commit, as both branches of `Claim` make them.
recorded-EndsSound :
    (id : String) (f : ℕ → Job → Job) (from to : JobStatus) (text : String) (worker : Option String)
    (result : Option Job) {d w : Db} (s : Session)
    → ((now : ℕ) (j : Job) → (f now j).id ≡ j.id)
    → ((now : ℕ) → Keeps id (f now) w)
    → ((now : ℕ) (j : Job)
        → find_job id w ≡ some j
        → (f now j).attempt_count ≤ (f now j).max_retries + 1)
    → ((now : ℕ) (j : Job) → IsOnward j (f now j))
    → IsSound d
    → IsSound w
    → IsInside d w s
    → EndsSound (
        (do
          execute (λ now d. done (update_job id (f now) d))
          audit id from to text worker
          commit
          pure result)
          s)
recorded-EndsSound id f from to text worker result {d} {w} s same keep spends onward old new h =
    Ends-continue _ _
      (execute-EndsWith (λ now d. done (update_job id (f now) d)) s old
        (λ now w' e.
          rw (← done_injective e)
            (update_job-IsSound id (f now) w (same now) (keep now) (spends now) (onward now) new))
        h)
      λ _ s1 (w1, sound1, h1).
        Ends-continue _ _
          (execute-EndsWith (insert_log id (some from) to text worker) s1 old
            (λ now w' e. insert_log-IsSound id (some from) to text worker now w1 w' e sound1) h1)
          λ _ s2 (w2, sound2, h2).
            Ends-continue _ _ (commit-EndsWith s2 old sound2 h2) λ _ t q. record { holds = q }

attempt_left :
    (j : Job)
    → leb (j.max_retries + 1) j.attempt_count ≡ false
    → j.attempt_count + 1 ≤ j.max_retries + 1
attempt_left j h = ground arith

module _ (lease : ℕ) (id : String) (generation : ℕ) (owner : String) where
  spend-EndsSound :
      (b : Bool) (j : Job) {d : Db} (s : Session)
      → find_job id d ≡ some j
      → is_open j.status ≡ true
      → leb (j.max_retries + 1) j.attempt_count ≡ b
      → IsSound d
      → IsInside d d s
      → EndsSound (spend lease id generation owner b j s)
  unfolding spend give_up start
  spend-EndsSound true j s found opened full sound h =
      recorded-EndsSound id bury j.status JobStatus.dead _ (some owner) none s (λ now i. refl)
        (λ now i _ dead. cc) (λ now i again. sound.budgeted id i again)
        (λ now i. inr (refl, omega arith)) sound sound h
  spend-EndsSound false j s found opened full sound h =
      recorded-EndsSound id (take_over owner lease) j.status JobStatus.processing _ (some owner) _ s
        (λ now i. refl) (λ now i again _. (rw (same_job again found) opened, refl))
        (λ now i again. let same : i ≡ j = same_job again found in rw same (attempt_left j full))
        (λ now i. inr (refl, omega arith)) sound sound h

  decide-EndsSound :
      (now : ℕ) (o : Option Job) {d : Db} (s : Session)
      → o ≡ find_job id d
      → IsSound d
      → IsInside d d s
      → EndsSound (decide lease id generation owner (see now o) s)
  unfolding decide
  decide-EndsSound now none s e sound h = record { holds = rw (h.0) sound }
  decide-EndsSound now (some j) {d} s e sound h =
      if-EndsSound (is_stale generation j) (pure none) _ s (λ _. record { holds = rw (h.0) sound })
        λ live.
          if-EndsSound (is_processing j.status && is_after j.lease_until now) (throw busy) _ s
            (λ _. record { holds = rw (h.0) sound })
            λ _.
              if-EndsSound (ltb now j.next_attempt_at) (pure none) _ s
                (λ _. record { holds = rw (h.0) sound })
                λ _. spend-EndsSound _ j s (sym e) (ground arith) refl sound h

  claim_rows-EndsSound :
      (s : Session) → IsSound s.committed → EndsSound (claim_rows lease id generation owner s)
  unfolding claim_rows
  claim_rows-EndsSound s sound = Ends-continue _ _ (begin_tx-EndsWith s sound refl) λ _ s1 h1.
      Ends-continue _ _
        (statement-EndsWith (λ now d. done ((see now (find_job id d), d))) s1 sound h1)
        λ found s2 (now, w, e, h2).
          let (same, unchanged) = read_lem e in
          rw (← same) (decide-EndsSound now _ s2 refl sound (rw (← unchanged) at h2))

  pub claim-IsSound :
      (s : Session) → IsSound s.committed → EndsSound (claim lease id generation owner s)
  unfolding claim
  claim-IsSound s sound =
      with_rollback-EndsDb (λ _ d. IsSound d) (λ _ d. IsSound d) _ (claim_rows-EndsSound s sound)
