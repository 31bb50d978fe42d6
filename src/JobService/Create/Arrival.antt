-- ===== src/JobService/Create/Arrival.antt =====
-- A request to `createJob` of api-service/src/services/jobService.ts that is new, where no fault comes.
use scalequeue.Common.{
  ℕ, ◌≡◌, refl, sym, ◌∙◌, ap, String, true, false, Option, none, some, [], ◌∷◌, any, if◌then◌else◌,
  arith, eq_refl, any-append, find?-append_last,
}
use scalequeue.Schema.{JobStatus, Job, Db}
use scalequeue.Schema.Keys.{no_identity}
use scalequeue.Schema.Tables.{
  SqlCode, done, refused, has_id, has_key, of_job, has_identity, find_job, insert_job, insert_log,
  insert_outbox,
}
use scalequeue.Session.{Session}
use scalequeue.Session.Rules.{
  Ends, Ends-mono, Ends-recover, Ends-releasing, Ends-continue, IsInside,
}
use scalequeue.Session.Calm.{
  IsCalm, query-IsCalm, execute-IsCalm, get_connection-IsCalm, begin-IsCalm, commit-IsCalm,
}
use scalequeue.JobService.{CreateJobInput, or_throw, not_fetched}
use scalequeue.JobService.Create.{new_job, insert_all, accept, create_with}
use scalequeue.JobService.Create.Acceptance.{IsAccepted, insert_all_done}

-- No row mentions the id: the value of `randomUUID` is new.
abbrev pub IsNewId : String → Db → Type 0
IsNewId id d = (any (has_id id) d.jobs ≡ false) × (any (of_job id) d.outbox ≡ false)

module _ (id : String) (input : CreateJobInput) (key request : Option String) where
  insert_job_done :
      (a : ℕ) (d : Db) (c : SqlCode)
      → any (has_id id) d.jobs ≡ false
      → any (has_key key) d.jobs ≡ false
      → insert_job (new_job id input key request a) d ≡ refused c
      → ⊥
  unfolding insert_job
  insert_job_done a d c h k r = ground arith

  has_new :
      (a : ℕ) (d w : Db)
      → insert_job (new_job id input key request a) d ≡ done w
      → (any (has_id id) w.jobs ≡ true) × (w.outbox ≡ d.outbox)
  unfolding insert_job
  has_new a d w r =
      ground
        (arith, any-append (has_id id) d.jobs (new_job id input key request a ∷ []), eq_refl id)

  insert_log_done :
      (b : ℕ) (w : Db) (c : SqlCode)
      → any (has_id id) w.jobs ≡ true
      → insert_log id none JobStatus.pending "Job created" none b w ≡ refused c
      → ⊥
  unfolding insert_log
  insert_log_done b w c h r = ground arith

  log_keeps :
      (b : ℕ) (w x : Db)
      → insert_log id none JobStatus.pending "Job created" none b w ≡ done x
      → (x.jobs ≡ w.jobs) × (x.outbox ≡ w.outbox)
  unfolding insert_log
  log_keeps b w x r = ground arith

  insert_outbox_done :
      (t : ℕ) (x : Db) (c : SqlCode)
      → any (has_id id) x.jobs ≡ true
      → any (has_identity id 1 1) x.outbox ≡ false
      → insert_outbox id 1 1 t x ≡ refused c
      → ⊥
  unfolding insert_outbox
  insert_outbox_done t x c h k r = ground arith

  insert_all-IsCalm :
      {d : Db} (s : Session)
      → IsNewId id d
      → any (has_key key) d.jobs ≡ false
      → IsInside d d s
      → IsCalm s
      → Ends
          (λ _ _. ⊥)
          (λ _ t. (w : Db) × IsAccepted id input key request d w × IsInside d w t × IsCalm t)
          (insert_all id input key request s)
  unfolding insert_all
  insert_all-IsCalm {d} s new free h k =
      Ends-continue _ _
        (Ends-mono _ (λ e t (now, c, r, _, _, _). insert_job_done now d c (new.0) free r)
          (λ _ t q. q) (execute-IsCalm _ s h k))
        λ _ s1 (a, w, p, h1, k1).
          let (there, kept) = has_new a d w p in
          Ends-continue _ _
            (Ends-mono _ (λ e t (now, c, r, _, _, _). insert_log_done now w c there r) (λ _ t q. q)
              (execute-IsCalm _ s1 h1 k1))
            λ _ s2 (b, x, q, h2, k2).
              let (same, out) = log_keeps b w x q in
              Ends-mono _
                (λ e t (now, c, r, _, _, _).
                  insert_outbox_done now x c (ap (any (has_id id)) same ∙ there)
                    (ap (any (has_identity id 1 1)) (out ∙ kept)
                      ∙ no_identity id 1 1 d.outbox (new.1))
                    r)
                (λ _ t (c, y, r, h3, k3).
                  let (e, f, g) = insert_all_done id input key request a b c d w x y p q r in
                  (y, (a, b, c, e, f, g), h3, k3))
                (execute-IsCalm (λ now. insert_outbox id 1 1 now) s2 h2 k2)

  chosen : (j : Job) → has_id id j ≡ true → (if has_id id j then some j else none) ≡ some j
  chosen j h = rw h

  find_new : (d e : Db) → IsAccepted id input key request d e → (j : Job) × (find_job id e ≡ some j)
  find_new d e (a, b, c, eq, fresh, free) =
      let j = new_job id input key request a in
      (j, rw eq (find?-append_last (has_id id) d.jobs j fresh ∙ chosen j (eq_refl id)))

  return_created :
      (o : Option Job) (d : Db) (s : Session)
      → IsAccepted id input key request d s.committed
      → o ≡ find_job id s.committed
      → Ends
          (λ _ _. ⊥)
          (λ j t.
            IsAccepted id input key request d t.committed × (find_job id t.committed ≡ some j))
          (or_throw o not_fetched s)
  unfolding or_throw
  return_created none d s h e = let (j, q) = find_new d s.committed h in absurd (ground arith)
  return_created (some j) d s h e = record { holds = (h, sym e) }

  accept_calm :
      {d : Db} (s : Session)
      → IsNewId id d
      → any (has_key key) d.jobs ≡ false
      → s.committed ≡ d
      → IsCalm s
      → Ends
          (λ _ _. ⊥)
          (λ j t.
            IsAccepted id input key request d t.committed × (find_job id t.committed ≡ some j))
          (accept id input key request s)
  unfolding accept
  accept_calm s new free h k = Ends-continue _ _ (begin-IsCalm s h k) λ _ s1 (h1, k1).
      Ends-continue _ _ (insert_all-IsCalm s1 new free h1 k1) λ _ s2 (w, acc, h2, k2).
        Ends-continue _ _ (commit-IsCalm s2 h2 k2) λ _ s3 (h3, k3).
          Ends-continue _ _ (query-IsCalm (find_job id) s3 h3 k3)
            λ found s4 (eq, (same, _), k4). return_created found _ s4 (rw same acc) (rw same eq)

  -- A new request is accepted.
  pub create_calm :
      (s : Session)
      → IsNewId id s.committed
      → any (has_key key) s.committed.jobs ≡ false
      → IsCalm s
      → Ends
          (λ _ _. ⊥)
          (λ j t.
            IsAccepted id input key request s.committed t.committed
            × (find_job id t.committed ≡ some j))
          (create_with id input key request s)
  unfolding create_with
  create_calm s new free k = Ends-continue _ _ (get_connection-IsCalm s refl k) λ _ s1 (h1, k1).
      Ends-releasing _ (Ends-recover _ _ (accept_calm s1 new free h1 k1) (λ e t q. absurd q))
        (λ e t q. q) (λ j t q. q)
