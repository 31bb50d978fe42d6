-- ===== src/JobService/Create/Idempotency.antt =====
-- The idempotency key of `createJob`, api-service/src/services/jobService.ts: what a call does where
-- no fault comes, by what is known of its key, and what a repeated request does after any fault.
use scalequeue.Common.{
  ℕ, ◌≡◌, refl, ◌∙◌, ap, ◌≢◌, inl, inr, String, true, false, Option, none, some, any, find?, arith,
  Bool-cases, eq_iff, any-of-find?, find?-test,
}
use scalequeue.Schema.{Job, Db}
use scalequeue.Schema.Tables.{SqlCode, dup_entry, done, refused, has_key, find_job, insert_job}
use scalequeue.Session.{Error, sql, Session, Result}
use scalequeue.Session.Rules.{Ends, Ends-mono, Ends-recover, Ends-releasing, Ends-continue}
use scalequeue.Session.Calm.{
  IsCalm, query-IsCalm, execute-IsCalm, get_connection-IsCalm, begin-IsCalm, rollback-IsCalm,
}
use scalequeue.JobService.{CreateJobInput, Platform, conflict, differs}
use scalequeue.JobService.Create.{
  key_hash, request_hash, new_job, insert_all, accept, resolve, is_duplicate, after_rollback,
  explain, create_with, create_job,
}
use scalequeue.JobService.Create.Arrival.{IsNewId, create_calm}
use scalequeue.JobService.Create.Acceptance.{IsAccepted}

not-differs : (a b : Option String) → differs a b ≡ false → a ≡ b
not-differs none none h = refl
not-differs none (some b) h = cc
not-differs (some a) none h = cc
not-differs (some a) (some b) h = ground (arith, eq_iff a b)

differs-ne : (a b : Option String) → differs a b ≡ true → a ≢ b
differs-ne none none h e = cc
differs-ne none (some b) h e = cc
differs-ne (some a) none h e = cc
differs-ne (some a) (some b) h e = ground (arith, eq_iff a b)

module _ (id : String) (input : CreateJobInput) (key request : Option String) where
  taken_refused :
      (a : ℕ) (d w : Db)
      → any (has_key key) d.jobs ≡ true
      → insert_job (new_job id input key request a) d ≡ done w
      → ⊥
  unfolding insert_job
  taken_refused a d w k r = ground arith

  taken_code :
      (a : ℕ) (d : Db) (c : SqlCode)
      → any (has_key key) d.jobs ≡ true
      → insert_job (new_job id input key request a) d ≡ refused c
      → c ≡ dup_entry
  unfolding insert_job
  taken_code a d c k r = ground arith

  -- The transaction of a request whose key is taken fails at its first statement.
  accept_taken :
      {d : Db} (s : Session)
      → any (has_key key) d.jobs ≡ true
      → s.committed ≡ d
      → IsCalm s
      → Ends
          (λ e t. (e ≡ sql dup_entry) × (t.committed ≡ d) × IsCalm t)
          (λ _ _. ⊥)
          (accept id input key request s)
  unfolding accept insert_all
  accept_taken {d} s taken h k =
      Ends-continue _ _ (Ends-mono _ (λ e t q. absurd q) (λ _ t q. q) (begin-IsCalm s h k))
        λ _ s1 (h1, k1).
          Ends-continue _ _
            (Ends-continue _ _
              (Ends-mono _
                (λ e t (now, c, r, x, (q, _), z). (x ∙ ap sql (taken_code now d c taken r), q, z))
                (λ _ t (now, w, r, _, _). taken_refused now d w taken r)
                (execute-IsCalm _ s1 h1 k1))
              λ _ s2 q. absurd q)
            λ _ s3 q. absurd q

  duplicate_known : (r : Job) → has_key key r ≡ true → is_duplicate key (sql dup_entry) ≡ true
  unfolding is_duplicate
  duplicate_known r h = ground arith

  -- How a request with a known key ends: `r` is the job of the key in `d`.
  abbrev pub KnownOutcome : Db → Job → Result Job × Session → Type 0
  KnownOutcome d r =
      Ends (λ e t. (e ≡ conflict) × (r.request_hash ≢ request) × (t.committed ≡ d))
        (λ j t. (j ≡ r) × (r.request_hash ≡ request) × (t.committed ≡ d))

  resolve_known :
      (r : Job) {d : Db} (e : Error) (s : Session)
      → s.committed ≡ d
      → KnownOutcome d r (resolve (some r) request e s)
  unfolding resolve
  resolve_known r e s h = elim (Bool-cases (differs r.request_hash request)) [
    | inl x ↦ rw x (record { holds = (refl, differs-ne _ _ x, h) })
    | inr x ↦ rw x (record { holds = (refl, not-differs _ _ x, h) })
  ]

  resolve_found :
      (o : Option Job) (r : Job) {d : Db} (e : Error) (s : Session)
      → o ≡ some r
      → s.committed ≡ d
      → KnownOutcome d r (resolve o request e s)
  resolve_found o r e s eq h = rw eq (resolve_known r e s h)

  explain_known :
      (r : Job) {d : Db} (e : Error) (s : Session)
      → find? (has_key key) d.jobs ≡ some r
      → e ≡ sql dup_entry
      → s.committed ≡ d
      → IsCalm s
      → KnownOutcome d r (explain key request e s)
  unfolding explain after_rollback
  explain_known r {d} e s known dup h k =
      Ends-continue _ _ (Ends-mono _ (λ e t q. absurd q) (λ _ t q. q) (rollback-IsCalm s h k))
        λ _ s1 (h1, k1).
          rw (dup, duplicate_known r (find?-test (has_key key) d.jobs r known))
            (Ends-continue _ _
              (Ends-mono _ (λ e t q. absurd q) (λ _ t q. q)
                (query-IsCalm (λ d. find? (has_key key) d.jobs) s1 h1 k1))
              λ rows s2 (eq, (same, _), _).
                resolve_found rows r (sql dup_entry) s2 (eq ∙ known) same)

  create_known :
      (s : Session) (r : Job)
      → find? (has_key key) s.committed.jobs ≡ some r
      → IsCalm s
      → KnownOutcome s.committed r (create_with id input key request s)
  unfolding create_with
  create_known s r known k =
      Ends-continue _ _
        (Ends-mono _ (λ e t q. absurd q) (λ _ t q. q) (get_connection-IsCalm s refl k))
        λ _ s1 (h1, k1).
          Ends-releasing _
            (Ends-recover _ _
              (Ends-mono _ (λ e t q. q) (λ j t q. absurd q)
                (accept_taken s1 (any-of-find? (has_key key) s.committed.jobs r known) h1 k1))
              (λ e s2 (x, q, z). explain_known r e s2 known x q z))
            (λ e t q. q) (λ j t q. q)

module _ (platform : Platform) where
  -- Without a fault to come, a request whose id is new and whose key is absent or unknown is
  -- accepted: `createJob` returns the row of its id, and the job, its audit entry and its first
  -- dispatch intent have been added.
  pub create_job_accepts :
      (id : String) (input : CreateJobInput) (request_key : Option String) (s : Session)
      → IsNewId id s.committed
      → any (has_key (key_hash platform request_key)) s.committed.jobs ≡ false
      → IsCalm s
      → Ends
          (λ _ _. ⊥)
          (λ j t.
            IsAccepted id input
              (key_hash platform request_key)
              (request_hash platform input request_key)
              s.committed
              t.committed
            × (find_job id t.committed ≡ some j))
          (create_job platform id input request_key s)
  unfolding create_job
  create_job_accepts id input request_key s new free k = create_calm id input _ _ s new free k

  -- Without a fault to come, a request whose key is known changes nothing. It returns the job of
  -- the key if that job's request hash is the request's, and throws IDEMPOTENCY_CONFLICT if not.
  pub create_job_known_key :
      (id : String) (input : CreateJobInput) (request_key : Option String) (s : Session) (r : Job)
      → find? (has_key (key_hash platform request_key)) s.committed.jobs ≡ some r
      → IsCalm s
      → KnownOutcome id input
          (key_hash platform request_key)
          (request_hash platform input request_key)
          s.committed
          r
          (create_job platform id input request_key s)
  unfolding create_job
  create_job_known_key id input request_key s r known k = create_known id input _ _ s r known k
