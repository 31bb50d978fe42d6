-- ===== src/JobService/Create/Retry.antt =====
-- A request that is sent again with its idempotency key, after any fault of the first call of
-- `createJob` (api-service/src/services/jobService.ts).
use scalequeue.Common.{
  ℕ, ◌+◌, ◌≡◌, refl, sym, ◌∙◌, ◌⊎◌, inl, inr, String, Bool, true, false, Option, none, some, [],
  ◌∷◌, any, find?, count, is_some, if◌then◌else◌, arith, eq_refl, count-append, count-eq-zero,
  find?-append_last,
}
use scalequeue.Schema.{Job, Db}
use scalequeue.Schema.Tables.{has_id, has_key, find_job, same_key}
use scalequeue.Session.{Session, Result, ok, err}
use scalequeue.Session.Rules.{Ends, Ends-mono}
use scalequeue.Session.Calm.{IsCalm}
use scalequeue.Identity.Reordering.{SameJson, canonical-SameJson}
use scalequeue.JobService.{CreateJobInput, Platform}
use scalequeue.JobService.Create.{input_json, key_hash, request_hash, new_job, create_job}
use scalequeue.JobService.Create.Acceptance.{IsAccepted, Outcome, create_job_atomic}
use scalequeue.JobService.Create.Arrival.{IsNewId}
use scalequeue.JobService.Create.Idempotency.{create_job_accepts, create_job_known_key}

same_key_refl : (k : Option String) → is_some k ≡ true → same_key k k ≡ true
same_key_refl none h = cc
same_key_refl (some a) h = eq_refl a

-- The database `e` has one job of the key, `j`.
abbrev pub IsOnlyJob : Option String → Db → Job → Type 0
IsOnlyJob key e j = (count (has_key key) e.jobs ≡ 1) × (find? (has_key key) e.jobs ≡ some j)

chosen : {A : Type 0} (p : A → Bool) (j : A) → p j ≡ true → (if p j then some j else none) ≡ some j
chosen p j h = rw h

counted :
    {A : Type 0} (p : A → Bool) (j : A) (n : ℕ) → n ≡ 0 → p j ≡ true → n + count p (j ∷ []) ≡ 1
counted p j n z h = ground arith

module _ (id : String) (input : CreateJobInput) (key request : Option String) where
  database_after :
      (d : Db) (m : Result Job × Session)
      → Outcome id input key request d m
      → (m.1.committed ≡ d) ⊎ IsAccepted id input key request d m.1.committed
  database_after d (ok j, t) h = elim (h.holds) [ inl q ↦ inr (q.0) | inr q ↦ inl (q.1) ]
  database_after d (err e, t) h = elim (h.holds) [ inl q ↦ inl q | inr q ↦ inr (q.0) ]

  only_new :
      (d e : Db)
      → is_some key ≡ true
      → IsAccepted id input key request d e
      → (j : Job) × IsOnlyJob key e j × (j.request_hash ≡ request) × (find_job id e ≡ some j)
  only_new d e keyed (a, b, c, eq, fresh, free) =
      let j = new_job id input key request a in
      let mine : has_key key j ≡ true = same_key_refl key keyed in
      let none_before = count-eq-zero (has_key key) d.jobs free in
      (
        j,
        (
          rw eq (
              count-append (has_key key) d.jobs (j ∷ [])
              ∙ counted (has_key key) j _ none_before mine),
          rw eq (find?-append_last (has_key key) d.jobs j free ∙ chosen (has_key key) j mine),
        ),
        refl,
        rw eq (find?-append_last (has_id id) d.jobs j fresh ∙ chosen (has_id id) j (eq_refl id)),
      )

  accepted_IsOnlyJob :
      (d e : Db) (j : Job)
      → is_some key ≡ true
      → IsAccepted id input key request d e
      → find_job id e ≡ some j
      → IsOnlyJob key e j
  accepted_IsOnlyJob d e j keyed acc found =
      let (r, (one, first), _, mine) = only_new d e keyed acc in (one, first ∙ sym mine ∙ found)

module _ (platform : Platform) where
  request_hash-SameJson :
      (a b : CreateJobInput) (request_key : Option String)
      → SameJson (input_json a) (input_json b)
      → request_hash platform a request_key ≡ request_hash platform b request_key
  request_hash-SameJson a b request_key same = rw (canonical-SameJson same)

  -- A request with a key that no job has is sent, with any faults on the way, and sent again later
  -- with the same key and no fault; its JSON is the same up to the order of the keys of objects, at
  -- every depth. Whether the first call was accepted, was not, or failed after it had been, the
  -- second call returns a job, it is the job of the key, and there is exactly one.
  pub create_job_retry :
      (id id' : String) (input input' : CreateJobInput) (request_key : Option String)
      (s t : Session)
      → is_some (key_hash platform request_key) ≡ true
      → any (has_key (key_hash platform request_key)) s.committed.jobs ≡ false
      → SameJson (input_json input) (input_json input')
      → t.committed ≡ (create_job platform id input request_key s).1.committed
      → IsNewId id' t.committed
      → IsCalm t
      → Ends
          (λ _ _. ⊥)
          (λ j u. IsOnlyJob (key_hash platform request_key) u.committed j)
          (create_job platform id' input' request_key t)
  create_job_retry id id' input input' request_key s t keyed free same_input later new calm =
      let key = key_hash platform request_key in
      let request = request_hash platform input request_key in
      let hashes = request_hash-SameJson input input' request_key same_input in
      elim (database_after id input key request s.committed
        (create_job platform id input request_key s)
        (create_job_atomic platform id input request_key s)) [
          | inl same ↦
              Ends-mono _ (λ e u q. q)
                (λ j u (acc, found).
                  accepted_IsOnlyJob id' input' key (request_hash platform input' request_key) _ _ j
                    keyed acc found)
                (create_job_accepts platform id' input' request_key t new (rw (later ∙ same) free)
                  calm)
          | inr acc ↦
              let (r, (one, first), eq, _) = only_new id input key request _ _ keyed acc in
              Ends-mono _ (λ e u (_, ne, _). ne (eq ∙ hashes))
                (λ j u (x, _, y). rw (y, x, later) (one, first))
                (create_job_known_key platform id' input' request_key t r (rw later first) calm)
        ]
