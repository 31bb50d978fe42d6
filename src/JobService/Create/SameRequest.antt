-- ===== src/JobService/Create/SameRequest.antt =====
-- What a repeated idempotency key means for `createJob`, api-service/src/services/jobService.ts, with
-- the request identity of api-service/src/services/identity.ts.
use mathlib.Core.Option
use scalequeue.Common.{
  ℕ, zero, suc, ◌/◌, ◌%◌, ◌<◌, ◌≡◌, refl, sym, ◌∙◌, ap, String, true, Option, some, [], find?, inl,
  inr, ltb, Bool-cases, arith,
}
use scalequeue.Schema.{Job}
use scalequeue.Schema.Tables.{has_key}
use scalequeue.Session.{Session}
use scalequeue.Session.Calm.{IsCalm}
use scalequeue.Session.Rules.{Ends, Ends-mono}
use scalequeue.Identity.{Text, canonical, decimal, decimal_from}
use scalequeue.Identity.Reading.{is_numeral, is_numeral_rest, has_numerals, fields_have_numerals}
use scalequeue.Identity.Reordering.{SameJson}
use scalequeue.Identity.Normal.Faithful.{canonical_faithful}
use scalequeue.Http.Numbers.{StartsWithDigit, decimal_from-StartsWithDigit}
use scalequeue.JobService.{CreateJobInput, Platform, truthy, conflict}
use scalequeue.JobService.Create.{input_json, key_hash, request_hash, create_job}
use scalequeue.JobService.Create.Idempotency.{create_job_known_key}

decimal_from-is_numeral_rest :
    (fuel n : ℕ) (s : Text)
    → is_numeral_rest s ≡ true
    → is_numeral_rest (decimal_from fuel n s) ≡ true
unfolding decimal_from
decimal_from-is_numeral_rest zero n s h = h
decimal_from-is_numeral_rest (suc fuel) n s h = elim (Bool-cases (ltb n 10)) [
  | inl small ↦ rw small (ground arith)
  | inr large ↦
      let last : n % 10 < 10 = omega arith in
      rw large (decimal_from-is_numeral_rest fuel (n / 10) _ (ground arith))
]

digits-is_numeral : (t : Text) → StartsWithDigit t → is_numeral_rest t ≡ true → is_numeral t ≡ true
unfolding StartsWithDigit
digits-is_numeral t (k, s, small, e) h = rw e (rw e at h)

decimal-is_numeral : (n : ℕ) → is_numeral (decimal n) ≡ true
unfolding decimal
decimal-is_numeral n =
    digits-is_numeral _ (decimal_from-StartsWithDigit (suc n) n [] (omega arith))
      (decimal_from-is_numeral_rest (suc n) n [] refl)

input_json-has_numerals :
    (input : CreateJobInput)
    → fields_have_numerals input.payload ≡ true
    → has_numerals (input_json input) ≡ true
unfolding has_numerals
input_json-has_numerals input h =
    rw (h, decimal-is_numeral input.max_retries, decimal-is_numeral input.priority) refl

-- SHA-256 tells the canonical texts of the two requests apart where they differ.
abbrev pub TellsApart : Platform → CreateJobInput → CreateJobInput → Type 0
TellsApart platform first input =
    platform.digest (canonical (input_json first)) ≡ platform.digest (canonical (input_json input))
    → canonical (input_json first) ≡ canonical (input_json input)

-- The two requests have the same body, up to the order of objects' keys.
abbrev pub IsSameBody : CreateJobInput → CreateJobInput → Type 0
IsSameBody first input = SameJson (input_json first) (input_json input)

module _ (platform : Platform) (first input : CreateJobInput) (request_key : Option String) where
  hashes_agree :
      (k : String)
      → truthy request_key ≡ some k
      → TellsApart platform first input
      → fields_have_numerals first.payload ≡ true
      → fields_have_numerals input.payload ≡ true
      → request_hash platform first request_key ≡ request_hash platform input request_key
      → IsSameBody first input
  hashes_agree k keyed apart a b same =
      (canonical_faithful (input_json first) (input_json input) (input_json-has_numerals first a)
          (input_json-has_numerals input b)).0
        (apart (digests (rw keyed at same)))
    where
      digests : {x y : String} → some x ≡ some y → x ≡ y
      digests h = cc

  bodies_agree :
      fields_have_numerals first.payload ≡ true
      → fields_have_numerals input.payload ≡ true
      → IsSameBody first input
      → request_hash platform first request_key ≡ request_hash platform input request_key
  bodies_agree a b same =
      ap (λ t. Option.map (λ _. platform.digest t) (truthy request_key))
        ((canonical_faithful (input_json first) (input_json input) (input_json-has_numerals first a)
            (input_json-has_numerals input b)).1
          same)

  -- A known idempotency key stands for one request. Without a fault to come, where the job of the
  -- key was made for the request `first`, a request with the key returns that job exactly when its
  -- body is that of `first` up to the order of objects' keys, and throws IDEMPOTENCY_CONFLICT
  -- exactly when it is not; nothing changes. SHA-256 is taken to tell the two canonical texts
  -- apart.
  pub create_job_same_request :
      (id k : String) (s : Session) (r : Job)
      → truthy request_key ≡ some k
      → find? (has_key (key_hash platform request_key)) s.committed.jobs ≡ some r
      → r.request_hash ≡ request_hash platform first request_key
      → TellsApart platform first input
      → fields_have_numerals first.payload ≡ true
      → fields_have_numerals input.payload ≡ true
      → IsCalm s
      → Ends
          (λ e t. (e ≡ conflict) × (¬ IsSameBody first input) × (t.committed ≡ s.committed))
          (λ j t. (j ≡ r) × IsSameBody first input × (t.committed ≡ s.committed))
          (create_job platform id input request_key s)
  create_job_same_request id k s r keyed known made apart a b calm =
      Ends-mono _ (λ e t (x, differs, q). (x, (λ same. differs (made ∙ bodies_agree a b same)), q))
        (λ j t (x, same, q). (x, hashes_agree k keyed apart a b (sym made ∙ same), q))
        (create_job_known_key platform id input request_key s r known calm)
