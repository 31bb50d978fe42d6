-- ===== src/Worker/Verdicts.antt =====
-- How `ProcessJob` of worker-service/internal/worker/worker.go judges a failure.
use scalequeue.Common.{
  ℕ, ◌/◌, ◌≤◌, ◌<◌, ◌≡◌, refl, ◌⊎◌, inl, inr, String, Bool, true, false, ◌||◌, some, arith,
  Bool-cases, if◌then◌else◌,
}
use scalequeue.Schema.{JobStatus, Job}
use scalequeue.Backoff.{pos, ideal_cap, exponential_delay_bounded}
use scalequeue.Worker.{failed, Verdict, verdict, is_last}

-- The job is DEAD where the failure is permanent or was the last attempt, and PENDING otherwise.
abbrev pub IsJudged : Job → Bool → JobStatus → Type 0
IsJudged j permanent status =
    (((permanent ≡ true) ⊎ (j.max_retries < j.attempt_count)) × (status ≡ JobStatus.dead))
    ⊎ ((permanent ≡ false) × (j.attempt_count ≤ j.max_retries) × (status ≡ JobStatus.pending))

-- The delay, in microseconds, follows the retries of the job.
abbrev pub IsDelay : Job → ℕ → Type 0
IsDelay j delay =
    let cap = ideal_cap (pos j.retry_count) in (cap / 2 / 1000 ≤ delay) × (delay ≤ cap / 1000)

judged :
    (j : Job) (permanent : Bool)
    → IsJudged j permanent (if permanent || is_last j then JobStatus.dead else JobStatus.pending)
judged j true = inl (inl refl, refl)
judged j false = elim (Bool-cases (is_last j)) [
  | inl e ↦ rw e (inl (inr (ground arith), refl))
  | inr e ↦ rw e (inr (refl, ground arith, refl))
]

-- A failed attempt has a verdict: it keeps the failure's message, it is DEAD where the failure is
-- permanent or the attempts are used up and PENDING otherwise, and its delay is between half of a
-- cap and the cap, which doubles with the job's retries from two seconds and stops at five minutes.
pub verdict_lem :
    (random : ℕ → ℕ) (j : Job) (text : String) (permanent : Bool)
    → ((n : ℕ) → 0 < n → random n < n)
    → (v : Verdict) × (verdict random j (failed text permanent) ≡ some v)
      × (v.text ≡ text)
      × IsJudged j permanent v.status
      × IsDelay j v.delay
unfolding verdict
verdict_lem random j text permanent below =
    let (n, e, low, high) = exponential_delay_bounded random (pos j.retry_count) below in
    (
      record {
        status = if permanent || is_last j then JobStatus.dead else JobStatus.pending;
        text = text;
        delay = n / 1000;
      },
      rw e refl,
      refl,
      judged j permanent,
      (omega arith, omega arith),
    )
