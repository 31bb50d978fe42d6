-- ===== src/Tests/Pool.antt =====
-- The theorems on the worker's settings and its pool at concrete inputs.
use scalequeue.Common.{
  ℕ, ◌≡◌, refl, String, false, Option, none, some, List, [], ◌∷◌, arith, str_eq, if◌then◌else◌,
}
use scalequeue.Backoff.{ℤ, pos}
use scalequeue.Delivery.History.{connect}
use scalequeue.WorkerConfig.{
  DurationKey, lease_duration, recovery_interval_key, recovery_idle_key, shutdown_timeout_key,
  job_timeout_key, load,
}
use scalequeue.WorkerConfig.Validity.{IsJudged, load_lem}
use scalequeue.Pool.{Round, relay}
use scalequeue.Pool.Relay.{IsReturned, relay_returns}
use scalequeue.Pool.Names.{worker_name_injective}
use scalequeue.Tests.Data.{demo}
use scalequeue.Session.{Session}
use scalequeue.Tests.Worker.{publish_nothing, after_create, after_create-IsAtRest}

abbrev variables : String → String
variables k =
    if str_eq k "REDIS_URL" then "redis://redis" else if str_eq k "MYSQL_URL" then "mysql" else ""

-- The durations of the defaults.
abbrev seconds_of : String → Option ℤ
seconds_of s =
    if str_eq s "30s"
    then some (pos 30000000000)
    else if str_eq s "25s"
    then some (pos 25000000000)
    else if str_eq s "5s"
    then some (pos 5000000000)
    else if str_eq s "2m"
    then some (pos 120000000000)
    else none

abbrev some_order : List DurationKey
some_order =
    job_timeout_key ∷ lease_duration ∷ recovery_idle_key ∷ shutdown_timeout_key
    ∷ recovery_interval_key ∷ []

load_lem_example : IsJudged variables seconds_of (load variables seconds_of some_order)
load_lem_example = load_lem variables seconds_of some_order λ k. ground arith

abbrev round : ℕ → Round
round n = record { others = λ d. d; skipped = λ m. false; stopped = false }

relay_returns_example :
    IsReturned demo publish_nothing
      (relay 3 publish_nothing 4 round 0 (connect after_create 2000000 []))
relay_returns_example =
    relay_returns demo publish_nothing 3 3 round 0 (connect after_create 2000000 []) (omega arith)
      (λ m d h. h) after_create-IsAtRest

worker_name_injective_example :
    (◌≡◌ {A = List ℕ} (10 ∷ 255 ∷ []) (10 ∷ 255 ∷ [])) × (◌≡◌ {A = ℕ} 12 12)
worker_name_injective_example =
    worker_name_injective (10 ∷ 255 ∷ []) (10 ∷ 255 ∷ []) 12 12 (omega arith) (omega arith) refl
      refl
