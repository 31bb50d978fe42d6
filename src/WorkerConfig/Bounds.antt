-- ===== src/WorkerConfig/Bounds.antt =====
-- What the worker's settings (worker-service/internal/config/config.go) are once they are loaded.
use scalequeue.Common.{◌==◌, ℕ, ◌≤◌, ◌≡◌, refl, Bool, true, false, arith}
use scalequeue.Backoff.{ℤ, pos, negsuc}
use scalequeue.WorkerConfig.{
  WorkerConfig, DurationKey, lease_duration, recovery_interval_key, recovery_idle_key,
  shutdown_timeout_key, job_timeout_key, with_duration, is_shorter, is_bad_count,
}

-- At least so many nanoseconds.
abbrev pub IsAtLeast : ℕ → ℤ → Type 0
IsAtLeast limit d = (n : ℕ) × (d ≡ pos n) × (limit ≤ n)

abbrev pub get_duration : DurationKey → WorkerConfig → ℤ
get_duration lease_duration c = c.lease
get_duration recovery_interval_key c = c.recovery_interval
get_duration recovery_idle_key c = c.recovery_idle
get_duration shutdown_timeout_key c = c.shutdown_timeout
get_duration job_timeout_key c = c.job_timeout

abbrev pub index : DurationKey → ℕ
index lease_duration = 0
index recovery_interval_key = 1
index recovery_idle_key = 2
index shutdown_timeout_key = 3
index job_timeout_key = 4

abbrev pub same_duration : DurationKey → DurationKey → Bool
same_duration k l = index k == index l

pub same_duration-eq : (k l : DurationKey) → same_duration k l ≡ true → k ≡ l
same_duration-eq k l h = ground arith

pub get-with :
    (k : DurationKey) (d : ℤ) (c : WorkerConfig) → get_duration k (with_duration k d c) ≡ d
get-with lease_duration d c = refl
get-with recovery_interval_key d c = refl
get-with recovery_idle_key d c = refl
get-with shutdown_timeout_key d c = refl
get-with job_timeout_key d c = refl

pub get-with_other :
    (k l : DurationKey) (d : ℤ) (c : WorkerConfig)
    → same_duration l k ≡ false
    → get_duration l (with_duration k d c) ≡ get_duration l c
get-with_other k l d c h = ground arith

-- What the loop leaves alone.
abbrev pub AgreesWith : WorkerConfig → WorkerConfig → Type 0
AgreesWith a c =
    (a.redis_url ≡ c.redis_url) × (a.mysql_url ≡ c.mysql_url) × (a.worker_count ≡ c.worker_count)

pub with_duration-AgreesWith :
    (k : DurationKey) (d : ℤ) (c : WorkerConfig) → AgreesWith (with_duration k d c) c
with_duration-AgreesWith k d c = ground arith

pub long_enough : (d : ℤ) (limit : ℕ) → is_shorter d limit ≡ false → IsAtLeast limit d
long_enough (pos n) limit h = (n, refl, ground arith)
long_enough (negsuc n) limit h = cc

pub too_short : (d : ℤ) (limit : ℕ) → is_shorter d limit ≡ true → ¬ IsAtLeast limit d
too_short (pos m) limit h (n, e, le) = ground arith
too_short (negsuc m) limit h (n, e, le) = cc

pub good_count : (n : ℤ) → is_bad_count n ≡ false → (m : ℕ) × (n ≡ pos m) × (1 ≤ m) × (m ≤ 100)
good_count (pos m) h = (m, refl, ground arith, ground arith)
good_count (negsuc m) h = cc

pub bad_count : (n : ℤ) → is_bad_count n ≡ true → ¬ ((m : ℕ) × (n ≡ pos m) × (1 ≤ m) × (m ≤ 100))
bad_count (pos k) h (m, e, a, b) = ground arith
bad_count (negsuc k) h (m, e, a, b) = cc
