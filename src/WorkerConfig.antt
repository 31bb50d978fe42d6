-- ===== src/WorkerConfig.antt =====
-- The worker's settings, `Load` of worker-service/internal/config/config.go. `os.Getenv` (with the
-- variables of the .env file) and `time.ParseDuration` are parameters; a duration is a number of
-- nanoseconds. Go ranges over a map in any order, which is an argument.
pub mod Bounds
pub mod Validity
use Prim.Native.String.{◌++◌ as str_append}
use scalequeue.Common.{
  ℕ, String, Bool, true, false, ◌||◌, Option, none, some, List, [], ◌∷◌, ltb, if◌then◌else◌, str_eq,
}
use scalequeue.Identity.{codes}
use scalequeue.Backoff.{ℤ, pos, negsuc}
use scalequeue.Consumer.{atoi}

pub record WorkerConfig : Type 0 where
  pub redis_url : String
  pub mysql_url : String
  pub stream_name : String
  pub consumer_group : String
  pub http_addr : String
  pub worker_count : ℤ
  pub lease : ℤ
  pub recovery_interval : ℤ
  pub recovery_idle : ℤ
  pub shutdown_timeout : ℤ
  pub job_timeout : ℤ

-- The keys of the map.
pub data DurationKey : Type 0 where
  lease_duration recovery_interval_key recovery_idle_key shutdown_timeout_key job_timeout_key :
      DurationKey

abbrev pub key_name : DurationKey → String
key_name lease_duration = "LEASE_DURATION"
key_name recovery_interval_key = "RECOVERY_INTERVAL"
key_name recovery_idle_key = "RECOVERY_IDLE"
key_name shutdown_timeout_key = "SHUTDOWN_TIMEOUT"
key_name job_timeout_key = "JOB_TIMEOUT"

abbrev pub default_duration : DurationKey → String
default_duration lease_duration = "30s"
default_duration recovery_interval_key = "5s"
default_duration recovery_idle_key = "30s"
default_duration shutdown_timeout_key = "25s"
default_duration job_timeout_key = "2m"

-- `*p = d`
abbrev pub with_duration : DurationKey → ℤ → WorkerConfig → WorkerConfig
with_duration lease_duration d c = record c { lease = d }
with_duration recovery_interval_key d c = record c { recovery_interval = d }
with_duration recovery_idle_key d c = record c { recovery_idle = d }
with_duration shutdown_timeout_key d c = record c { shutdown_timeout = d }
with_duration job_timeout_key d c = record c { job_timeout = d }

pub data Loaded : Type 0 where
  loaded : WorkerConfig → Loaded
  invalid : String → Loaded

-- `d < limit`
abbrev pub is_shorter : ℤ → ℕ → Bool
is_shorter (pos n) limit = ltb n limit
is_shorter (negsuc n) limit = true

-- `c.WorkerCount < 1 || c.WorkerCount > 100`
abbrev pub is_bad_count : ℤ → Bool
is_bad_count (pos n) = ltb n 1 || ltb 100 n
is_bad_count (negsuc n) = true

abbrev pub millisecond : ℕ
millisecond = 1000000

module _ (getenv : String → String) (parse_duration : String → Option ℤ) where
  abbrev pub env : String → String → String
  env k d = if str_eq (getenv k) "" then d else getenv k

  abbrev pub duration_of : DurationKey → Option ℤ
  duration_of k = parse_duration (env (key_name k) (default_duration k))

  abbrev pub set_duration : Option ℤ → DurationKey → WorkerConfig → (WorkerConfig → Loaded) → Loaded
  set_duration none k c next = invalid (str_append "invalid " (key_name k))
  set_duration (some d) k c next =
      if is_shorter d millisecond
      then invalid (str_append "invalid " (key_name k))
      else next (with_duration k d c)

  -- What follows the loop over the durations.
  abbrev pub check_rest : WorkerConfig → Loaded
  check_rest c =
      if is_shorter c.lease 30000000
      then invalid "lease must be at least 30ms"
      else if str_eq c.redis_url "" || str_eq c.mysql_url ""
      then invalid "REDIS_URL and MYSQL_URL are required"
      else loaded c

  unfoldable pub load_durations : List DurationKey → WorkerConfig → Loaded
  load_durations [] c = check_rest c
  load_durations (k ∷ ks) c = set_duration (duration_of k) k c (load_durations ks)

  abbrev pub first_config : ℤ → WorkerConfig
  first_config n = record {
    redis_url = getenv "REDIS_URL";
    mysql_url = getenv "MYSQL_URL";
    stream_name = env "STREAM_NAME" "jobs:queue";
    consumer_group = env "CONSUMER_GROUP" "scalequeue-workers";
    http_addr = env "HTTP_ADDR" ":9090";
    worker_count = n;
    lease = pos 0;
    recovery_interval = pos 0;
    recovery_idle = pos 0;
    shutdown_timeout = pos 0;
    job_timeout = pos 0;
  }

  abbrev pub load_counted : List DurationKey → Option ℤ → Loaded
  load_counted order none = invalid "WORKER_COUNT must be 1..100"
  load_counted order (some n) =
      if is_bad_count n
      then invalid "WORKER_COUNT must be 1..100"
      else load_durations order (first_config n)

  unfoldable pub load : List DurationKey → Loaded
  unfolding load_durations
  load order = load_counted order (atoi (codes (env "WORKER_COUNT" "3")))
