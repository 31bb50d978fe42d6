-- ===== src/JobService.antt =====
-- The job service, api-service/src/services/jobService.ts: its input (the type that
-- api-service/src/validators/jobValidator.ts infers), what it takes from Node and MySQL, its errors.
-- The child modules model its methods as actions of a session (Session.antt): Create for
-- `createJob`, Requeue for `requeueJob`, Listing for `getJobById`, `listJobs`, `listDeadJobs` and
-- `getJobLogs`. A row's `payload` is kept parsed, so the conversion of a text payload by
-- `JSON.parse` is the identity here.
pub mod Create
pub mod Requeue
pub mod Listing
use mathlib.Core.Option
use scalequeue.Common.{
  ◌≡◌, ℕ, ◌+◌, String, Bool, true, false, not, ◌&&◌, Option, none, some, List, filter, count, find?,
  take, drop, if◌then◌else◌, str_eq,
}
use scalequeue.Json.{Json, str, num, obj, Fields, field, end}
use scalequeue.Schema.{JobStatus, JobType, status_name, type_name, Job, AuditLog, Db}
use scalequeue.Schema.Tables.{
  SqlCode, dup_entry, seconds, has_key, find_job, insert_job, insert_log, insert_outbox, update_job,
  done,
}
use scalequeue.Session.{
  Error, sql, message, Action, pure, throw, ◌>>=◌, ◌>>◌, catch, execute, query, get_connection,
  begin_transaction, commit, rollback, releasing,
}
use scalequeue.Identity.{Text, codes, decimal, canonical}

-- `z.infer<typeof createJobSchema>`
pub record CreateJobInput : Type 0 where
  pub type : JobType
  pub payload : Fields
  pub max_retries : ℕ
  pub priority : ℕ

-- What the service takes from Node and from MySQL: the digest, equality of text columns under the
-- database's collation, and ORDER BY, which leaves ties open: jobs by a descending key, audit
-- entries by ascending `created_at`.
pub record Platform : Type 0 where
  pub digest : Text → String
  pub same_text : String → String → Bool
  pub order_jobs : (Job → ℕ) → List Job → List Job
  pub order_logs : List AuditLog → List AuditLog

-- A JavaScript string in a condition: the empty one counts as absent.
abbrev pub truthy : Option String → Option String
truthy none = none
truthy (some s) = if str_eq s "" then none else some s

-- `x !== y` on a column that may be NULL.
abbrev pub differs : Option String → Option String → Bool
differs none none = false
differs none (some b) = true
differs (some a) none = true
differs (some a) (some b) = not (str_eq a b)

abbrev pub not_fetched : Error
not_fetched = message "Job created but cloud not be fetched"

abbrev pub conflict : Error
conflict = message "IDEMPOTENCY_CONFLICT"

abbrev pub job_not_found : Error
job_not_found = message "JOB_NOT_FOUND"

abbrev pub not_requeueable : Error
not_requeueable = message "JOB_NOT_REQUEUEABLE"

abbrev pub update_not_fetched : Error
update_not_fetched = message "Failed to fetch updated job"

-- `error.message === text`, for an error that the service throws itself
abbrev pub has_message : Error → String → Bool
has_message (sql c) text = false
has_message (message m) text = str_eq m text

-- The controller does not take the error for a conflict.
abbrev pub IsNoConflict : Error → Type 0
IsNoConflict e = has_message e "IDEMPOTENCY_CONFLICT" ≡ false

-- The controller does not take the error for a refused replay.
abbrev pub IsNoRefusal : Error → Type 0
IsNoRefusal e =
    (has_message e "JOB_NOT_FOUND" ≡ false) × (has_message e "JOB_NOT_REQUEUEABLE" ≡ false)

-- `const x = rows[0]; if (!x) throw e`
unfoldable pub or_throw : {A : Type 0} → Option A → Error → Action A
or_throw none e = throw e
or_throw (some a) e = pure a
