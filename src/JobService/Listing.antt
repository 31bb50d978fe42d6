-- ===== src/JobService/Listing.antt =====
-- `getJobById`, `listJobs`, `listDeadJobs` and `getJobLogs` of
-- api-service/src/services/jobService.ts.

pub mod Pages
pub mod Results
use scalequeue.Common.{
  ℕ, String, Bool, true, false, ◌&&◌, Option, none, some, List, map, filter, count, take, drop,
  str_eq,
}
use scalequeue.Json.{Json}
use scalequeue.Schema.{JobStatus, status_name, Job, AuditLog, Db}
use scalequeue.Schema.Tables.{find_job}
use scalequeue.Session.{Action, pure, ◌>>=◌, query}
use scalequeue.JobService.{Platform, truthy}

-- `getJobById`, on a connection of the pool
unfoldable pub get_job_by_id : String → Action (Option Job)
get_job_by_id id = query (find_job id)

pub record Filters : Type 0 where
  pub status : Option String
  pub type : Option String
  pub limit : Option ℕ
  pub offset : Option ℕ

-- The value of a parameter with a default.
abbrev pub or_default : ℕ → Option ℕ → ℕ
or_default d none = d
or_default d (some n) = n

pub record Listing (A : Type 0) : Type 0 where
  pub jobs : List A
  pub total : ℕ

-- The columns that `listDeadJobs` selects.
pub record DeadJob : Type 0 where
  pub id : String
  pub type : String
  pub payload : Json
  pub status : JobStatus
  pub retry_count : ℕ
  pub max_retries : ℕ
  pub priority : ℕ
  pub created_at : ℕ
  pub updated_at : ℕ
  pub processed_at : Option ℕ
  pub error_msg : Option String

abbrev pub dead_columns : Job → DeadJob
dead_columns j = record {
  id = j.id;
  type = j.type;
  payload = j.payload;
  status = j.status;
  retry_count = j.retry_count;
  max_retries = j.max_retries;
  priority = j.priority;
  created_at = j.created_at;
  updated_at = j.updated_at;
  processed_at = j.processed_at;
  error_msg = j.error_msg;
}

-- WHERE status = 'DEAD'
abbrev pub is_dead : Job → Bool
is_dead j = elim j.status [ JobStatus.dead ↦ true | _ ↦ false ]

module _ (platform : Platform) where
  open platform use {same_text, order_jobs, order_logs}

  -- One condition of the WHERE clause; a filter that is absent or empty adds none.
  abbrev pub condition : Option String → (Job → String) → Job → Bool
  condition wanted column j = elim (truthy wanted) [ none ↦ true | some w ↦ same_text (column j) w ]

  abbrev pub where_clause : Filters → Job → Bool
  where_clause f j =
      condition f.status (λ r. status_name r.status) j && condition f.type (λ r. r.type) j

  -- SELECT … ORDER BY … DESC LIMIT ? OFFSET ?
  abbrev pub page : (Job → Bool) → (Job → ℕ) → ℕ → ℕ → Db → List Job
  page test key limit offset d = take limit (drop offset (order_jobs key (filter test d.jobs)))

  unfoldable pub list_jobs : Filters → Action (Listing Job)
  list_jobs f = do
    rows ←
        query (
          page (where_clause f) (λ r. r.created_at) (or_default 20 f.limit) (or_default 0 f.offset))
    total ← query (λ d. count (where_clause f) d.jobs)
    pure (record { jobs = rows; total = total })

  unfoldable pub list_dead_jobs : Option ℕ → Option ℕ → Action (Listing DeadJob)
  list_dead_jobs limit offset = do
    rows ← query (λ d.
        map dead_columns
          (page is_dead (λ r. r.updated_at) (or_default 20 limit) (or_default 0 offset) d))
    total ← query (λ d. count is_dead d.jobs)
    pure (record { jobs = rows; total = total })

  unfoldable pub get_job_logs : String → Action (List AuditLog)
  get_job_logs id = query (λ d. order_logs (filter (λ l. str_eq l.job_id id) d.logs))
