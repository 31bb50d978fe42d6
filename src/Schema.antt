-- ===== src/Schema.antt =====
-- The tables of the MySQL schema, as the migrations under api-service/migrations/sqls create them,
-- and the job types of api-service/src/types/job.ts.
--
-- Instants are microseconds (DATETIME(6), NOW(6)); TIMESTAMP columns are whole seconds. Texts and
-- identifiers are compared exactly. A table is the list of its rows in insertion order.
pub mod Tables
pub mod Keys
use scalequeue.Common.{ℕ, String, Bool, Option, List}
use scalequeue.Json.{Json}

pub data JobStatus : Type 0 where
  pending processing completed failed dead : JobStatus

pub data JobType : Type 0 where
  send_email send_notification fail_job : JobType

-- The column `type` is a VARCHAR; the API only stores the three names of `JobType`.
abbrev pub status_name : JobStatus → String
status_name JobStatus.pending = "PENDING"
status_name JobStatus.processing = "PROCESSING"
status_name JobStatus.completed = "COMPLETED"
status_name JobStatus.failed = "FAILED"
status_name JobStatus.dead = "DEAD"

abbrev pub type_name : JobType → String
type_name JobType.send_email = "send_email"
type_name JobType.send_notification = "send_notification"
type_name JobType.fail_job = "fail_job"

pub record Job : Type 0 where
  pub id : String
  pub type : String
  pub payload : Json
  pub status : JobStatus
  pub retry_count : ℕ
  pub max_retries : ℕ
  pub priority : ℕ
  pub created_at : ℕ
  pub updated_at : ℕ
  pub processed_at : Option ℕ
  pub error_msg : Option String
  pub request_key : Option String
  pub request_hash : Option String
  pub generation : ℕ
  pub attempt_count : ℕ
  pub next_attempt_at : ℕ
  pub lease_owner : Option String
  pub lease_until : Option ℕ

pub record AuditLog : Type 0 where
  pub id : ℕ
  pub job_id : String
  pub from_status : Option JobStatus
  pub to_status : JobStatus
  pub message : String
  pub worker_id : Option String
  pub created_at : ℕ

pub record Outbox : Type 0 where
  pub id : ℕ
  pub job_id : String
  pub generation : ℕ
  pub attempt : ℕ
  pub available_at : ℕ
  pub published_at : Option ℕ

pub record Client : Type 0 where
  pub id : String
  pub name : String
  pub api_key : String
  pub is_active : Bool

-- The database, with the next value of each AUTO_INCREMENT column.
pub record Db : Type 0 where
  pub jobs : List Job
  pub logs : List AuditLog
  pub outbox : List Outbox
  pub clients : List Client
  pub next_log : ℕ
  pub next_outbox : ℕ
