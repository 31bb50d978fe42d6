-- ===== src/Migration.antt =====
-- The upgrade of a running installation by
-- api-service/migrations/sqls/20261025000000-durable-delivery-up.sql: the new columns and the outbox,
-- and the three statements that bring the old jobs into it. A statement's instant is its argument.
pub mod Inserting
pub mod Rows
pub mod Keys
pub mod Upgrade
pub mod Runner
use scalequeue.Common.{
  ℕ, zero, ◌+◌, String, Bool, true, false, ◌||◌, Option, none, List, [], ◌∷◌, map, filter,
  map_where, ◌==◌, if◌then◌else◌,
}
use scalequeue.Json.{Json}
use scalequeue.Schema.{JobStatus, Job, AuditLog, Client, Db}
use scalequeue.WorkerStore.{is_processing}
use scalequeue.Schema.Tables.{Reply, done, refused, seconds, insert_outbox}

-- A row of `jobs` before the upgrade.
pub record OldJob : Type 0 where
  pub id : String
  pub type : String
  pub payload : Json
  pub status : JobStatus
  pub retry_count : ℕ
  pub max_retries : ℕ
  pub priority : ℕ
  pub created_at : ℕ
  pub updated_at : ℕ
  pub processed_at : Option ℕ
  pub error_msg : Option String

pub record OldDb : Type 0 where
  pub jobs : List OldJob
  pub logs : List AuditLog
  pub clients : List Client
  pub next_log : ℕ

-- ALTER TABLE jobs ADD COLUMN …
abbrev pub add_columns : ℕ → OldJob → Job
add_columns now j = record {
  id = j.id;
  type = j.type;
  payload = j.payload;
  status = j.status;
  retry_count = j.retry_count;
  max_retries = j.max_retries;
  priority = j.priority;
  created_at = j.created_at;
  updated_at = j.updated_at;
  processed_at = j.processed_at;
  error_msg = j.error_msg;
  request_key = none;
  request_hash = none;
  generation = 1;
  attempt_count = 0;
  next_attempt_at = now;
  lease_owner = none;
  lease_until = none;
}

-- ALTER TABLE jobs …; CREATE TABLE job_outbox …
abbrev pub alter_tables : ℕ → OldDb → Db
alter_tables now d = record {
  jobs = map (add_columns now) d.jobs;
  logs = d.logs;
  outbox = [];
  clients = d.clients;
  next_log = d.next_log;
  next_outbox = 1;
}

-- status IN ('PENDING','PROCESSING')
abbrev pub is_unfinished : JobStatus → Bool
is_unfinished JobStatus.pending = true
is_unfinished JobStatus.processing = true
is_unfinished JobStatus.completed = false
is_unfinished JobStatus.failed = false
is_unfinished JobStatus.dead = false

-- The column `updated_at` follows an update that changes the row.
abbrev pub set_attempts : ℕ → ℕ → Job → Job
set_attempts now n j =
    if j.attempt_count == n then j else record j { attempt_count = n; updated_at = seconds now }

-- SET attempt_count=retry_count+IF(status='PROCESSING',1,0)
abbrev pub keep_budget : ℕ → Job → Job
keep_budget now j = set_attempts now (j.retry_count + (if is_processing j.status then 1 else 0)) j

abbrev pub keep_budgets : ℕ → Db → Db
keep_budgets now d = record d {
  jobs = map_where (λ j. is_unfinished j.status) (keep_budget now) d.jobs;
}

-- The rows of INSERT … SELECT, one after the other; one that is refused fails the statement.
unfoldable pub insert_each : ℕ → List Job → Db → Reply Db
insert_each now [] d = done d
insert_each now (j ∷ js) d = elim (insert_outbox j.id j.generation (j.attempt_count + 1) now d) [
  | done e ↦ insert_each now js e
  | refused code ↦ refused code
]

-- INSERT INTO job_outbox … SELECT … FROM jobs WHERE status IN ('PENDING','PROCESSING')
abbrev pub insert_intents : ℕ → Db → Reply Db
insert_intents now d = insert_each now (filter (λ j. is_unfinished j.status) d.jobs) d

abbrev pub release : ℕ → Job → Job
release now j = record j { status = JobStatus.pending; updated_at = seconds now }

-- UPDATE jobs SET status='PENDING' WHERE status='PROCESSING'
abbrev pub release_all : ℕ → Db → Db
release_all now d = record d { jobs = map_where (λ j. is_processing j.status) (release now) d.jobs }

-- The instants of the statements.
pub record Instants : Type 0 where
  pub altered : ℕ
  pub kept : ℕ
  pub inserted : ℕ
  pub released : ℕ

unfoldable pub upgrade : Instants → OldDb → Reply Db
upgrade at d =
    elim (insert_intents at.inserted (keep_budgets at.kept (alter_tables at.altered d))) [
      | done e ↦ done (release_all at.released e)
      | refused code ↦ refused code
    ]
