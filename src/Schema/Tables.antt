-- ===== src/Schema/Tables.antt =====
-- The statements on the tables: INSERT with the keys' checks, lookups by primary key, and the
-- conversions of an instant to a TIMESTAMP column. Keys and foreign keys are those of
-- api-service/migrations/sqls.
use scalequeue.Common.{
  ℕ, ◌+◌, ◌/◌, String, Bool, false, ◌&&◌, ◌||◌, Option, none, some, [], ◌∷◌, ◌++◌, any, find?,
  map_where, if◌then◌else◌, ◌==◌, str_eq,
}
use scalequeue.Schema.{Job, Outbox, Db, JobStatus}

-- The code of a failed statement: a unique key is taken, or anything else (a foreign key, a lost
-- connection, a deadlock).
pub data SqlCode : Type 0 where
  dup_entry : SqlCode
  other : SqlCode

pub data Reply (A : Type 0) : Type 0 where
  done : A → Reply A
  refused : SqlCode → Reply A

-- CURRENT_TIMESTAMP and NOW() in a column of whole seconds.
abbrev pub seconds : ℕ → ℕ
seconds now = now / 1000000

-- NOW(6) stored in a column of whole seconds is rounded.
abbrev pub rounded : ℕ → ℕ
rounded now = (now + 500000) / 1000000

abbrev pub has_id : String → Job → Bool
has_id id j = str_eq j.id id

-- A unique key admits any number of NULLs.
abbrev pub same_key : Option String → Option String → Bool
same_key none k = false
same_key (some a) none = false
same_key (some a) (some b) = str_eq a b

abbrev pub has_key : Option String → Job → Bool
has_key k j = same_key j.request_key k

abbrev pub of_job : String → Outbox → Bool
of_job id o = str_eq o.job_id id

abbrev pub has_identity : String → ℕ → ℕ → Outbox → Bool
has_identity id generation attempt o =
    str_eq o.job_id id && (o.generation == generation && o.attempt == attempt)

abbrev pub find_job : String → Db → Option Job
find_job id d = find? (has_id id) d.jobs

-- INSERT INTO jobs: PRIMARY KEY (id), UNIQUE KEY idx_request_key (request_key).
unfoldable pub insert_job : Job → Db → Reply Db
insert_job j d =
    if any (has_id j.id) d.jobs || any (has_key j.request_key) d.jobs
    then refused dup_entry
    else done (record d { jobs = d.jobs ++ j ∷ [] })

-- INSERT INTO job_audit_logs: FOREIGN KEY (job_id) REFERENCES jobs(id).
unfoldable pub insert_log :
    String → Option JobStatus → JobStatus → String → Option String → ℕ → Db → Reply Db
insert_log id from to message worker now d =
    if any (has_id id) d.jobs
    then done (record d {
      logs =
          d.logs
          ++ record {
            id = d.next_log;
            job_id = id;
            from_status = from;
            to_status = to;
            message = message;
            worker_id = worker;
            created_at = seconds now;
          }
            ∷ [];
      next_log = d.next_log + 1;
    })
    else refused other

-- INSERT INTO job_outbox: UNIQUE KEY dispatch_identity (job_id, generation, attempt), and the
-- foreign key.
unfoldable pub insert_outbox : String → ℕ → ℕ → ℕ → Db → Reply Db
insert_outbox id generation attempt available_at d =
    if any (has_id id) d.jobs
    then (if any (has_identity id generation attempt) d.outbox
        then refused dup_entry
        else done (record d {
          outbox =
              d.outbox
              ++ record {
                id = d.next_outbox;
                job_id = id;
                generation = generation;
                attempt = attempt;
                available_at = available_at;
                published_at = none;
              }
                ∷ [];
          next_outbox = d.next_outbox + 1;
        }))
    else refused other

-- UPDATE jobs … WHERE id = ?
unfoldable pub update_job : String → (Job → Job) → Db → Db
update_job id f d = record d { jobs = map_where (has_id id) f d.jobs }
