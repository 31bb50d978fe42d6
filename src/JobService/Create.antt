-- ===== src/JobService/Create.antt =====
-- `createJob` of api-service/src/services/jobService.ts.
pub mod Acceptance
pub mod Arrival
pub mod Idempotency
pub mod Retry
pub mod SameRequest
use mathlib.Core.Option
use scalequeue.Common.{ℕ, String, Bool, true, false, Option, none, some, find?, if◌then◌else◌}
use scalequeue.Json.{Json, str, num, obj, field, end}
use scalequeue.Schema.{JobStatus, type_name, Job}
use scalequeue.Schema.Tables.{
  SqlCode, dup_entry, seconds, has_key, find_job, insert_job, insert_log, insert_outbox,
}
use scalequeue.Session.{
  Error, sql, message, Action, pure, throw, ◌>>=◌, ◌>>◌, catch, execute, query, get_connection,
  begin_transaction, commit, rollback, releasing,
}
use scalequeue.Identity.{codes, decimal, canonical}
use scalequeue.JobService.{
  CreateJobInput, Platform, truthy, differs, not_fetched, conflict, or_throw,
}

-- The input as the JavaScript object that `canonical` reads.
abbrev pub input_json : CreateJobInput → Json
input_json input = obj (
    field "type" (str (type_name input.type)) (
      field "payload" (obj input.payload) (
        field "max_retries" (num (decimal input.max_retries))
          (field "priority" (num (decimal input.priority)) end))))

-- The row of `INSERT INTO jobs (id, type, payload, status, max_retries, priority, request_key,
-- request_hash)`, with the columns' defaults.
abbrev pub new_job : String → CreateJobInput → Option String → Option String → ℕ → Job
new_job id input key_hash request_hash now = record {
  id = id;
  type = type_name input.type;
  payload = obj input.payload;
  status = JobStatus.pending;
  retry_count = 0;
  max_retries = input.max_retries;
  priority = input.priority;
  created_at = seconds now;
  updated_at = seconds now;
  processed_at = none;
  error_msg = none;
  request_key = key_hash;
  request_hash = request_hash;
  generation = 1;
  attempt_count = 0;
  next_attempt_at = now;
  lease_owner = none;
  lease_until = none;
}

-- The statements of the transaction of `createJob`, up to the commit.
insert_all : String → CreateJobInput → Option String → Option String → Action Unit
insert_all id input key_hash request_hash = do
  execute (λ now. insert_job (new_job id input key_hash request_hash now))
  execute (insert_log id none JobStatus.pending "Job created" none)
  execute (λ now. insert_outbox id 1 1 now)

-- The body of the `try` in `createJob`.
accept : String → CreateJobInput → Option String → Option String → Action Job
unfolding insert_all or_throw
accept id input key_hash request_hash = do
  begin_transaction
  insert_all id input key_hash request_hash
  commit
  created ← query (find_job id)
  or_throw created not_fetched

-- The rows found by the request key after a duplicate entry: the job, if its request was the same.
resolve : Option Job → Option String → Error → Action Job
resolve none request_hash e = throw e
resolve (some row) request_hash e =
    if differs row.request_hash request_hash then throw conflict else pure row

is_duplicate : Option String → Error → Bool
is_duplicate none e = false
is_duplicate (some k) (sql dup_entry) = true
is_duplicate (some k) (sql SqlCode.other) = false
is_duplicate (some k) (message m) = false

-- What follows the rollback in the `catch` of `createJob`; the test is `keyHash && code ===
-- 'ER_DUP_ENTRY'`.
after_rollback : Bool → Option String → Option String → Error → Action Job
unfolding resolve
after_rollback false key_hash request_hash e = throw e
after_rollback true key_hash request_hash e = do
  rows ← query (λ d. find? (has_key key_hash) d.jobs)
  resolve rows request_hash e

-- The `catch` of `createJob`.
explain : Option String → Option String → Error → Action Job
unfolding after_rollback is_duplicate
explain key_hash request_hash e = do
  rollback
  after_rollback (is_duplicate key_hash e) key_hash request_hash e

pub create_with : String → CreateJobInput → Option String → Option String → Action Job
unfolding accept explain
create_with id input key_hash request_hash = do
  get_connection
  λ s. releasing (catch (accept id input key_hash request_hash) (explain key_hash request_hash) s)

module _ (platform : Platform) where
  open platform use {digest}

  abbrev pub key_hash : Option String → Option String
  key_hash request_key = Option.map (λ k. digest (codes k)) (truthy request_key)

  abbrev pub request_hash : CreateJobInput → Option String → Option String
  request_hash input request_key =
      Option.map (λ _. digest (canonical (input_json input))) (truthy request_key)

  -- `createJob`; the first argument is the value of `randomUUID`.
  unfoldable pub create_job : String → CreateJobInput → Option String → Action Job
  unfolding create_with
  create_job id input request_key =
      create_with id input (key_hash request_key) (request_hash input request_key)
