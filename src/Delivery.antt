-- ===== src/Delivery.antt =====
-- The outbox of api-service/migrations/sqls as both services use it: the invariant of jobs
-- and outbox, and the histories of the database.
pub mod References
pub mod Statements
pub mod Transactions
pub mod Counters
pub mod History
pub mod Counting
pub mod Attempts
pub mod Api
use scalequeue.Common.{
  ℕ, ◌+◌, ◌≤◌, ◌≡◌, String, Bool, true, not, ◌&&◌, List, [], ◌∷◌, some, any, find?, count, All, ◌<◌,
  ◌⊎◌, ◌==◌, str_eq,
}
use scalequeue.Schema.{JobStatus, Job, Outbox, Db}
use scalequeue.Schema.Tables.{has_id}
use scalequeue.WorkerStore.Claim.{is_final}

-- Neither COMPLETED nor DEAD.
abbrev pub is_open : JobStatus → Bool
is_open status = not (is_final status)

-- A dispatch intent of the job's generation.
abbrev pub is_intent : String → ℕ → Outbox → Bool
is_intent id generation o = str_eq o.job_id id && o.generation == generation

-- Every open job has a dispatch intent of its current generation.
abbrev pub IsCovered : List Job → List Outbox → Type 0
IsCovered jobs outbox =
    (id : String) (j : Job)
    → find? (has_id id) jobs ≡ some j
    → is_open j.status ≡ true
    → any (is_intent id j.generation) outbox ≡ true

-- The numbers of the rows rise from `low`, and stay below `high`.
abbrev pub IsNumbered : ℕ → List Outbox → ℕ → Type 0
IsNumbered low [] high = low ≤ high
IsNumbered low (o ∷ os) high = (low ≤ o.id) × IsNumbered (o.id + 1) os high

-- No job has more attempts than its retries and the first attempt.
abbrev pub IsBudgeted : List Job → Type 0
IsBudgeted jobs =
    (id : String) (j : Job) → find? (has_id id) jobs ≡ some j → j.attempt_count ≤ j.max_retries + 1

-- PRIMARY KEY (id)
abbrev pub IsKeyed : List Job → Type 0
IsKeyed jobs = (id : String) → count (has_id id) jobs ≤ 1

-- An attempt that the job has had in its generation, or its next one, or one of a generation before.
abbrev pub IsReached : ℕ → ℕ → Job → Type 0
IsReached generation attempt j =
    (generation < j.generation) ⊎ ((generation ≡ j.generation) × (attempt ≤ j.attempt_count + 1))

-- FOREIGN KEY (job_id), and no intent is ahead of its job.
abbrev pub IsBehind : List Job → Outbox → Type 0
IsBehind jobs o =
    (j : Job) × (find? (has_id o.job_id) jobs ≡ some j) × IsReached o.generation o.attempt j

abbrev pub AreBehind : List Job → List Outbox → Type 0
AreBehind jobs outbox = All (IsBehind jobs) outbox

pub record IsSound (d : Db) : Type 0 where
  pub covered : IsCovered d.jobs d.outbox
  pub budgeted : IsBudgeted d.jobs
  pub numbered : IsNumbered 0 d.outbox d.next_outbox
  pub keyed : IsKeyed d.jobs
  pub behind : AreBehind d.jobs d.outbox
