-- ===== src/Validator.antt =====
-- The request schema, api-service/src/validators/jobValidator.ts. Zod's `parse` is a parameter; what
-- the schema says of an accepted input is stated here.
use scalequeue.Common.{◌≡◌, ◌≤◌, List}
use scalequeue.Json.{Json, key_count}
use scalequeue.Http.{Issue}
use scalequeue.JobService.{CreateJobInput}

-- The result of `createJobSchema.parse`; the issues are those of the thrown `ZodError`.
pub data Parsed : Type 0 where
  valid : CreateJobInput → Parsed
  refused : List Issue → Parsed

-- What `createJobSchema` asks of a payload and of the two numbers. That the type is one of the three
-- is the type `JobType`.
pub record FitsSchema (input : CreateJobInput) : Type 0 where
  pub payload_nonempty : 1 ≤ key_count input.payload
  pub retries_bounded : input.max_retries ≤ 10
  pub priority_positive : 1 ≤ input.priority
  pub priority_bounded : input.priority ≤ 10

-- `parse` returns only inputs that fit the schema.
pub record Validator : Type 0 where
  pub parse : Json → Parsed
  pub sound : (body : Json) (input : CreateJobInput) → parse body ≡ valid input → FitsSchema input
