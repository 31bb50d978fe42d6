-- ===== src/Controller.antt =====
-- The request handlers, api-service/src/controllers/jobController.ts. A handler runs in a session and
-- ends with a response. Logging to the console is left out.
pub mod Statuses
pub mod Limits
use Prim.Native.String.{◌++◌ as str_append}
use scalequeue.Common.{
  ℕ, String, Bool, false, not, ◌||◌, Option, none, some, List, [], ◌∷◌, ltb, ◌==◌, if◌then◌else◌,
  str_eq,
}
use scalequeue.Schema.{Job, AuditLog}
use scalequeue.Session.{Error, sql, message}
use scalequeue.Identity.{codes}
use scalequeue.JobService.{Platform, has_message}
use scalequeue.JobService.Create.{create_job}
use scalequeue.JobService.Requeue.{requeue_job}
use scalequeue.JobService.Listing.{get_job_by_id, list_jobs, list_dead_jobs, get_job_logs}
use scalequeue.Http.{
  Request, Body, failure, invalid, Response, Handler, reply, internal, respond, is_blank, length_of,
  parse_int, or_number, clamp, at_least_zero,
}
use scalequeue.Validator.{Parsed, valid, Validator}

-- `key !== undefined && (!key.trim() || key.length > 128)`
pub bad_key : Option String → Bool
bad_key none = false
bad_key (some key) = is_blank (codes key) || ltb 128 (length_of key)

-- `${x}` of a value that may be undefined
abbrev pub template : Option String → String
template none = "undefined"
template (some s) = s

-- `key ? `${req.clientId}:${key}` : undefined`
pub scoped_key : Option String → Option String → Option String
scoped_key client none = none
scoped_key client (some key) =
    if str_eq key "" then none else some (str_append (template client) (str_append ":" key))

create_error : Error → Response
create_error e =
    if has_message e "IDEMPOTENCY_CONFLICT"
    then reply 409 (failure "Idempotency key already used with a different request")
    else internal

requeue_error : Error → Response
requeue_error e =
    if has_message e "JOB_NOT_FOUND"
    then reply 404 (failure "Job not found")
    else if has_message e "JOB_NOT_REQUEUEABLE"
    then reply 400 (failure "Only DEAD or FAILED jobs can be requeued")
    else internal

-- `!id || id.length !== 36`
pub bad_id : String → Bool
bad_id id = not (length_of id == 36)

abbrev bad_format : Response
bad_format = reply 400 (failure "Invalid job ID format")

found_job : Option Job → Response
found_job none = reply 404 (failure "Job not found")
found_job (some j) = reply 200 (Body.job j)

found_logs : List AuditLog → Response
found_logs [] = reply 404 (failure "No logs found for this job")
found_logs (l ∷ ls) = reply 200 (Body.logs (l ∷ ls))

-- `x ?? text`, as the defaults of a destructuring
abbrev or_text : String → Option String → String
or_text d none = d
or_text d (some s) = s

-- `Math.max(1, Math.min(parseInt(limit, 10) || 20, 100))`
unfoldable pub limit_of : String → ℕ
limit_of s = clamp 100 (or_number (parse_int (codes s)) 20)

-- `Math.max(0, parseInt(offset, 10) || 0)`
unfoldable pub offset_of : String → ℕ
offset_of s = at_least_zero (or_number (parse_int (codes s)) 0)

unfoldable pub get_job_by_id_handler : Request → Handler
unfolding found_job bad_id
get_job_by_id_handler req s =
    if bad_id req.id
    then (bad_format, s)
    else respond (get_job_by_id req.id s) found_job (λ _. internal)

unfoldable pub requeue_job_handler : Request → Handler
unfolding requeue_error bad_id
requeue_job_handler req s =
    if bad_id req.id
    then (bad_format, s)
    else respond (requeue_job req.id s) (λ j. reply 200 (Body.job j)) requeue_error

module _ (platform : Platform) where
  unfoldable pub get_job_logs_handler : Request → Handler
  unfolding found_logs bad_id
  get_job_logs_handler req s =
      if bad_id req.id
      then (bad_format, s)
      else respond (get_job_logs platform req.id s) found_logs (λ _. internal)

  unfoldable pub list_jobs_handler : Request → Handler
  unfolding limit_of offset_of
  list_jobs_handler req s =
      let limit = limit_of (or_text "20" req.limit) in
      let offset = offset_of (or_text "0" req.offset) in
      respond
        (list_jobs platform
          (record {
            status = req.status;
            type = req.type;
            limit = some limit;
            offset = some offset;
          })
          s)
        (λ r. reply 200 (Body.jobs r.jobs r.total limit offset)) (λ _. internal)

  unfoldable pub list_dead_jobs_handler : Request → Handler
  unfolding limit_of offset_of
  list_dead_jobs_handler req s =
      let limit = limit_of (template req.limit) in
      let offset = offset_of (template req.offset) in
      respond (list_dead_jobs platform (some limit) (some offset) s)
        (λ r. reply 200 (Body.dead_jobs r.jobs r.total limit offset)) (λ _. internal)

  -- `createJob`, with the value of `randomUUID`; the body has been parsed.
  create_parsed : String → Request → Parsed → Handler
  unfolding create_error bad_key scoped_key
  create_parsed id req (Parsed.refused issues) s = (reply 400 (invalid issues), s)
  create_parsed id req (valid input) s =
      if bad_key req.idempotency_key
      then (reply 400 (failure "Idempotency-Key must be 1..128 nonblank characters"), s)
      else respond (create_job platform id input (scoped_key req.client_id req.idempotency_key) s)
          (λ j. reply 202 (Body.job j)) create_error

  unfoldable pub create_job_handler : Validator → String → Request → Handler
  unfolding create_parsed
  create_job_handler validator id req = create_parsed id req (validator.parse req.body)
