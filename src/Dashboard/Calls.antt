-- ===== src/Dashboard/Calls.antt =====
-- The calls that dashboard/app.js sends to the API.
use scalequeue.Common.{ℕ, String, true, none, some, List, [], ◌∷◌, ◌==◌, if◌then◌else◌, str_eq}
use scalequeue.Json.{Json, null, bool, num, str, obj, Fields, field, end}
use scalequeue.Identity.{Text, codes, decimal}
use scalequeue.Http.{Number, nan, plus, minus, parse_int}
use scalequeue.Server.{Verb}
use scalequeue.Dashboard.{Call, Inputs, View}

-- `.replace(/\/$/, '')`: a slash at the end is left out.
pub without_slash : Text → Text
without_slash [] = []
without_slash (c ∷ []) = if c == b'/' then [] else c ∷ []
without_slash (c ∷ d ∷ s) = c ∷ without_slash (d ∷ s)

-- `apiBase`
abbrev pub api_base : Inputs → Text
api_base i = without_slash (codes i.api_url)

-- `fetch` of a path under /api/v1/jobs, with the headers of `headers`.
abbrev pub call : Inputs → Verb → List String → Call
call i verb path = record {
  base = api_base i;
  verb = verb;
  path = "api" ∷ "v1" ∷ "jobs" ∷ path;
  status = none;
  limit = none;
  api_key = i.api_key;
  body = none;
}

-- The call of `fetchJobs`; the filter ALL is not sent.
unfoldable pub fetch_jobs : View → Call
fetch_jobs v = record (call v.inputs Verb.get []) {
  status = if str_eq v.current_filter "ALL" then none else some v.current_filter;
  limit = some "50";
}

-- The call of `requeueJob`
abbrev pub requeue_call : String → View → Call
requeue_call id v = call v.inputs Verb.post (id ∷ "requeue" ∷ [])

-- The call of `openLogs`
abbrev pub logs_call : String → View → Call
logs_call id v = call v.inputs Verb.get (id ∷ "logs" ∷ [])

-- `JSON.stringify` of the value of `parseInt`; the inputs hold decimal digits.
abbrev pub number_json : Number → Json
number_json nan = null
number_json (plus n) = num (decimal n)
number_json (minus n) = num (if n == 0 then decimal 0 else b'-' ∷ decimal n)

-- `payloads[type] || { test: true }`; `month` is `getMonth() + 1`, `payment` the random payment id.
pub payload_of : String → ℕ → String → Fields
payload_of type month payment =
    if str_eq type "send_email"
    then field "to" (str "test@example.com")
        (field "subject" (str "Test Email") (field "body" (str "Hello from ScaleQueue!") end))
    else if str_eq type "send_notification"
    then field "user_id" (str "user-123")
        (field "message" (str "You have a new message") (field "channel" (str "push") end))
    else if str_eq type "generate_report"
    then field "report_type" (str "monthly_summary") (field "month" (num (decimal month)) end)
    else if str_eq type "payment_retry"
    then field "payment_id" (str payment) (field "amount" (num (decimal 1000)) end)
    else if str_eq type "fail_job"
    then field "reason" (str "testing retry logic") end
    else field "test" (bool true) end

-- The body of `submitJob`
pub submission : ℕ → String → Inputs → Json
unfolding payload_of
submission month payment i = obj (
    field "type" (str i.job_type) (
      field "payload" (obj (payload_of i.job_type month payment)) (
        field "max_retries" (number_json (parse_int (codes i.max_retries)))
          (field "priority" (number_json (parse_int (codes i.priority))) end))))

-- The call of `submitJob`
unfoldable pub submit_job : ℕ → String → View → Call
unfolding submission
submit_job month payment v = record (call v.inputs Verb.post []) {
  body = some (submission month payment v.inputs);
}
