-- ===== src/Dashboard/Answers.antt =====
-- What dashboard/app.js does with the answers to its calls.
use scalequeue.Common.{
  ℕ, String, Bool, true, false, Option, none, some, List, [], ◌∷◌, ◌++◌, map, if◌then◌else◌, str_eq,
}
use scalequeue.Json.{str, arr, obj, Items, nil, cons, field, end}
use scalequeue.Schema.{status_name, Job, AuditLog}
use scalequeue.Identity.{Text, codes, decimal, canonical}
use scalequeue.JobService.{truthy}
use scalequeue.Http.{Issue}
use scalequeue.Dashboard.{
  Reading, unread, value, Refusal, Fetched, offline, refused, accepted, Jobs, Button, LogRow,
  no_logs, log_rows, failure, ModalBody, View, Ref,
}
use scalequeue.Dashboard.Drawing.{
  show_toast, show_error, hide_error, short_id, requeue_button, fmt_time, render_table,
  update_stats, set_button,
}

-- `HTTP ${res.status}`
abbrev pub http_text : ℕ → Text
http_text code = codes "HTTP " ++ decimal code

-- `data.error || text`
abbrev pub error_or : Text → Refusal → Text
error_or text r = elim (truthy r.error) [ none ↦ text | some e ↦ codes e ]

-- The message that `fetchJobs` throws for an answer that is not `ok`; a body that is not JSON
-- counts as empty.
abbrev pub listing_error : ℕ → Reading Refusal → Text
listing_error code (unread m) = http_text code
listing_error code (value r) = error_or (http_text code) r

-- The `catch` of `fetchJobs`
unfoldable pub jobs_failed : Text → View → View
jobs_failed msg v = record (show_error (codes "Failed to fetch jobs: " ++ msg) v) {
  dot_failed = true;
}

-- `data.data || []`
abbrev pub or_empty : {A : Type 0} → Option (List A) → List A
or_empty none = []
or_empty (some xs) = xs

-- The new text and state of a button that was clicked.
abbrev pub waiting_button : Button
waiting_button = record { text = "..."; disabled = true }

-- The `catch` of `requeueJob`
unfoldable pub requeue_failed : Ref → Text → View → View
unfolding set_button
requeue_failed ref msg v = set_button ref requeue_button (show_toast msg "error" v)

abbrev pub issues_json : List Issue → Items
issues_json [] = nil
issues_json (i ∷ is) =
    cons (obj (field "field" (str i.field) (field "message" (str i.message) end))) (issues_json is)

-- `JSON.stringify(data.details || {})`; the keys are in the order of `canonical`.
abbrev pub details_text : Option (List Issue) → Text
details_text none = codes "{}"
details_text (some is) = canonical (arr (issues_json is))

-- What happened to a job's call: the message that the function throws, or the value.
abbrev pub outcome_of : {A : Type 0} → (ℕ → Refusal → Text) → Fetched A → Reading A
outcome_of text (offline m) = unread m
outcome_of text (refused code (unread m)) = unread m
outcome_of text (refused code (value r)) = unread (text code r)
outcome_of text (accepted r) = r

-- `requeueJob` after its click: whether it goes on to `fetchJobs`, and the page.
unfoldable pub requeue_came : Ref → Fetched Unit → View → Bool × View
unfolding requeue_failed
requeue_came ref answer v = elim (outcome_of (λ code r. error_or (http_text code) r) answer) [
  | unread m ↦ (false, requeue_failed ref m v)
  | value _ ↦ (true, show_toast (codes "Job requeued ✓") "success" v)
]

-- `submitJob` after its call, of which `data.data` is the job.
unfoldable pub submit_came : Fetched Job → View → Bool × View
unfolding short_id
submit_came answer v = elim (outcome_of (λ _ r. error_or (details_text r.details) r) answer) [
  | unread m ↦ (false, show_toast m "error" v)
  | value job ↦ (true, show_toast (codes "Job submitted: " ++ short_id job.id) "success" v)
]

-- `x || '—'`
abbrev pub or_dash : String → String
or_dash s = if str_eq s "" then "—" else s

module _ (locale : ℕ → Text) where
  -- `fetchJobs` after its call; `now` is the time as a text.
  unfoldable pub jobs_came : Text → Fetched Jobs → View → View
  unfolding jobs_failed render_table update_stats
  jobs_came now (offline m) v = jobs_failed m v
  jobs_came now (refused code r) v = jobs_failed (listing_error code r) v
  jobs_came now (accepted (unread m)) v = jobs_failed m v
  jobs_came now (accepted (value a)) v =
      let jobs = or_empty a.data_rows in
      let shown = render_table locale jobs (hide_error (record v { all_jobs = jobs })) in
      record (update_stats jobs a.total shown) { updated = some now }

  -- One entry of the template of `openLogs`
  abbrev pub log_row : AuditLog → LogRow
  log_row l = record {
    time = fmt_time locale l.created_at;
    from = elim l.from_status [ none ↦ "—" | some s ↦ status_name s ];
    to = status_name l.to_status;
    worker = truthy l.worker_id;
    message = or_dash l.message;
  }

  -- `!data.data?.length`
  abbrev pub logs_body : Option (List AuditLog) → ModalBody
  logs_body none = no_logs
  logs_body (some []) = no_logs
  logs_body (some (l ∷ ls)) = log_rows (map log_row (l ∷ ls))

  abbrev pub modal_of : Fetched (Option (List AuditLog)) → ModalBody
  modal_of (offline m) = failure (codes "Error: " ++ m)
  modal_of (refused code (unread m)) = failure (codes "Error: " ++ m)
  modal_of (refused code (value r)) = no_logs
  modal_of (accepted (unread m)) = failure (codes "Error: " ++ m)
  modal_of (accepted (value logs)) = logs_body logs

  -- `openLogs` after its call
  abbrev pub logs_came : Fetched (Option (List AuditLog)) → View → View
  logs_came answer v = record v { modal_body = modal_of answer }
