-- ===== src/Dashboard/Events.antt =====
-- What happens on the page of dashboard/app.js, event by event. Every function that the page calls
-- is an event or a part of one; the answer to a call is an event of its own, so that answers come in
-- any order.
use scalequeue.Common.{
  ℕ, zero, suc, String, Bool, true, false, Option, none, some, List, [], ◌∷◌, if◌then◌else◌, str_eq,
}
use scalequeue.Schema.{Job, AuditLog}
use scalequeue.Identity.{Text, codes}
use scalequeue.Http.{Number, nan, plus, minus, parse_int}
use scalequeue.Dashboard.{Fetched, Jobs, Call, Ref, Inputs, loading, View, opened}
use scalequeue.Dashboard.Drawing.{show_toast, hide_toast, render_table, set_button}
use scalequeue.Dashboard.Calls.{fetch_jobs, requeue_call, logs_call, submit_job}
use scalequeue.Dashboard.Answers.{waiting_button, jobs_came, requeue_came, submit_came, logs_came}

-- `typed` is a change of the form's values. `ticked` is the refresh timer, `refreshed` the button.
-- The month and the payment id of `job_submitted` are the clock's and the random generator's.
pub data PageEvent : Type 0 where
  typed : Inputs → PageEvent
  filter_clicked : String → PageEvent
  refreshed ticked : PageEvent
  jobs_answered : Text → Fetched Jobs → PageEvent
  requeue_clicked : Ref → PageEvent
  requeue_answered : Ref → Fetched Unit → PageEvent
  job_submitted : ℕ → String → PageEvent
  submit_answered : Fetched Job → PageEvent
  logs_clicked : String → PageEvent
  logs_answered : Fetched (Option (List AuditLog)) → PageEvent
  modal_clicked : (on_backdrop : Bool) → PageEvent
  modal_closed : PageEvent
  key_pressed : String → (in_field : Bool) → PageEvent
  interval_changed : PageEvent
  toast_expired : PageEvent
  id_copied : PageEvent

abbrev pub positive_or_none : Number → Option ℕ
positive_or_none nan = none
positive_or_none (plus zero) = none
positive_or_none (plus (suc n)) = some (suc n)
positive_or_none (minus n) = none

-- `setupRefresh`
unfoldable pub setup_refresh : View → View
setup_refresh v = record v {
  timer = positive_or_none (parse_int (codes v.inputs.refresh_interval));
}

-- `closeModal`, of a click on the backdrop or its contents, or without an event
abbrev pub close_modal : Option Bool → View → View
close_modal none v = record v { modal_shown = false }
close_modal (some true) v = record v { modal_shown = false }
close_modal (some false) v = v

-- The first part of `openLogs`
abbrev pub open_logs : String → View → View
open_logs id v = record v { modal_job = id; modal_body = loading; modal_shown = true }

-- The calls that are sent.
abbrev pub and_fetch : Bool × View → List Call × View
and_fetch (false, v) = ([], v)
and_fetch (true, v) = (fetch_jobs v ∷ [], v)

abbrev pub on_tick : Option ℕ → View → List Call × View
on_tick none v = ([], v)
on_tick (some n) v = (fetch_jobs v ∷ [], v)

-- The listener of `keydown`
unfoldable pub on_key : String → Bool → View → List Call × View
on_key key in_field v =
    if str_eq key "Escape"
    then ([], close_modal none v)
    else if str_eq key "r"
    then (if in_field then ([], v) else (fetch_jobs v ∷ [], v))
    else ([], v)

-- The page after the call of `setupRefresh` at the script's end.
abbrev pub start_page : Inputs → View
start_page inputs = setup_refresh (opened inputs)

module _ (locale : ℕ → Text) where
  -- `setFilter`
  unfoldable pub set_filter : String → View → View
  unfolding render_table
  set_filter status v =
      render_table locale v.all_jobs (record v { active = status; current_filter = status })

  -- An event, with the calls that it sends.
  unfoldable pub react : PageEvent → View → List Call × View
  unfolding set_filter setup_refresh on_key requeue_came submit_came jobs_came set_button submit_job
      fetch_jobs
  react (typed inputs) v = ([], record v { inputs = inputs })
  react (filter_clicked status) v = ([], set_filter status v)
  react refreshed v = (fetch_jobs v ∷ [], v)
  react ticked v = on_tick v.timer v
  react (jobs_answered now answer) v = ([], jobs_came locale now answer v)
  react (requeue_clicked ref) v = (requeue_call ref.id v ∷ [], set_button ref waiting_button v)
  react (requeue_answered ref answer) v = and_fetch (requeue_came ref answer v)
  react (job_submitted month payment) v = (submit_job month payment v ∷ [], v)
  react (submit_answered answer) v = and_fetch (submit_came answer v)
  react (logs_clicked id) v = (logs_call id v ∷ [], open_logs id v)
  react (logs_answered answer) v = ([], logs_came locale answer v)
  react (modal_clicked on_backdrop) v = ([], close_modal (some on_backdrop) v)
  react modal_closed v = ([], close_modal none v)
  react (key_pressed key in_field) v = on_key key in_field v
  react interval_changed v = ([], setup_refresh v)
  react toast_expired v = ([], hide_toast v)
  react id_copied v = ([], show_toast (codes "Job ID copied!") "success" v)

  -- The page after some events.
  unfoldable pub browse : View → List PageEvent → View
  unfolding react
  browse v [] = v
  browse v (e ∷ es) = browse (react e v).1 es
