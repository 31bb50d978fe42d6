-- ===== src/Tests/Page.antt =====
-- The dashboard's theorems at concrete inputs.
use scalequeue.Common.{◌≡◌, refl, ◌⊎◌, true, none, some, List, [], ◌∷◌}
use scalequeue.Schema.{JobStatus}
use scalequeue.Session.Rules.{IsOutside}
use scalequeue.Identity.{codes, decimal}
use scalequeue.Server.{serve}
use scalequeue.Dashboard.{loading, Ref, offline, accepted, value, Jobs, Inputs, View, opened}
use scalequeue.Dashboard.Calls.{fetch_jobs, requeue_call}
use scalequeue.Dashboard.Replays.{unread_body, ShowsReplay, replay_click_lem}
use scalequeue.Dashboard.Answers.{jobs_came}
use scalequeue.Dashboard.Events.{
  PageEvent, filter_clicked, jobs_answered, requeue_clicked, logs_clicked, logs_answered, browse,
  start_page,
}
use scalequeue.Dashboard.Consistency.{dashboard_shows_jobs}
use scalequeue.Dashboard.Late.{failed_dot_stays, last_logs_shown, last_answer}
use scalequeue.Dashboard.Rows.{TableShows}
use scalequeue.Dashboard.Tallies.{StatsShow}
use scalequeue.Dashboard.Service.{
  fetched_by, request_of, fetched_of, IsKept, IsRefreshed, refresh_lem,
}
use scalequeue.Tests.Data.{demo, demo_validator, demo-OrdersRows, row, long_id, long_jobs, quiet}
use scalequeue.Tests.Server.{exact, exact-MatchesPaths}

abbrev form : Inputs
form = record {
  api_url = "http://localhost:3000/";
  api_key = "secret";
  job_type = "send_email";
  max_retries = "3";
  priority = "5";
  refresh_interval = "5000";
}

abbrev answer : Jobs
answer = record {
  data_rows = some (row long_id JobStatus.dead ∷ row "b" JobStatus.pending ∷ []);
  total = some 7;
}

abbrev events : List PageEvent
events =
    jobs_answered [] (accepted (value answer))
    ∷ requeue_clicked (record { drawing = 1; id = long_id })
    ∷ filter_clicked "DEAD"
    ∷ jobs_answered [] (offline (codes "timeout"))
    ∷ []

dashboard_shows_jobs_example :
    let v = browse decimal (start_page form) events in
    TableShows decimal v.table v.all_jobs × StatsShow v.stats v.all_jobs
dashboard_shows_jobs_example = dashboard_shows_jobs decimal form events

abbrev failed_page : View
failed_page = record (opened form) { dot_failed = true }

failed_dot_stays_example : (browse decimal failed_page events).dot_failed ≡ true
failed_dot_stays_example = failed_dot_stays decimal failed_page events refl

abbrev late_answers : List PageEvent
late_answers =
    logs_answered (accepted (value none)) ∷ logs_answered (offline (codes "timeout")) ∷ []

last_logs_shown_example :
    let w = browse decimal (opened form) (logs_clicked "b" ∷ late_answers) in
    (w.modal_job ≡ "b") × (w.modal_body ≡ last_answer decimal loading late_answers)
last_logs_shown_example = last_logs_shown decimal (opened form) "b" late_answers (refl, (refl, tt))

refresh_lem_example :
    let v = opened form in
    let (r, t) =
      serve exact demo demo_validator "id" none
        (fetch_jobs v).verb
        (fetch_jobs v).path
        (request_of (fetch_jobs v))
        (quiet long_jobs) in
    let w = jobs_came decimal [] (fetched_of r) v in
    IsOutside long_jobs t × (IsKept v w ⊎ IsRefreshed demo long_jobs v w)
refresh_lem_example =
    refresh_lem exact exact-MatchesPaths demo demo-OrdersRows demo_validator "id" decimal []
      (opened form) none long_jobs (quiet long_jobs) refl (refl, refl)

abbrev button : Ref
button = record { drawing = 1; id = long_id }

replay_click_lem_example :
    let v = opened form in
    let (r, t) =
      serve exact demo demo_validator "id" none
        (requeue_call long_id v).verb
        (requeue_call long_id v).path
        (request_of (requeue_call long_id v))
        (quiet long_jobs) in
    ShowsReplay button v long_jobs (fetched_by unread_body r) t.committed
replay_click_lem_example =
    replay_click_lem exact exact-MatchesPaths demo demo_validator "id" button (opened form) none
      long_jobs (quiet long_jobs) (λ e. cc) refl (refl, refl)
