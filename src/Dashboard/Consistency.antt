-- ===== src/Dashboard/Consistency.antt =====
-- The page of dashboard/app.js shows the jobs that it holds, whatever happens on it.
use scalequeue.Common.{
  Option-cases, ℕ, refl, inl, inr, String, Bool, true, false, List, [], ◌∷◌, Bool-cases, ◌==◌,
  arith,
}
use scalequeue.Schema.{Job}
use scalequeue.Identity.{codes, Text}
use scalequeue.Dashboard.{
  Reading, unread, value, Fetched, offline, refused, accepted, Jobs, Button, Inputs, View, Ref,
}
use scalequeue.Dashboard.Drawing.{
  show_toast, requeue_button, render_table, update_stats, set_button,
}
use scalequeue.Dashboard.Answers.{
  waiting_button, or_empty, requeue_failed, jobs_failed, outcome_of, jobs_came, requeue_came,
  submit_came,
}
use scalequeue.Dashboard.Events.{
  setup_refresh, on_key, and_fetch, set_filter, PageEvent, typed, filter_clicked, refreshed, ticked,
  jobs_answered, requeue_clicked, requeue_answered, job_submitted, submit_answered, logs_clicked,
  logs_answered, modal_clicked, modal_closed, key_pressed, interval_changed, toast_expired,
  id_copied, react, browse, start_page,
}
use scalequeue.Dashboard.Rows.{TableShows, draw-TableShows, set_table_button-TableShows}
use scalequeue.Dashboard.Tallies.{StatsShow, tally_all-AreCounts}

module _ (locale : ℕ → Text) where
  abbrev pub IsConsistent : View → Type 0
  IsConsistent v = TableShows locale v.table v.all_jobs × StatsShow v.stats v.all_jobs

  set_button-IsConsistent :
      (ref : Ref) (b : Button) (v : View) → IsConsistent v → IsConsistent (set_button ref b v)
  unfolding set_button
  set_button-IsConsistent ref b v (t, s) = elim (Bool-cases (ref.drawing == v.drawing)) [
    | inl e ↦ rw e ((set_table_button-TableShows locale ref.id b v.table v.all_jobs t, s))
    | inr e ↦ rw e ((t, s))
  ]

  jobs_came-IsConsistent :
      (now : Text) (a : Fetched Jobs) (v : View)
      → IsConsistent v
      → IsConsistent (jobs_came locale now a v)
  unfolding jobs_came jobs_failed render_table update_stats
  jobs_came-IsConsistent now (offline m) v h = h
  jobs_came-IsConsistent now (refused code r) v h = h
  jobs_came-IsConsistent now (accepted (unread m)) v h = h
  jobs_came-IsConsistent now (accepted (value a)) v h =
      (draw-TableShows locale (or_empty a.data_rows), tally_all-AreCounts (or_empty a.data_rows))

  requeue_came-IsConsistent :
      (ref : Ref) (a : Fetched Unit) (v : View)
      → IsConsistent v
      → IsConsistent (and_fetch (requeue_came ref a v)).1
  unfolding requeue_came requeue_failed
  requeue_came-IsConsistent ref a v h = by_outcome (outcome_of _ a)
    where
      by_outcome :
          (o : Reading Unit)
          → IsConsistent
              (and_fetch (elim o [
                | unread m ↦ (false, requeue_failed ref m v)
                | value _ ↦ (true, show_toast (codes "Job requeued ✓") "success" v)
              ])).1
      by_outcome (unread m) = set_button-IsConsistent ref requeue_button (show_toast m "error" v) h
      by_outcome (value _) = h

  submit_came-IsConsistent :
      (a : Fetched Job) (v : View) → IsConsistent v → IsConsistent (and_fetch (submit_came a v)).1
  unfolding submit_came
  submit_came-IsConsistent (offline m) v h = h
  submit_came-IsConsistent (refused code (unread m)) v h = h
  submit_came-IsConsistent (refused code (value r)) v h = h
  submit_came-IsConsistent (accepted (unread m)) v h = h
  submit_came-IsConsistent (accepted (value j)) v h = h

  on_key-IsConsistent :
      (key : String) (b : Bool) (v : View) → IsConsistent v → IsConsistent (on_key key b v).1
  unfolding on_key
  on_key-IsConsistent key b v h = ground arith

  react-IsConsistent :
      (e : PageEvent) (v : View) → IsConsistent v → IsConsistent (react locale e v).1
  unfolding react set_filter setup_refresh
  react-IsConsistent (typed inputs) v h = h
  react-IsConsistent (filter_clicked status) v (t, s) = (draw-TableShows locale v.all_jobs, s)
  react-IsConsistent refreshed v h = h
  react-IsConsistent ticked v h = elim (Option-cases v.timer) [
    | inl e ↦ rw e h
    | inr (n, e) ↦ rw e h
  ]
  react-IsConsistent (jobs_answered now a) v h = jobs_came-IsConsistent now a v h
  react-IsConsistent (requeue_clicked ref) v h = set_button-IsConsistent ref waiting_button v h
  react-IsConsistent (requeue_answered ref a) v h = requeue_came-IsConsistent ref a v h
  react-IsConsistent (job_submitted month payment) v h = h
  react-IsConsistent (submit_answered a) v h = submit_came-IsConsistent a v h
  react-IsConsistent (logs_clicked id) v h = h
  react-IsConsistent (logs_answered a) v h = h
  react-IsConsistent (modal_clicked true) v h = h
  react-IsConsistent (modal_clicked false) v h = h
  react-IsConsistent modal_closed v h = h
  react-IsConsistent (key_pressed key b) v h = on_key-IsConsistent key b v h
  react-IsConsistent interval_changed v h = h
  react-IsConsistent toast_expired v h = elim (Bool-cases v.toast.timer) [
    | inl e ↦ rw e h
    | inr e ↦ rw e h
  ]
  react-IsConsistent id_copied v h = h

  browse-IsConsistent :
      (v : View) (es : List PageEvent) → IsConsistent v → IsConsistent (browse locale v es)
  unfolding browse
  browse-IsConsistent v [] h = h
  browse-IsConsistent v (e ∷ es) h =
      browse-IsConsistent (react locale e v).1 es (react-IsConsistent e v h)

  -- Whatever the user does and whatever answers come, in whatever order: the table has one row for
  -- each of the jobs that the page holds, in their order, with what the template shows of the job;
  -- a row has a requeue button exactly where `requeueJob` of the service accepts the job's status;
  -- and each statistic is the number of the jobs with that status.
  pub dashboard_shows_jobs :
      (inputs : Inputs) (es : List PageEvent)
      → let v = browse locale (start_page inputs) es in
        TableShows locale v.table v.all_jobs × StatsShow v.stats v.all_jobs
  unfolding setup_refresh
  dashboard_shows_jobs inputs es = browse-IsConsistent (start_page inputs) es (refl, refl)
