-- ===== src/Dashboard/Late.antt =====
-- What stays on the page of dashboard/app.js after a later event.
use scalequeue.Common.{ap, ◌∙◌, All, false, Bool, ℕ, ◌≡◌, refl, String, true, List, [], ◌∷◌, arith}
use scalequeue.Identity.{Text}
use scalequeue.Dashboard.{loading, ModalBody, View}
use scalequeue.Dashboard.Drawing.{render_table, update_stats, set_button}
use scalequeue.Dashboard.Answers.{
  modal_of, requeue_failed, jobs_failed, jobs_came, requeue_came, submit_came,
}
use scalequeue.Dashboard.Events.{
  open_logs, setup_refresh, on_key, set_filter, PageEvent, logs_clicked, logs_answered, react,
  browse,
}

-- The dot that shows a failed fetch keeps its colour.
dot-react :
    (locale : ℕ → Text) (e : PageEvent) (v : View)
    → v.dot_failed ≡ true
    → (react locale e v).1.dot_failed ≡ true
unfolding react set_filter setup_refresh render_table jobs_came jobs_failed update_stats set_button
    requeue_came requeue_failed submit_came on_key
dot-react locale e v h = ground arith

-- Once a fetch has failed, the dot keeps the colour of a failure for as long as the page is open:
-- no event takes it back, neither a refresh that succeeds nor any other.
pub failed_dot_stays :
    (locale : ℕ → Text) (v : View) (es : List PageEvent)
    → v.dot_failed ≡ true
    → (browse locale v es).dot_failed ≡ true
unfolding browse
failed_dot_stays locale v [] h = h
failed_dot_stays locale v (e ∷ es) h =
    failed_dot_stays locale (react locale e v).1 es (dot-react locale e v h)

abbrev pub is_logs_click : PageEvent → Bool
is_logs_click (logs_clicked id) = true
is_logs_click _ = false

-- What the window shows after some events: the last answer to a call for logs, whichever job it was
-- for.
module _ (locale : ℕ → Text) where
  abbrev pub answer_or : ModalBody → PageEvent → ModalBody
  answer_or b (logs_answered a) = modal_of locale a
  answer_or b _ = b

  abbrev pub last_answer : ModalBody → List PageEvent → ModalBody
  last_answer b [] = b
  last_answer b (e ∷ es) = last_answer (answer_or b e) es

  react-modal :
      (e : PageEvent) (v : View)
      → is_logs_click e ≡ false
      → ((react locale e v).1.modal_job ≡ v.modal_job)
        × ((react locale e v).1.modal_body ≡ answer_or v.modal_body e)
  unfolding react set_filter setup_refresh render_table jobs_came jobs_failed update_stats
      set_button requeue_came requeue_failed submit_came on_key
  react-modal e v h = ground arith

  browse-modal :
      (es : List PageEvent) (v : View)
      → All (λ e. is_logs_click e ≡ false) es
      → ((browse locale v es).modal_job ≡ v.modal_job)
        × ((browse locale v es).modal_body ≡ last_answer v.modal_body es)
  unfolding browse
  browse-modal [] v h = (refl, refl)
  browse-modal (e ∷ es) v (q, h) =
      let (job, body) = react-modal e v q in
      let (jobs, bodies) = browse-modal es (react locale e v).1 h in
      (jobs ∙ job, bodies ∙ ap (λ b. last_answer b es) body)

  -- After a click on a job's logs, and until the next such click, the window has the job's id and
  -- the answer that came last, whichever job that answer is for: a late answer for another job is
  -- shown under this job's id. Before any answer it says that it is loading.
  pub last_logs_shown :
      (v : View) (id : String) (es : List PageEvent)
      → All (λ e. is_logs_click e ≡ false) es
      → let w = browse locale v (logs_clicked id ∷ es) in
        (w.modal_job ≡ id) × (w.modal_body ≡ last_answer loading es)
  unfolding browse react
  last_logs_shown v id es h = browse-modal es (open_logs id v) h
