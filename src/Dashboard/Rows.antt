-- ===== src/Dashboard/Rows.antt =====
-- The rows that dashboard/app.js draws, and their requeue buttons.
use scalequeue.Common.{
  ℕ, ◌≡◌, refl, sym, ap₂, ◌∙◌, inl, inr, String, Bool, ◌||◌, none, some, List, [], ◌∷◌, map,
  Bool-cases, is_some, str_eq, arith,
}
use scalequeue.Schema.{JobStatus, status_name, Job}
use scalequeue.JobService.Requeue.{is_replayable}
use scalequeue.Identity.{Text}
use scalequeue.Dashboard.{Button, Row, Table, rows, no_jobs, unconfigured}
use scalequeue.Dashboard.Drawing.{
  can_requeue, requeue_button, draw_row, draw, set_row_button, set_table_button,
}

-- The dashboard offers a requeue exactly where `requeueJob` of the service accepts the status.
can_requeue_lem : (j : Job) → can_requeue j ≡ is_replayable j.status
unfolding can_requeue
can_requeue_lem j = of_status j.status
  where
    of_status :
        (s : JobStatus)
        → (str_eq (status_name s) "DEAD" || str_eq (status_name s) "FAILED") ≡ is_replayable s
    of_status JobStatus.pending = refl
    of_status JobStatus.processing = refl
    of_status JobStatus.completed = refl
    of_status JobStatus.failed = refl
    of_status JobStatus.dead = refl

-- A row with its button as it was drawn.
abbrev pub fresh_row : Row → Row
fresh_row r = elim r.requeue [ none ↦ r | some _ ↦ record r { requeue = some requeue_button } ]

abbrev pub has_button : Row → Bool
has_button r = is_some r.requeue

fresh_row-set_row_button :
    (id : String) (b : Button) (r : Row) → fresh_row (set_row_button id b r) ≡ fresh_row r
fresh_row-set_row_button id b r = ground arith

fresh_rows-set_row_button :
    (id : String) (b : Button) (rs : List Row)
    → map fresh_row (map (set_row_button id b) rs) ≡ map fresh_row rs
fresh_rows-set_row_button id b [] = refl
fresh_rows-set_row_button id b (r ∷ rs) =
    ap₂ (λ x xs. x ∷ xs) (fresh_row-set_row_button id b r) (fresh_rows-set_row_button id b rs)

has_button-set_row_button :
    (id : String) (b : Button) (r : Row) → has_button (set_row_button id b r) ≡ has_button r
has_button-set_row_button id b r = ground arith

has_buttons-set_row_button :
    (id : String) (b : Button) (rs : List Row)
    → map has_button (map (set_row_button id b) rs) ≡ map has_button rs
has_buttons-set_row_button id b [] = refl
has_buttons-set_row_button id b (r ∷ rs) =
    ap₂ (λ x xs. x ∷ xs) (has_button-set_row_button id b r) (has_buttons-set_row_button id b rs)

module _ (locale : ℕ → Text) where
  fresh_row-draw_row : (j : Job) → fresh_row (draw_row locale j) ≡ draw_row locale j
  unfolding draw_row
  fresh_row-draw_row j = elim (Bool-cases (can_requeue j)) [ inl e ↦ rw e refl | inr e ↦ rw e refl ]

  fresh_rows-draw_row :
      (js : List Job) → map fresh_row (map (draw_row locale) js) ≡ map (draw_row locale) js
  fresh_rows-draw_row [] = refl
  fresh_rows-draw_row (j ∷ js) =
      ap₂ (λ x xs. x ∷ xs) (fresh_row-draw_row j) (fresh_rows-draw_row js)

  has_button-draw_row : (j : Job) → has_button (draw_row locale j) ≡ is_replayable j.status
  unfolding draw_row
  has_button-draw_row j = elim (Bool-cases (can_requeue j)) [
    | inl e ↦ rw e (sym e ∙ can_requeue_lem j)
    | inr e ↦ rw e (sym e ∙ can_requeue_lem j)
  ]

  has_buttons-draw_row :
      (js : List Job)
      → map has_button (map (draw_row locale) js) ≡ map (λ j. is_replayable j.status) js
  has_buttons-draw_row [] = refl
  has_buttons-draw_row (j ∷ js) =
      ap₂ (λ x xs. x ∷ xs) (has_button-draw_row j) (has_buttons-draw_row js)

  -- The rows are those of the jobs, one by one, but for what a click made of a button; a row has
  -- a button where the job can be replayed.
  abbrev pub RowsShow : List Row → List Job → Type 0
  RowsShow rs js =
      (map fresh_row rs ≡ map (draw_row locale) js)
      × (map has_button rs ≡ map (λ j. is_replayable j.status) js)

  abbrev pub TableShows : Table → List Job → Type 0
  TableShows unconfigured js = js ≡ []
  TableShows no_jobs js = js ≡ []
  TableShows (rows rs) js = RowsShow rs js

  pub draw-TableShows : (js : List Job) → TableShows (draw locale js) js
  draw-TableShows [] = refl
  draw-TableShows (j ∷ js) = (fresh_rows-draw_row (j ∷ js), has_buttons-draw_row (j ∷ js))

  pub set_table_button-TableShows :
      (id : String) (b : Button) (t : Table) (js : List Job)
      → TableShows t js
      → TableShows (set_table_button id b t) js
  set_table_button-TableShows id b unconfigured js h = h
  set_table_button-TableShows id b no_jobs js h = h
  set_table_button-TableShows id b (rows rs) js (p, q) =
      (fresh_rows-set_row_button id b rs ∙ p, has_buttons-set_row_button id b rs ∙ q)
