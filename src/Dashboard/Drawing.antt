-- ===== src/Dashboard/Drawing.antt =====
-- What dashboard/app.js draws: `renderTable`, `updateStats`, the toast and the banner.
use Prim.Native.String.{◌++◌ as str_append}
use scalequeue.Common.{
  ℕ, ◌+◌, String, Bool, true, false, ◌||◌, Option, none, some, List, [], ◌∷◌, ◌++◌, map, ltb, ◌==◌,
  length, take, if◌then◌else◌, str_eq,
}
use scalequeue.Schema.{JobStatus, status_name, Job}
use scalequeue.Identity.{Text, codes, units, decimal}
use scalequeue.Dashboard.{Button, Row, Table, no_jobs, rows, Counts, View, Ref}

-- `showToast`
abbrev pub show_toast : Text → String → View → View
show_toast msg type v = record v {
  toast = record { text = msg; class = str_append "show " type; timer = true };
}

-- The toast's time-out.
abbrev pub hide_toast : View → View
hide_toast v = elim v.toast.timer [
  | true ↦ record v { toast = record { text = v.toast.text; class = ""; timer = false } }
  | false ↦ v
]

-- `showError`
abbrev pub show_error : Text → View → View
show_error msg v = record v { banner = codes "⚠ " ++ msg; banner_shown = true }

-- `hideError`
abbrev pub hide_error : View → View
hide_error v = record v { banner_shown = false }

-- `shortId`, in UTF-16 code units.
unfoldable pub short_id : String → Text
short_id id = if str_eq id "" then codes "—" else take 8 (units (codes id)) ++ codes "…"

-- `job.status === 'DEAD' || job.status === 'FAILED'`
unfoldable pub can_requeue : Job → Bool
can_requeue job = str_eq (status_name job.status) "DEAD" || str_eq (status_name job.status) "FAILED"

abbrev pub requeue_button : Button
requeue_button = record { text = "requeue"; disabled = false }

-- `${n} job${n !== 1 ? 's' : ''}`
unfoldable pub count_text : ℕ → Text
count_text n = decimal n ++ (if n == 1 then codes " job" else codes " jobs")

-- `locale` formats an instant as `toLocaleDateString` and `toLocaleTimeString` do.
module _ (locale : ℕ → Text) where
  -- `fmtTime`; the instants of the rows are never absent.
  abbrev pub fmt_time : ℕ → Text
  fmt_time at = locale at

  -- One row of the template of `renderTable`.
  unfoldable pub draw_row : Job → Row
  unfolding short_id can_requeue
  draw_row job = record {
    id = job.id;
    short = short_id job.id;
    type = job.type;
    status = status_name job.status;
    has_retries = ltb 0 job.retry_count;
    retries = decimal job.retry_count ++ b'/' ∷ decimal job.max_retries;
    priority = job.priority;
    created = fmt_time job.created_at;
    requeue = if can_requeue job then some requeue_button else none;
  }

  abbrev pub draw : List Job → Table
  draw [] = no_jobs
  draw (j ∷ js) = rows (map draw_row (j ∷ js))

  -- `renderTable`
  unfoldable pub render_table : List Job → View → View
  unfolding draw_row count_text
  render_table jobs v = record v {
    result_count = count_text (length jobs);
    table = draw jobs;
    drawing = v.drawing + 1;
  }

-- `counts[j.status]++`
unfoldable pub tally : JobStatus → Counts → Counts
tally JobStatus.pending c = record c { pending = c.pending + 1 }
tally JobStatus.processing c = record c { processing = c.processing + 1 }
tally JobStatus.completed c = record c { completed = c.completed + 1 }
tally JobStatus.failed c = record c { failed = c.failed + 1 }
tally JobStatus.dead c = record c { dead = c.dead + 1 }

-- The loop of `updateStats`.
unfoldable pub tally_all : List Job → Counts → Counts
unfolding tally
tally_all [] c = c
tally_all (j ∷ js) c = tally_all js (tally j.status c)

abbrev pub no_counts : Counts
no_counts = record { pending = 0; processing = 0; completed = 0; failed = 0; dead = 0 }

-- `total ?? jobs.length`
abbrev pub total_or_length : Option ℕ → List Job → ℕ
total_or_length none jobs = length jobs
total_or_length (some n) jobs = n

-- `updateStats`
unfoldable pub update_stats : List Job → Option ℕ → View → View
unfolding tally_all
update_stats jobs total v = record v {
  stats = some (record { total = total_or_length total jobs; counts = tally_all jobs no_counts });
}

-- A change of the button that a reference names; a button of an earlier drawing is no longer shown.
abbrev pub set_row_button : String → Button → Row → Row
set_row_button id b r =
    if str_eq r.id id
    then (elim r.requeue [ none ↦ r | some _ ↦ record r { requeue = some b } ])
    else r

abbrev pub set_table_button : String → Button → Table → Table
set_table_button id b (rows rs) = rows (map (set_row_button id b) rs)
set_table_button id b Table.unconfigured = Table.unconfigured
set_table_button id b no_jobs = no_jobs

unfoldable pub set_button : Ref → Button → View → View
set_button ref b v =
    if ref.drawing == v.drawing then record v { table = set_table_button ref.id b v.table } else v
