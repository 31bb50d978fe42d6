-- ===== src/WorkerStore/Dispatch.antt =====
-- `Dispatch` of worker-service/internal/db/mysql.go. `publish` is the caller's function, and
-- `skipped` tells the outbox rows that another transaction has locked.
pub mod Soundness
pub mod Counters
pub mod Liveness
use scalequeue.Common.{
  ℕ, ◌+◌, String, Bool, true, false, not, ◌&&◌, ◌||◌, Option, none, some, ltb, leb, ◌==◌, find?,
  filter, map_where, if◌then◌else◌, ⊤,
}
use scalequeue.Schema.{Job, Outbox, Db}
use scalequeue.Schema.Tables.{find_job, Reply, done}
use scalequeue.Session.{
  Error, message, Action, pure, throw, ◌>>=◌, ◌>>◌, statement, execute, query, commit,
}
use scalequeue.WorkerStore.{begin_tx, with_rollback}
use scalequeue.WorkerStore.Claim.{is_final}

-- published_at IS NULL OR published_at<TIMESTAMPADD(SECOND,-30,NOW(6))
abbrev pub is_unheard : Option ℕ → ℕ → Bool
is_unheard none now = true
is_unheard (some t) now = ltb (t + 30000000) now

abbrev pub is_due : (ℕ → Bool) → ℕ → Outbox → Bool
is_due skipped now o =
    not (skipped o.id) && (leb o.available_at now && is_unheard o.published_at now)

abbrev pub has_number : ℕ → Outbox → Bool
has_number n o = o.id == n

-- DELETE FROM job_outbox WHERE id=?
abbrev pub delete_outbox : ℕ → Db → Db
delete_outbox n d = record d { outbox = filter (λ o. not (has_number n o)) d.outbox }

abbrev pub stamp : ℕ → Outbox → Outbox
stamp now o = record o { published_at = some now }

-- UPDATE job_outbox SET published_at=NOW(6) WHERE id=?
abbrev pub mark_published : ℕ → ℕ → Db → Db
mark_published n now d = record d { outbox = map_where (has_number n) (stamp now) d.outbox }

-- sql.ErrNoRows
abbrev pub no_rows : Error
no_rows = message "sql: no rows in result set"

-- The row's generation is over, or its job is settled.
abbrev pub is_over : Outbox → Job → Bool
is_over o j = not (j.generation == o.generation) || is_final j.status

module _ (skipped : ℕ → Bool) (publish : String → ℕ → Action ⊤) where
  -- The test is `is_over`.
  deliver : Bool → Outbox → Action ⊤
  deliver true o = execute (λ now d. done (delete_outbox o.id d))
  deliver false o = do
    publish o.job_id o.generation
    execute (λ now d. done (mark_published o.id now d))

  heal : Outbox → Option Job → Action Bool
  unfolding deliver
  heal o none = throw no_rows
  heal o (some j) = do deliver (is_over o j) o; commit; pure true

  dispatch_row : Option Outbox → Action Bool
  unfolding heal
  dispatch_row none = pure false
  dispatch_row (some o) = do found ← query (find_job o.job_id); heal o found

  -- The rows stand in the order of their numbers.
  dispatch_rows : Action Bool
  unfolding dispatch_row
  dispatch_rows = do
    begin_tx
    due ← statement (λ now d. done ((find? (is_due skipped now) d.outbox, d)))
    dispatch_row due

  unfoldable pub dispatch : Action Bool
  unfolding dispatch_rows
  dispatch s = with_rollback (dispatch_rows s)
