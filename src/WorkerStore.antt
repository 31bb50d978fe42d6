-- ===== src/WorkerStore.antt =====
-- The worker's store, worker-service/internal/db/mysql.go, on the tables of the API's database: what
-- its methods share. A method is an action of a session; the errors that Go returns are the
-- session's errors. The child modules Claim, Lease and Dispatch model the methods.
pub mod Rules
pub mod Claim
pub mod Lease
pub mod Dispatch
pub mod Held
use scalequeue.Common.{
  ℕ, ◌+◌, String, Bool, true, false, not, ◌&&◌, Option, none, some, ltb, ◌==◌, str_eq, ⊤,
}
use scalequeue.Schema.{JobStatus, Job, Db}
use scalequeue.Schema.Tables.{same_key, insert_log}
use scalequeue.Session.{
  Error, message, Result, Session, Action, ◌>>◌, execute, get_connection, begin_transaction,
  rollback, close_transaction,
}

abbrev pub busy : Error
busy = message "job has an active lease"

abbrev pub lost_lease : Error
lost_lease = message "job lease lost"

-- s.DB.BeginTx
abbrev pub begin_tx : Action ⊤
begin_tx = get_connection >> begin_transaction

abbrev pub roll_back_open : Option Db → {A : Type 0} → Result A × Session → Result A × Session
roll_back_open none (r, s) = (r, close_transaction s)
roll_back_open (some w) (r, s) = (r, close_transaction (rollback s).1)

-- defer tx.Rollback(): what is open when the method returns is rolled back, and the error of that
-- is dropped.
unfoldable pub with_rollback : {A : Type 0} → Result A × Session → Result A × Session
with_rollback m = roll_back_open m.1.working m

-- NOW(6) is before the instant: false for NULL.
abbrev pub is_after : Option ℕ → ℕ → Bool
is_after none now = false
is_after (some t) now = ltb now t

abbrev pub is_processing : JobStatus → Bool
is_processing JobStatus.pending = false
is_processing JobStatus.processing = true
is_processing JobStatus.completed = false
is_processing JobStatus.failed = false
is_processing JobStatus.dead = false

-- WHERE id=? AND generation=? AND status='PROCESSING' AND lease_owner=? AND lease_until>NOW(6)
abbrev pub is_held : Job → ℕ → Job → Bool
is_held j now row =
    str_eq row.id j.id
    && (row.generation == j.generation
        && (is_processing row.status
            && (same_key row.lease_owner j.lease_owner && is_after row.lease_until now)))

abbrev pub audit : String → JobStatus → JobStatus → String → Option String → Action ⊤
audit id from to text owner = execute (insert_log id (some from) to text owner)
