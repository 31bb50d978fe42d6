-- ===== src/Pool/Relay/Draining.antt =====
-- The dispatcher's loop of worker-service/internal/worker/pool.go, where nothing is lost.
use scalequeue.Common.{ℕ, ◌+◌, ◌<◌, ◌≡◌, ◌⊎◌, false}
use scalequeue.Schema.{Db}
use scalequeue.Session.{Session}
use scalequeue.Session.Rules.{IsOutside}
use scalequeue.Session.Timely.{IsTimely}
use scalequeue.WorkerStore.Dispatch.Liveness.{unlocked, due_count, IsLess}
use scalequeue.Pool.{Round}

-- Other sessions leave the database alone and lock nothing, and `stop` is not set during a wait.
pub record IsQuiet (r : Round) : Type 0 where
  pub same : (d : Db) → r.others d ≡ d
  pub nothing_locked : r.skipped ≡ unlocked
  pub going_on : r.stopped ≡ false

-- One intent fewer is due, or none is.
abbrev Moves : ℕ → ℕ → Db → Session → Type 0
Moves low high d t =
    (e : Db) × IsOutside e t
    × IsTimely low high t
    × (IsLess low high d e ⊎ ((e ≡ d) × (due_count low d ≡ 0)))

-- Drained at `low`, or enough iterations are left.
abbrev IsDraining : ℕ → ℕ → ℕ → ℕ → Db → Type 0
IsDraining low high stop_at n d = (due_count low d ≡ 0) ⊎ (n + due_count high d < stop_at)
