-- ===== src/Worker/Steps.antt =====
-- Sessions at rest between the calls of the store of worker-service/internal/db/mysql.go, and a call
-- as a step of a history.
use mathlib.Core.Path.{subst}
use scalequeue.Common.{sym, ℕ, ◌≡◌, String, none, ⊤}
use scalequeue.Session.{Session, Action}
use scalequeue.JobService.{Platform}
use scalequeue.Delivery.History.{connect, left_by, Reachable}

module _ (platform : Platform) (publish : String → ℕ → Action ⊤) where
  -- A session at rest on a database that a history reaches.
  abbrev pub IsAtRest : Session → Type 0
  IsAtRest s = (s.working ≡ none) × Reachable platform publish s.committed

  -- A session at rest is a pooled connection.
  connected : (s : Session) → s.working ≡ none → s ≡ connect s.committed s.clock s.events
  connected s h = λ i. record s { working = h i }

  pub as_step :
      {A : Type 0} (m : Action A) (s : Session)
      → s.working ≡ none
      → Reachable platform publish (left_by (m (connect s.committed s.clock s.events)))
      → Reachable platform publish (left_by (m s))
  as_step m s h r = subst (λ t. Reachable platform publish (left_by (m t))) (sym (connected s h)) r
