-- ===== src/Pool/Relay.antt =====
-- The dispatcher's loop of worker-service/internal/worker/pool.go returns, and what it leaves.
pub mod Draining
use scalequeue.Common.{
  ℕ, zero, suc, ◌+◌, ◌≤◌, ◌≡◌, refl, ◌∙◌, ap, String, Bool, true, false, ◌&&◌, Option, some, List,
  [], ◌∷◌, Bool-cases, inl, inr, leb, arith, ⊤,
}
use scalequeue.Schema.{Db}
use scalequeue.Session.{Session, Result, Action}
use scalequeue.JobService.{Platform}
use scalequeue.WorkerStore.Rules.{with_rollback_idle}
use scalequeue.WorkerStore.Dispatch.{dispatch}
use scalequeue.Delivery.History.{Reachable, dispatch_intent}
use scalequeue.Worker.Steps.{IsAtRest, as_step}
use scalequeue.Pool.{Round, rests, push_result, relay}

module _ (platform : Platform) (publish : String → ℕ → Action ⊤) where
  dispatch-IsAtRest :
      (skipped : ℕ → Bool) (s : Session)
      → IsAtRest platform publish s
      → IsAtRest platform publish (dispatch skipped publish s).1
  unfolding dispatch
  dispatch-IsAtRest skipped s (idle, reached) = (
    with_rollback_idle _,
    as_step platform publish (dispatch skipped publish) s idle
        (dispatch_intent s.clock s.events skipped reached),
  )

  -- There is a result, in a session at rest on a reachable database.
  abbrev pub IsReturned : Option (List (Result Bool) × Session) → Type 0
  IsReturned o =
      (rs : List (Result Bool)) × (t : Session) × (o ≡ some (rs, t)) × IsAtRest platform publish t

  -- One iteration's call of `Dispatch`.
  abbrev turn : (ℕ → Round) → ℕ → Session → Result Bool × Session
  turn rounds n s =
      dispatch (rounds n).skipped publish (record s { committed = (rounds n).others s.committed })

  module _ (stop_at : ℕ) (fuel : ℕ) (rounds : ℕ → Round) (n : ℕ) (s : Session) where
    at_once : leb stop_at n ≡ true → relay stop_at publish (suc fuel) rounds n s ≡ some ([], s)
    unfolding relay
    at_once e = rw (relay, e) refl

    after_wait :
        leb stop_at n ≡ false
        → (rests (turn rounds n s).0 && (rounds n).stopped) ≡ true
        → relay stop_at publish (suc fuel) rounds n s
          ≡ some ((turn rounds n s).0 ∷ [], (turn rounds n s).1)
    unfolding relay
    after_wait e f = rw (relay, e, f) refl

    after_rest :
        leb stop_at n ≡ false
        → (rests (turn rounds n s).0 && (rounds n).stopped) ≡ false
        → relay stop_at publish (suc fuel) rounds n s
          ≡ push_result
              (turn rounds n s).0
              (relay stop_at publish fuel rounds (n + 1) (turn rounds n s).1)
    unfolding relay
    after_rest e f = rw (relay, e, f) refl

  -- The dispatcher returns: where `stop` is set once it has been read `stop_at` times, so many
  -- iterations and one more are enough, whatever becomes of the dispatches. From a reachable
  -- database it leaves a reachable one, and no open transaction, where other sessions do the same
  -- in between.
  pub relay_returns :
      (stop_at fuel : ℕ) (rounds : ℕ → Round) (n : ℕ) (s : Session)
      → stop_at ≤ n + fuel
      → ((m : ℕ) (d : Db)
          → Reachable platform publish d
          → Reachable platform publish ((rounds m).others d))
      → IsAtRest platform publish s
      → IsReturned (relay stop_at publish (suc fuel) rounds n s)
  relay_returns stop_at zero rounds n s h kept rest =
      ([], s, at_once stop_at zero rounds n s (ground arith), rest)
  relay_returns stop_at (suc k) rounds n s h kept rest =
      let t = (turn rounds n s).1 in
      let r = (turn rounds n s).0 in
      let rest_t =
        dispatch-IsAtRest (rounds n).skipped
          (record s { committed = (rounds n).others s.committed })
          (rest.0, kept n s.committed rest.1) in
      elim (Bool-cases (leb stop_at n)) [
        | inl e ↦ ([], s, at_once stop_at (suc k) rounds n s e, rest)
        | inr e ↦ elim (Bool-cases (rests r && (rounds n).stopped)) [
          | inl f ↦ (r ∷ [], t, after_wait stop_at (suc k) rounds n s e f, rest_t)
          | inr f ↦
              let (rs, u, ran, rest_u) =
                relay_returns stop_at k rounds (n + 1) t (omega arith) kept rest_t in
              (
                r ∷ rs,
                u,
                after_rest stop_at (suc k) rounds n s e f ∙ ap (push_result r) ran,
                rest_u,
              )
        ]
      ]
