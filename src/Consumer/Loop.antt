-- ===== src/Consumer/Loop.antt =====
-- The loops of worker-service/internal/queue/consumer.go, `Start` and `recover`. `stop.Err()` is nil
-- until it has been read `stop_at` times. Waiting after an error of the stream is left out.
pub mod Returns
use scalequeue.Common.{
  ℕ, zero, suc, ◌+◌, String, Bool, true, false, Option, none, some, List, [], ◌∷◌, ◌++◌, leb,
}
use scalequeue.Schema.{Job}
use scalequeue.Session.{Session}
use scalequeue.Worker.{Outcome, Surroundings}
use scalequeue.Consumer.{Message, Delivery, handle}

-- A message and what its handling meets; `over` is whether `ctx.Err()` is set before it.
pub record Visit : Type 0 where
  pub message : Message
  pub run : Job → Outcome
  pub around : Surroundings
  pub over : Bool

-- What an iteration of `Start` meets: whether a recovery is due, the answers of XAUTOCLAIM and of
-- XREADGROUP; `none` is an error.
pub record Turn : Type 0 where
  pub due : Bool
  pub claimed : Option (String × List Visit)
  pub streamed : Option (List Visit)

abbrev pub Log : Type 0
Log = List (Message × Delivery)

-- The deliveries that were handled, how often `stop.Err()` was read, and the session.
pub record Progress : Type 0 where
  pub log : Log
  pub checks : ℕ
  pub session : Session

abbrev pub after : Log → Progress → Progress
after log p = record p { log = log ++ p.log }

abbrev pub standing : ℕ → Session → Progress
standing checks s = record { log = []; checks = checks; session = s }

-- `stop.Err() != nil`
abbrev pub is_stopped : (stop_at checks : ℕ) → Bool
is_stopped stop_at checks = leb stop_at checks

abbrev pub is_over : Bool → Visit → Bool
is_over true v = v.over
is_over false v = false

module _ (stop_at lease : ℕ) (owner : String) where
  -- The loop over the messages of an answer: whether it returned, and the progress. That of
  -- `recover` reads `ctx.Err()` first, which is the argument `recovering`.
  unfoldable pub visit_all : Bool → List Visit → ℕ → Session → Bool × Progress
  visit_all recovering [] checks s = (false, standing checks s)
  visit_all recovering (v ∷ vs) checks s = elim (is_over recovering v) [
    | true ↦ (true, standing checks s)
    | false ↦ elim (is_stopped stop_at checks) [
      | true ↦ (true, standing (checks + 1) s)
      | false ↦
          let (x, t) = handle v.run v.around lease owner v.message s in
          let (returned, p) = visit_all recovering vs (checks + 1) t in
          (returned, after ((v.message, x) ∷ []) p)
    ]
  ]

  -- `recover`, with the cursor.
  unfoldable pub recover : Option (String × List Visit) → String → ℕ → Session → String × Progress
  unfolding visit_all
  recover none cursor checks s = (cursor, standing checks s)
  recover (some (next, vs)) cursor checks s = (next, (visit_all true vs checks s).1)

  abbrev pub recover_if : Bool → Turn → String → ℕ → Session → String × Progress
  recover_if true turn cursor checks s = recover turn.claimed cursor checks s
  recover_if false turn cursor checks s = (cursor, standing checks s)

  -- The messages of XREADGROUP; after an error, `stop.Err()` is read.
  unfoldable pub stream : Option (List Visit) → ℕ → Session → Bool × Progress
  unfolding visit_all
  stream none checks s = (is_stopped stop_at checks, standing (checks + 1) s)
  stream (some vs) checks s = visit_all false vs checks s

  -- `Start` from iteration `n` on; `none` where the fuel does not reach to its return.
  unfoldable pub start : ℕ → (ℕ → Turn) → ℕ → String → ℕ → Session → Option Progress
  unfolding recover stream
  start zero turns n cursor checks s = none
  start (suc fuel) turns n cursor checks s = elim (is_stopped stop_at checks) [
    | true ↦ some (standing (checks + 1) s)
    | false ↦
        let (next, p) = recover_if (turns n).due (turns n) cursor (checks + 1) s in
        elim (is_stopped stop_at p.checks) [
          | true ↦ some (record p { checks = p.checks + 1 })
          | false ↦
              let (returned, q) = stream (turns n).streamed (p.checks + 1) p.session in
              elim returned [
                | true ↦ some (after p.log q)
                | false ↦ elim (start fuel turns (n + 1) next q.checks q.session) [
                  | none ↦ none
                  | some r ↦ some (after (p.log ++ q.log) r)
                ]
              ]
        ]
  ]
