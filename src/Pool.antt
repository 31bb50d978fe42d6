-- ===== src/Pool.antt =====
-- `Run` of worker-service/internal/worker/pool.go: the consumers that it starts, and the loop that
-- dispatches the outbox. `rand.Read` gives the nonce; the answers of XGROUP CREATE, and what an
-- iteration of the loop meets, are arguments. The goroutines are left out: Consumer/Loop is each
-- consumer's, and the loop here is the dispatcher's. The deadline of the shutdown is left out too.
pub mod Names
pub mod Relay
use scalequeue.Common.{
  ℕ, zero, suc, ◌+◌, ◌/◌, ◌%◌, String, Bool, true, false, not, ◌||◌, ◌&&◌, Option, none, some, List,
  [], ◌∷◌, ◌++◌, leb, str_eq, if◌then◌else◌, ⊤,
}
use scalequeue.Identity.{Text, hex_digit, decimal}
use scalequeue.Schema.{Db}
use scalequeue.Session.{Session, Result, ok, err, Action}
use scalequeue.WorkerStore.Dispatch.{dispatch}

-- `%x` of bytes.
pub hex_bytes : List ℕ → Text
hex_bytes [] = []
hex_bytes (b ∷ bs) = hex_digit (b / 16) ∷ hex_digit (b % 16) ∷ hex_bytes bs

-- fmt.Sprintf("%x-%d", nonce, i)
pub worker_name : List ℕ → ℕ → Text
unfolding hex_bytes
worker_name nonce i = hex_bytes nonce ++ b'-' ∷ decimal i

-- `EnsureConsumerGroup`, from the error of XGROUP CREATE MKSTREAM.
abbrev pub ensure_group : Option String → Option String
ensure_group none = none
ensure_group (some e) =
    if str_eq e "BUSYGROUP Consumer Group name already exists" then none else some e

abbrev pub with_name : Text → List Text × Option String → List Text × Option String
with_name n (ns, e) = (n ∷ ns, e)

abbrev start_or_return :
    Option String → Text → List Text × Option String → List Text × Option String
start_or_return (some e) n rest = ([], some e)
start_or_return none n rest = with_name n rest

-- The loop over the consumers, `left` of which are to be started from number `i` on: the names of
-- those that are started, and the error that `Run` returns.
unfoldable pub start_consumers :
    List ℕ → (ℕ → Option String) → (left i : ℕ) → List Text × Option String
unfolding worker_name
start_consumers nonce answers zero i = ([], none)
start_consumers nonce answers (suc left) i =
    start_or_return (ensure_group (answers i)) (worker_name nonce i)
      (start_consumers nonce answers left (i + 1))

-- What an iteration of the dispatcher meets: what other sessions have committed since the last, the
-- rows that other transactions have locked, and whether `stop` ends its wait.
pub record Round : Type 0 where
  pub others : Db → Db
  pub skipped : ℕ → Bool
  pub stopped : Bool

-- `err != nil || !more`
abbrev pub rests : Result Bool → Bool
rests (ok more) = not more
rests (err e) = true

abbrev pub push_result :
    Result Bool → Option (List (Result Bool) × Session) → Option (List (Result Bool) × Session)
push_result r none = none
push_result r (some (rs, s)) = some (r ∷ rs, s)

module _ (stop_at : ℕ) (publish : String → ℕ → Action ⊤) where
  -- The dispatcher's loop from iteration `n` on, `stop.Err()` being nil until it has been read
  -- `stop_at` times; `none` where the fuel does not reach to its return.
  unfoldable pub relay : ℕ → (ℕ → Round) → ℕ → Session → Option (List (Result Bool) × Session)
  relay zero rounds n s = none
  relay (suc fuel) rounds n s = elim (leb stop_at n) [
    | true ↦ some ([], s)
    | false ↦
        let (r, t) =
          dispatch (rounds n).skipped publish
            (record s { committed = (rounds n).others s.committed }) in
        elim (rests r && (rounds n).stopped) [
          | true ↦ some (r ∷ [], t)
          | false ↦ push_result r (relay fuel rounds (n + 1) t)
        ]
  ]
