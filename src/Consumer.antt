-- ===== src/Consumer.antt =====
-- Deliveries of the Redis stream: `Publish` of worker-service/internal/queue/requeue.go and `handle` of
-- worker-service/internal/queue/consumer.go. Redis keeps the values of a message as texts, here as
-- their code points; XACK is what the consumer asks for, whatever comes of it.
pub mod Deliveries
pub mod Loop
pub mod Completion
pub mod Progress
use scalequeue.Common.{
  ℕ, zero, suc, ◌+◌, ◌^◌, String, Bool, true, false, not, ◌&&◌, ◌||◌, Option, none, some, List, [],
  ◌∷◌, ltb, leb, ◌==◌, if◌then◌else◌, str_eq, ⊤,
}
use scalequeue.Schema.{Job}
use scalequeue.Session.{Session, Result, ok, err}
use scalequeue.Identity.{Text, codes, decimal}
use scalequeue.Http.{is_digit, digits_from}
use scalequeue.Backoff.{ℤ, pos, negsuc}
use scalequeue.Worker.{Outcome, Surroundings, process_job}

-- The values of a message; a value that is absent or no text is `none`.
pub record Message : Type 0 where
  pub job_id : Option String
  pub generation : Option Text

-- The message of `Publish`; an `int` is sent as its decimal digits.
abbrev pub published : String → ℕ → Message
published id generation = record { job_id = some id; generation = some (decimal generation) }

abbrev pub all_digits : Text → Bool
all_digits [] = true
all_digits (c ∷ s) = is_digit c && all_digits s

unsigned : Text → Option ℕ
unfolding digits_from
unsigned [] = none
unsigned (c ∷ s) = if all_digits (c ∷ s) then some (digits_from 0 (c ∷ s)) else none

-- The numbers of an `int`.
as_positive : Option ℕ → Option ℤ
as_positive none = none
as_positive (some n) = if ltb n (2 ^ 63) then some (pos n) else none

as_negative : Option ℕ → Option ℤ
as_negative none = none
as_negative (some zero) = some (pos zero)
as_negative (some (suc n)) = if ltb n (2 ^ 63) then some (negsuc n) else none

-- `strconv.Atoi`: an optional sign, and digits alone.
pub atoi : Text → Option ℤ
unfolding unsigned as_positive as_negative
atoi [] = none
atoi (c ∷ s) =
    if c == b'-'
    then as_negative (unsigned s)
    else if c == b'+'
    then as_positive (unsigned s)
    else as_positive (unsigned (c ∷ s))

-- `x, _ := v.(string)`: the empty text for a value that is none.
abbrev text_or_empty : Option Text → Text
text_or_empty none = []
text_or_empty (some t) = t

abbrev string_or_empty : Option String → String
string_or_empty none = ""
string_or_empty (some s) = s

-- The job and the generation of a delivery, unless `id == "" || err != nil || generation < 1`.
abbrev well_formed : String → Option ℤ → Option (String × ℕ)
well_formed id none = none
well_formed id (some (negsuc n)) = none
well_formed id (some (pos zero)) = none
well_formed id (some (pos (suc n))) = if str_eq id "" then none else some (id, suc n)

pub read : Message → Option (String × ℕ)
unfolding atoi
read m = well_formed (string_or_empty m.job_id) (atoi (text_or_empty m.generation))

-- What becomes of a message: it stays pending, or XACK is sent.
pub data Delivery : Type 0 where
  retained acknowledged : Delivery

settle_delivery : Result ⊤ × Session → Delivery × Session
settle_delivery (ok a, s) = (acknowledged, s)
settle_delivery (err e, s) = (retained, s)

module _ (run : Job → Outcome) (around : Surroundings) (lease : ℕ) (owner : String) where
  handle_read : Option (String × ℕ) → Session → Delivery × Session
  unfolding settle_delivery
  handle_read none s = (retained, s)
  handle_read (some (id, generation)) s =
      settle_delivery (process_job run around lease owner id generation s)

  unfoldable pub handle : Message → Session → Delivery × Session
  unfolding handle_read
  handle m s = handle_read (read m) s
