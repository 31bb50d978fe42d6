-- ===== src/Consumer/Deliveries.antt =====
-- Which deliveries the consumer of worker-service/internal/queue acknowledges.
use scalequeue.Common.{
  ℕ, zero, suc, ◌+◌, ◌^◌, ◌/◌, ◌%◌, ◌≤◌, ◌<◌, ◌≡◌, ◌≢◌, refl, ◌∙◌, ap, inl, inr, String, true,
  Option, none, some, [], ◌∷◌, ltb, arith, Bool-cases, eq_iff, str_eq, ⊤,
}
use scalequeue.Schema.{Job}
use scalequeue.Session.{Session, Result, ok, err}
use scalequeue.Identity.{Text, decimal, decimal_from}
use scalequeue.Http.{digits_from}
use scalequeue.Http.Numbers.{
  StartsWithDigit, digits_from-decimal_from, decimal_from-StartsWithDigit,
}
use scalequeue.Backoff.{pos}
use scalequeue.Worker.{Outcome, Surroundings}
use scalequeue.Worker.Attempt.{Returning, IsProcessed, process_job_lem}
use scalequeue.Consumer.{
  Message, published, all_digits, unsigned, as_positive, atoi, well_formed, read, Delivery,
  retained, acknowledged, settle_delivery, handle_read, handle,
}

all_digits-decimal_from :
    (fuel n : ℕ) (s : Text)
    → n < fuel
    → all_digits s ≡ true
    → all_digits (decimal_from fuel n s) ≡ true
unfolding decimal_from
all_digits-decimal_from zero n s h e = absurd (omega arith)
all_digits-decimal_from (suc fuel) n s h e = elim (Bool-cases (ltb n 10)) [
  | inl small ↦ rw small (ground arith)
  | inr large ↦
      let more : 10 ≤ n = ground arith in
      let last : n % 10 < 10 = omega arith in
      rw large (all_digits-decimal_from fuel (n / 10) _ (omega arith) (ground arith))
]

atoi_digit :
    (k : ℕ) (s : Text)
    → k < 10
    → all_digits ((b'0' + k) ∷ s) ≡ true
    → atoi ((b'0' + k) ∷ s) ≡ as_positive (some (digits_from 0 ((b'0' + k) ∷ s)))
unfolding atoi unsigned
atoi_digit k s small all = ground arith

-- A text of digits alone that starts with one is read as its value.
atoi_digits :
    (t : Text)
    → StartsWithDigit t
    → all_digits t ≡ true
    → atoi t ≡ as_positive (some (digits_from 0 t))
unfolding StartsWithDigit
atoi_digits t (k, s, small, e) all = rw e (atoi_digit k s small (rw e at all))

small-as_positive : (n : ℕ) → n < 2 ^ 63 → as_positive (some n) ≡ some (pos n)
unfolding as_positive
small-as_positive n h = ground arith

atoi-decimal : (n : ℕ) → n < 2 ^ 63 → atoi (decimal n) ≡ some (pos n)
unfolding decimal digits_from
atoi-decimal n h =
    atoi_digits _ (decimal_from-StartsWithDigit (suc n) n [] (omega arith))
      (all_digits-decimal_from (suc n) n [] (omega arith) refl)
    ∙ ap (λ m. as_positive (some m)) (digits_from-decimal_from (suc n) n [] (omega arith))
    ∙ small-as_positive n h

well_formed_lem :
    (id : String) (generation : ℕ)
    → id ≢ ""
    → 1 ≤ generation
    → well_formed id (some (pos generation)) ≡ some (id, generation)
well_formed_lem id zero named positive = absurd (omega arith)
well_formed_lem id (suc n) named positive = elim (Bool-cases (str_eq id "")) [
  | inl e ↦ absurd (named ((eq_iff id "").0 e))
  | inr e ↦ rw e refl
]

-- The consumer reads from a delivery the job and the generation that the dispatcher published, for
-- every id but the empty one and every positive generation of Go's `int`.
pub read-published :
    (id : String) (generation : ℕ)
    → id ≢ ""
    → 1 ≤ generation
    → generation < 2 ^ 63
    → read (published id generation) ≡ some (id, generation)
unfolding read
read-published id generation named positive bounded =
    rw (atoi-decimal generation bounded) (well_formed_lem id generation named positive)

-- How the handling of a delivery ends, from the session `s`.
pub data Handled (run : Job → Outcome) (around : Surroundings) (lease : ℕ) (owner : String)
    (m : Message) (s : Session) (r : Delivery × Session) : Type 0 where
  malformed :
      read m ≡ none
      → r.0 ≡ retained
      → r.1.committed ≡ s.committed
      → Handled run around lease owner m s r
  kept :
      (id : String) (generation : ℕ)
      → read m ≡ some (id, generation)
      → r.0 ≡ retained
      → Handled run around lease owner m s r
  done :
      (id : String) (generation : ℕ)
      → read m ≡ some (id, generation)
      → r.0 ≡ acknowledged
      → IsProcessed run around lease owner id generation s r.1.committed
      → Handled run around lease owner m s r

module _ (run : Job → Outcome) (around : Surroundings) (lease : ℕ) (owner : String) where
  settle_delivery_lem :
      (m : Message) (id : String) (generation : ℕ) (s : Session) (r : Result ⊤ × Session)
      → read m ≡ some (id, generation)
      → Returning (λ _ e. IsProcessed run around lease owner id generation s e) r
      → Handled run around lease owner m s (settle_delivery r)
  unfolding settle_delivery
  settle_delivery_lem m id generation s (ok a, t) e h = done id generation e refl h.holds
  settle_delivery_lem m id generation s (err x, t) e h = kept id generation e refl

  handle_read_lem :
      (m : Message) (o : Option (String × ℕ)) (s : Session)
      → read m ≡ o
      → Handled run around lease owner m s (handle_read run around lease owner o s)
  unfolding handle_read
  handle_read_lem m none s e = malformed e refl refl
  handle_read_lem m (some (id, generation)) s e =
      settle_delivery_lem m id generation s _ e
        (process_job_lem run around lease owner id generation s)

  -- A delivery is acknowledged only where its work is done: it names a job and a generation, and
  -- either nothing changed, and when the claim read the row the job was unknown, of another
  -- generation, COMPLETED or DEAD, or under no lease that ran on and not yet due; or the claim gave
  -- up a free job with no attempt left; or it took a free job and the verdict on the handler's
  -- outcome was stored for the row that the worker still held. So a delivery of a job that another
  -- worker runs is not acknowledged. Every other delivery stays pending, and one that is malformed
  -- changes nothing; whatever fails and whatever other sessions commit meanwhile.
  pub handle_lem :
      (m : Message) (s : Session)
      → Handled run around lease owner m s (handle run around lease owner m s)
  unfolding handle
  handle_lem m s = handle_read_lem m (read m) s refl
