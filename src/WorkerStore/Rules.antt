-- ===== src/WorkerStore/Rules.antt =====
-- Rules for the transactions of worker-service/internal/db/mysql.go.
use scalequeue.Common.{Bool, true, false, if◌then◌else◌, ◌≡◌, refl, Option, none, some}
use scalequeue.Schema.{Db}
use scalequeue.Session.{Session, Action, Error, Result, ok, err, rollback, close_transaction}
use scalequeue.Session.Rules.{
  Ends, Ends-mono, Ends-continue, IsInside, get_connection_lem, begin-IsInside, rollback_lem,
}
use scalequeue.WorkerStore.{begin_tx, roll_back_open, with_rollback}

Ends-state :
    {A : Type 0} {P : Session → Type 0} (m : Result A × Session)
    → Ends (λ _ t. P t) (λ _ t. P t) m
    → P m.1
Ends-state (ok a, s) h = h.holds
Ends-state (err e, s) h = h.holds

-- What holds of the committed database.
abbrev pub EndsDb :
    {A : Type 0} → (Error → Db → Type 0) → (A → Db → Type 0) → Result A × Session → Type 0
EndsDb E P m = Ends (λ e t. E e t.committed) (λ a t. P a t.committed) m

module _ {A : Type 0} (E : Error → Db → Type 0) (P : A → Db → Type 0) where
  rolled_back :
      (r : Result A) (s t : Session)
      → t.committed ≡ s.committed
      → EndsDb E P (r, s)
      → EndsDb E P (r, close_transaction t)
  rolled_back (ok a) s t e h = record { holds = rw e h.holds }
  rolled_back (err x) s t e h = record { holds = rw e h.holds }

  roll_back_open-EndsDb :
      (w : Option Db) (r : Result A) (s : Session)
      → EndsDb E P (r, s)
      → EndsDb E P (roll_back_open w (r, s))
  roll_back_open-EndsDb none r s h = rolled_back r s s refl h
  roll_back_open-EndsDb (some w) r s h =
      rolled_back r s (rollback s).1
        (Ends-state {P = λ t. t.committed ≡ s.committed} (rollback s)
          (Ends-mono _ (λ _ t q. q.0.0) (λ _ t q. q.0) (rollback_lem s refl)))
        h

  -- The deferred rollback leaves what was committed, and the result.
  pub with_rollback-EndsDb : (m : Result A × Session) → EndsDb E P m → EndsDb E P (with_rollback m)
  unfolding with_rollback
  with_rollback-EndsDb (r, s) h = roll_back_open-EndsDb s.working r s h

  pub if-EndsDb :
      (b : Bool) (m n : Action A) (s : Session)
      → (b ≡ true → EndsDb E P (m s))
      → (b ≡ false → EndsDb E P (n s))
      → EndsDb E P ((if b then m else n) s)
  if-EndsDb true m n s on_true on_false = on_true refl
  if-EndsDb false m n s on_true on_false = on_false refl

pub begin_tx-IsInside :
    {d : Db} (s : Session)
    → s.committed ≡ d
    → Ends (λ _ t. t.committed ≡ d) (λ _ t. IsInside d d t) (begin_tx s)
begin_tx-IsInside s e =
    Ends-continue _ _ (Ends-mono _ (λ _ t q. q.0) (λ _ t q. q) (get_connection_lem s e))
      λ _ s1 h1. Ends-mono _ (λ _ t q. q.0) (λ _ t q. q) (begin-IsInside s1 h1)

roll_back_open_idle :
    {A : Type 0} (w : Option Db) (m : Result A × Session) → (roll_back_open w m).1.working ≡ none
roll_back_open_idle none (r, s) = refl
roll_back_open_idle (some w) (r, s) = refl

-- No transaction is open after the method.
pub with_rollback_idle : {A : Type 0} (m : Result A × Session) → (with_rollback m).1.working ≡ none
unfolding with_rollback
with_rollback_idle m = roll_back_open_idle m.1.working m
