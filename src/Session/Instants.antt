-- ===== src/Session/Instants.antt =====
-- When the round trips of an action reach the server: each takes one event, so the instant of the
-- n-th follows from the clock and the events that the session has at the beginning.
use scalequeue.Common.{ℕ, zero, suc, ◌+◌, ◌≡◌, ap, ap₂, inl, inr, arith}
use scalequeue.Schema.{Db}
use scalequeue.Schema.Tables.{SqlCode, other, Reply, done, refused}
use scalequeue.Session.{
  Fault, calm, lost_request, lost_reply, next_event, rest_events, Session, Error, sql, Result, ok,
  err, tick, next_fault, view, settle, statement, with_unit, execute, get_connection,
  begin_transaction,
}
use scalequeue.Session.Rules.{
  Ends, Ends-mono, IsInside, with_unit_done, Fault-cases, settle-IsInside, get_connection_lem,
  begin-IsInside,
}

-- The session after `n` round trips, of which the clock and the events are meant.
abbrev pub past : ℕ → Session → Session
past zero s = s
past (suc n) s = tick (past n s)

-- The instant at which the n-th round trip reaches the server.
abbrev pub instant : ℕ → Session → ℕ
instant n s = (past n s).clock

-- `n` round trips have been made since `s`.
abbrev pub IsAt : ℕ → Session → Session → Type 0
IsAt n s t = (t.clock ≡ (past n s).clock) × (t.events ≡ (past n s).events)

tick-IsAt : (n : ℕ) (s t : Session) → IsAt n s t → IsAt (suc n) s (tick t)
tick-IsAt n s t h = (ap₂ (λ c es. c + (next_event es).delay) (h.0) (h.1), ap rest_events (h.1))

module _ {A : Type 0} where
  -- A fact about the state, however the action ends.
  pub Ends-also :
      {E : Error → Session → Type 0} {P : A → Session → Type 0} {Q : Session → Type 0}
      (m : Result A × Session)
      → Ends E P m
      → Q m.1
      → Ends E (λ a t. P a t × Q t) m
  Ends-also (ok a, s) h q = record { holds = (h.holds, q) }
  Ends-also (err e, s) h q = record { holds = h.holds }

  settle-IsAt :
      (n : ℕ) (s : Session) (x : Fault) (r : Reply (A × Db)) (t : Session)
      → IsAt n s t
      → IsAt n s (settle x r t).1
  unfolding settle
  settle-IsAt n s lost_request r t h = h
  settle-IsAt n s calm (done (a, d)) t h = ground arith
  settle-IsAt n s calm (refused c) t h = h
  settle-IsAt n s lost_reply (done (a, d)) t h = ground arith
  settle-IsAt n s lost_reply (refused c) t h = h

  -- A statement of an open transaction, at its instant.
  pub statement-IsAt :
      (f : ℕ → Db → Reply (A × Db)) (n : ℕ) (s : Session) {d w : Db} (t : Session)
      → IsInside d w t
      → IsAt n s t
      → Ends
          (λ e u. (u.committed ≡ d) × ((c : SqlCode) × (e ≡ sql c)))
          (λ a u.
            ((w' : Db) × (f (instant (suc n) s) w ≡ done (a, w')) × IsInside d w' u)
            × IsAt (suc n) s u)
          (statement f t)
  unfolding statement
  statement-IsAt f n s {d} {w} t h at =
      let u = tick t in
      let seen : view u ≡ w = ground arith in
      let next = tick-IsAt n s t at in
      Ends-mono _ (λ e v q. q) (λ a v q. ((q.0.0, rw (next.0, seen) at (q.0.1), q.0.2), q.1))
        (Ends-also _
          (Ends-mono _
            (λ e v q. (q.0, elim (q.1) [ inl lost ↦ (other, lost) | inr (c, _, x) ↦ (c, x) ]))
            (λ a v q. q) (settle-IsInside (next_fault t) (f u.clock (view u)) d w u h))
          (settle-IsAt (suc n) s (next_fault t) (f u.clock (view u)) u next))

-- INSERT, UPDATE
pub execute-IsAt :
    (f : ℕ → Db → Reply Db) (n : ℕ) (s : Session) {d w : Db} (t : Session)
    → IsInside d w t
    → IsAt n s t
    → Ends
        (λ e u. (u.committed ≡ d) × ((c : SqlCode) × (e ≡ sql c)))
        (λ _ u.
          ((w' : Db) × (f (instant (suc n) s) w ≡ done w') × IsInside d w' u) × IsAt (suc n) s u)
        (execute f t)
execute-IsAt f n s t h at =
    Ends-mono _ (λ e u q. q)
      (λ a u q. ((q.0.0, with_unit_done (f (instant (suc n) s) _) q.0.1, q.0.2), q.1))
      (statement-IsAt (λ now d. with_unit (f now d)) n s t h at)

get_connection-IsAt : (n : ℕ) (s t : Session) → IsAt n s t → IsAt (suc n) s (get_connection t).1
unfolding get_connection
get_connection-IsAt n s t h = elim (Fault-cases (next_fault t)) [
  | inl e ↦ rw e (tick-IsAt n s t h)
  | inr (inl e) ↦ rw e (tick-IsAt n s t h)
  | inr (inr e) ↦ rw e (tick-IsAt n s t h)
]

begin-IsAt : (n : ℕ) (s t : Session) → IsAt n s t → IsAt (suc n) s (begin_transaction t).1
unfolding begin_transaction
begin-IsAt n s t h = elim (Fault-cases (next_fault t)) [
  | inl e ↦ rw e (tick-IsAt n s t h)
  | inr (inl e) ↦ rw e (tick-IsAt n s t h)
  | inr (inr e) ↦ rw e (tick-IsAt n s t h)
]

-- A fresh connection, and BEGIN.
pub open-IsAt :
    (n : ℕ) (s : Session) {d : Db} (t : Session)
    → t.committed ≡ d
    → IsAt n s t
    → Ends
        (λ e u. (u.committed ≡ d) × (e ≡ sql other))
        (λ _ u. (u.committed ≡ d) × IsAt (suc n) s u)
        (get_connection t)
open-IsAt n s t h at = Ends-also _ (get_connection_lem t h) (get_connection-IsAt n s t at)

pub begin-IsInside-IsAt :
    (n : ℕ) (s : Session) {d : Db} (t : Session)
    → t.committed ≡ d
    → IsAt n s t
    → Ends
        (λ e u. (u.committed ≡ d) × (e ≡ sql other))
        (λ _ u. IsInside d d u × IsAt (suc n) s u)
        (begin_transaction t)
begin-IsInside-IsAt n s t h at = Ends-also _ (begin-IsInside t h) (begin-IsAt n s t at)
