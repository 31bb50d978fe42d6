-- ===== src/Session/Timely.antt =====
-- Rules for sessions in which nothing is lost and whose round trips take a bounded time: an action
-- returns where no statement is refused between two instants.
use scalequeue.Common.{ℕ, ◌+◌, ◌≤◌, ◌≡◌, refl, ap, some, List, [], ◌∷◌, All, arith}
use scalequeue.Schema.{Db}
use scalequeue.Schema.Tables.{Reply, done}
use scalequeue.Session.{
  calm, Event, Session, tick, next_fault, next_event, rest_events, view, settle, statement,
  get_connection, begin_transaction, commit, rollback,
}
use scalequeue.Session.Rules.{Ends, IsInside, IsOutside}

abbrev pub total_delay : List Event → ℕ
total_delay [] = 0
total_delay (e ∷ es) = e.delay + total_delay es

abbrev IsFaultless : List Event → Type 0
IsFaultless es = All (λ e. e.fault ≡ calm) es

-- No fault is to come, and what is to come happens from `low` to `high`.
pub record IsTimely (low high : ℕ) (s : Session) : Type 0 where
  pub faultless : IsFaultless s.events
  pub since : low ≤ s.clock
  pub until : s.clock + total_delay s.events ≤ high

-- What is left of the events after one, and the time that it takes.
abbrev Passes : ℕ → ℕ → ℕ → List Event → Type 0
Passes low high clock es =
    ((next_event es).fault ≡ calm)
    × IsFaultless (rest_events es)
    × (low ≤ clock + (next_event es).delay)
    × (clock + (next_event es).delay + total_delay (rest_events es) ≤ high)

passes :
    (low high clock : ℕ) (es : List Event)
    → IsFaultless es
    → low ≤ clock
    → clock + total_delay es ≤ high
    → Passes low high clock es
passes low high clock [] f a b = (refl, tt, omega arith, omega arith)
passes low high clock (e ∷ es) (c, f) a b = (c, f, omega arith, omega arith)

module _ {low high : ℕ} where
  next-calm : (s : Session) → IsTimely low high s → next_fault s ≡ calm
  next-calm s h = (passes low high s.clock s.events h.faultless h.since h.until).0

  tick-IsTimely : (s : Session) → IsTimely low high s → IsTimely low high (tick s)
  tick-IsTimely s h =
      let (c, f, a, b) = passes low high s.clock s.events h.faultless h.since h.until in
      record { faultless = f; since = a; until = b }

  -- The database and the transaction are none of time's.
  pub IsTimely-of :
      (s t : Session)
      → t.clock ≡ s.clock
      → t.events ≡ s.events
      → IsTimely low high s
      → IsTimely low high t
  IsTimely-of s t c e h = record {
    faultless = rw e h.faultless;
    since = rw c h.since;
    until = rw c (rw e h.until);
  }

-- What a statement gives at any instant that it can run at.
abbrev pub Gives :
    ℕ → ℕ → {A : Type 0} → (ℕ → Db → Reply (A × Db)) → (A → Db → Type 0) → Db → Type 0
Gives low high {A} f P w =
    (now : ℕ) → low ≤ now → now ≤ high → (a : A) × (w' : Db) × (f now w ≡ done (a, w')) × P a w'

module _ {low high : ℕ} where
  module _ {A : Type 0} where
    settle-IsInside :
        (r : Reply (A × Db)) (P : A → Db → Type 0) {d w w' : Db} (a : A) (s : Session)
        → IsInside d w s
        → IsTimely low high s
        → r ≡ done (a, w')
        → P a w'
        → Ends
            (λ _ _. ⊥)
            (λ a t. (w' : Db) × P a w' × IsInside d w' t × IsTimely low high t)
            (settle calm r s)
    unfolding settle
    settle-IsInside r P {w'} a s (c, o) h e p =
        rw e (rw o (record { holds = (w', p, (c, refl), IsTimely-of s _ refl refl h) }))

    pub statement-IsInside-IsTimely :
        (f : ℕ → Db → Reply (A × Db)) (P : A → Db → Type 0) {d w : Db} (s : Session)
        → IsInside d w s
        → IsTimely low high s
        → Gives low high f P w
        → Ends
            (λ _ _. ⊥)
            (λ a t. (w' : Db) × P a w' × IsInside d w' t × IsTimely low high t)
            (statement f s)
    unfolding statement
    statement-IsInside-IsTimely f P {d} {w} s (c, o) h gives =
        let t = tick s in
        let k = tick-IsTimely s h in
        let (a, w', e, p) = gives t.clock k.since (omega (arith, k.until)) in
        let seen : view t ≡ w = rw o refl in
        rw (next-calm s h) (settle-IsInside (f t.clock (view t)) P a t (c, o) k (rw seen e) p)

    settle-IsOutside :
        (r : Reply (A × Db)) (P : A → Db → Type 0) {d w : Db} (a : A) (s : Session)
        → IsOutside d s
        → IsTimely low high s
        → r ≡ done (a, w)
        → P a w
        → Ends
            (λ _ _. ⊥)
            (λ a t. (w : Db) × P a w × IsOutside w t × IsTimely low high t)
            (settle calm r s)
    unfolding settle
    settle-IsOutside r P {d} {w} a s (c, o) h e p =
        rw e (rw o (record { holds = (w, p, (refl, refl), IsTimely-of s _ refl refl h) }))

    pub statement-IsOutside-IsTimely :
        (f : ℕ → Db → Reply (A × Db)) (P : A → Db → Type 0) {d : Db} (s : Session)
        → IsOutside d s
        → IsTimely low high s
        → Gives low high f P d
        → Ends
            (λ _ _. ⊥)
            (λ a t. (w : Db) × P a w × IsOutside w t × IsTimely low high t)
            (statement f s)
    unfolding statement
    statement-IsOutside-IsTimely f P {d} s (c, o) h gives =
        let t = tick s in
        let k = tick-IsTimely s h in
        let (a, w, e, p) = gives t.clock k.since (omega (arith, k.until)) in
        let seen : view t ≡ d = rw o (rw c refl) in
        rw (next-calm s h) (settle-IsOutside (f t.clock (view t)) P a t (c, o) k (rw seen e) p)

  pub get_connection-IsTimely :
      {d : Db} (s : Session)
      → IsOutside d s
      → IsTimely low high s
      → Ends (λ _ _. ⊥) (λ _ t. IsOutside d t × IsTimely low high t) (get_connection s)
  unfolding get_connection
  get_connection-IsTimely s o h = rw (next-calm s h) (record { holds = (o, tick-IsTimely s h) })

  pub begin-IsTimely :
      {d : Db} (s : Session)
      → IsOutside d s
      → IsTimely low high s
      → Ends (λ _ _. ⊥) (λ _ t. IsInside d d t × IsTimely low high t) (begin_transaction s)
  unfolding begin_transaction
  begin-IsTimely s (c, o) h =
      rw (next-calm s h)
        (record { holds = ((c, ap some c), IsTimely-of (tick s) _ refl refl (tick-IsTimely s h)) })

  pub commit-IsTimely :
      {d w : Db} (s : Session)
      → IsInside d w s
      → IsTimely low high s
      → Ends (λ _ _. ⊥) (λ _ t. IsOutside w t × IsTimely low high t) (commit s)
  unfolding commit
  commit-IsTimely s (c, o) h =
      rw (next-calm s h) (record {
        holds = ((rw o refl, refl), IsTimely-of (tick s) _ refl refl (tick-IsTimely s h));
      })

  pub rollback-IsTimely :
      {d : Db} (s : Session)
      → s.committed ≡ d
      → IsTimely low high s
      → Ends (λ _ _. ⊥) (λ _ t. IsOutside d t × IsTimely low high t) (rollback s)
  unfolding rollback
  rollback-IsTimely s c h =
      rw (next-calm s h)
        (record { holds = ((c, refl), IsTimely-of (tick s) _ refl refl (tick-IsTimely s h)) })
