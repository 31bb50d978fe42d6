-- ===== src/Session/Calm.antt =====
-- Rules for sessions with no fault to come: an action fails only where the server refuses a
-- statement.
use scalequeue.Common.{ℕ, ◌≡◌, refl, ap, some, [], arith}
use scalequeue.Schema.{Db}
use scalequeue.Schema.Tables.{SqlCode, Reply, done, refused}
use scalequeue.Session.{
  calm, Session, sql, next_fault, tick, view, settle, statement, with_unit, execute, query,
  get_connection, begin_transaction, commit, rollback,
}
use scalequeue.Session.Rules.{
  Ends, Ends-mono, IsInside, IsOutside, with_unit_done, with_unit_refused,
}

abbrev pub IsCalm : Session → Type 0
IsCalm s = s.events ≡ []

fault_calm : (s : Session) → IsCalm s → next_fault s ≡ calm
fault_calm s k = rw k

rest-IsCalm : (s : Session) → IsCalm s → IsCalm (tick s)
rest-IsCalm s k = rw k

not_refused : {A : Type 0} {a : A} {c : SqlCode} → done a ≡ refused c → ⊥
not_refused h = cc

module _ {A : Type 0} where
  settle_calm-IsInside :
      (r : Reply (A × Db)) (d w : Db) (s : Session)
      → IsInside d w s
      → IsCalm s
      → Ends
          (λ e t. (c : SqlCode) × (r ≡ refused c) × (e ≡ sql c) × IsInside d w t × IsCalm t)
          (λ a t. (w' : Db) × (r ≡ done (a, w')) × IsInside d w' t × IsCalm t)
          (settle calm r s)
  unfolding settle
  settle_calm-IsInside (done (a, w')) d w s h k = record {
    holds = (w', refl, ground arith, ground arith);
  }
  settle_calm-IsInside (refused c) d w s h k = record { holds = (c, refl, refl, h, k) }

  settle_calm-IsOutside :
      (r : Reply (A × Db)) (d : Db) (s : Session)
      → IsOutside d s
      → IsCalm s
      → Ends
          (λ e t. (c : SqlCode) × (r ≡ refused c) × (e ≡ sql c) × IsOutside d t × IsCalm t)
          (λ a t. (w' : Db) × (r ≡ done (a, w')) × IsOutside w' t × IsCalm t)
          (settle calm r s)
  unfolding settle
  settle_calm-IsOutside (done (a, w')) d s h k = record {
    holds = (w', refl, ground arith, ground arith);
  }
  settle_calm-IsOutside (refused c) d s h k = record { holds = (c, refl, refl, h, k) }

  -- The error of a SELECT in a calm session cannot be.
  pub query-IsCalm :
      (f : Db → A) {d : Db} (s : Session)
      → IsOutside d s
      → IsCalm s
      → Ends (λ _ _. ⊥) (λ a t. (a ≡ f d) × IsOutside d t × IsCalm t) (query f s)
  unfolding statement
  query-IsCalm f {d} s h k = rw (fault_calm s k) (
      Ends-mono _ (λ e t q. not_refused (q.1)) (λ a t (w, r, o, c). (ground arith, ground arith, c))
        (settle_calm-IsOutside (done (f (view (tick s)), view (tick s))) d (tick s) h
          (rest-IsCalm s k)))

  pub query-IsCalm-IsInside :
      (f : Db → A) {d w : Db} (s : Session)
      → IsInside d w s
      → IsCalm s
      → Ends (λ _ _. ⊥) (λ a t. (a ≡ f w) × IsInside d w t × IsCalm t) (query f s)
  unfolding statement
  query-IsCalm-IsInside f {d} {w} s h k = rw (fault_calm s k) (
      Ends-mono _ (λ e t q. not_refused (q.1)) (λ a t (x, r, o, c). (ground arith, ground arith, c))
        (settle_calm-IsInside (done (f (view (tick s)), view (tick s))) d w (tick s) h
          (rest-IsCalm s k)))

-- A statement of a calm session is refused, with the reason, or takes effect.
pub execute-IsCalm :
    (f : ℕ → Db → Reply Db) {d w : Db} (s : Session)
    → IsInside d w s
    → IsCalm s
    → Ends
        (λ e t.
          (now : ℕ) × (c : SqlCode) × (f now w ≡ refused c)
          × (e ≡ sql c)
          × IsInside d w t
          × IsCalm t)
        (λ _ t. (now : ℕ) × (w' : Db) × (f now w ≡ done w') × IsInside d w' t × IsCalm t)
        (execute f s)
unfolding statement
execute-IsCalm f {d} {w} s h k =
    let t = tick s in
    let seen : view t ≡ w = ground arith in
    rw (fault_calm s k) (
      Ends-mono _
        (λ e u (c, r, x, o, z).
          (t.clock, c, rw seen at (with_unit_refused (f t.clock (view t)) r), x, o, z))
        (λ a u (x, r, o, z). (t.clock, x, rw seen at (with_unit_done (f t.clock (view t)) r), o, z))
        (settle_calm-IsInside (with_unit (f t.clock (view t))) d w t h (rest-IsCalm s k)))

pub get_connection-IsCalm :
    {d : Db} (s : Session)
    → s.committed ≡ d
    → IsCalm s
    → Ends (λ _ _. ⊥) (λ _ t. (t.committed ≡ d) × IsCalm t) (get_connection s)
unfolding get_connection
get_connection-IsCalm s h k = rw (fault_calm s k) (record { holds = (h, rest-IsCalm s k) })

pub begin-IsCalm :
    {d : Db} (s : Session)
    → s.committed ≡ d
    → IsCalm s
    → Ends (λ _ _. ⊥) (λ _ t. IsInside d d t × IsCalm t) (begin_transaction s)
unfolding begin_transaction
begin-IsCalm s h k = rw (fault_calm s k) (record { holds = ((h, ap some h), rest-IsCalm s k) })

pub commit-IsCalm :
    {d w : Db} (s : Session)
    → IsInside d w s
    → IsCalm s
    → Ends (λ _ _. ⊥) (λ _ t. IsOutside w t × IsCalm t) (commit s)
unfolding commit
commit-IsCalm s h k = rw (fault_calm s k) (record { holds = (ground arith, rest-IsCalm s k) })

pub rollback-IsCalm :
    {d : Db} (s : Session)
    → s.committed ≡ d
    → IsCalm s
    → Ends (λ _ _. ⊥) (λ _ t. IsOutside d t × IsCalm t) (rollback s)
unfolding rollback
rollback-IsCalm s h k = rw (fault_calm s k) (record { holds = ((h, refl), rest-IsCalm s k) })
