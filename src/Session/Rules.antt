-- ===== src/Session/Rules.antt =====
-- Rules for reasoning about actions: what holds when an action returns, and when it throws.
use scalequeue.Common.{ℕ, ap, ◌≡◌, refl, ◌⊎◌, inl, inr, none, some, ⊤, arith}
use scalequeue.Schema.{Db}
use scalequeue.Schema.Tables.{SqlCode, other, Reply, done, refused}
use scalequeue.Session.{
  Fault, calm, lost_request, lost_reply, Session, Error, sql, Result, ok, err, Action, continue,
  recover, tick, next_fault, view, settle, statement, query, with_unit, execute, get_connection,
  begin_transaction, commit, rollback, releasing, close_transaction,
}

module _ {A : Type 0} where
  abbrev pub Holds :
      (Error → Session → Type 0) → (A → Session → Type 0) → Result A × Session → Type 0
  Holds E P (ok a, s) = P a s
  Holds E P (err e, s) = E e s

  -- `P` of the value and the state after a return, `E` of the error and the state after a throw.
  pub record Ends (E : Error → Session → Type 0) (P : A → Session → Type 0) (m : Result A × Session)
      : Type 0 where
    pub holds : Holds E P m

  pub Ends-mono :
      {E E' : Error → Session → Type 0} {P P' : A → Session → Type 0} (m : Result A × Session)
      → ((e : Error) (s : Session) → E e s → E' e s)
      → ((a : A) (s : Session) → P a s → P' a s)
      → Ends E P m
      → Ends E' P' m
  Ends-mono (ok a, s) he hp h = record { holds = hp a s h.holds }
  Ends-mono (err e, s) he hp h = record { holds = he e s h.holds }

  pub Ends-recover :
      {E E' : Error → Session → Type 0} {P : A → Session → Type 0} (m : Result A × Session)
      (h : Error → Action A)
      → Ends E P m
      → ((e : Error) (s : Session) → E e s → Ends E' P (h e s))
      → Ends E' P (recover m h)
  unfolding recover
  Ends-recover (ok a, s) h hm hh = record { holds = hm.holds }
  Ends-recover (err e, s) h hm hh = hh e s hm.holds

  pub Ends-releasing :
      {E E' : Error → Session → Type 0} {P P' : A → Session → Type 0} (m : Result A × Session)
      → Ends E P m
      → ((e : Error) (s : Session) → E e s → E' e (close_transaction s))
      → ((a : A) (s : Session) → P a s → P' a (close_transaction s))
      → Ends E' P' (releasing m)
  unfolding releasing
  Ends-releasing (ok a, s) h he hp = record { holds = hp a s h.holds }
  Ends-releasing (err e, s) h he hp = record { holds = he e s h.holds }

module _ {A B : Type 0} where
  pub Ends-continue :
      {E : Error → Session → Type 0} {P : A → Session → Type 0} {Q : B → Session → Type 0}
      (m : Result A × Session) (f : A → Action B)
      → Ends E P m
      → ((a : A) (s : Session) → P a s → Ends E Q (f a s))
      → Ends E Q (continue m f)
  unfolding continue
  Ends-continue (ok a, s) f hm hf = hf a s hm.holds
  Ends-continue (err e, s) f hm hf = record { holds = hm.holds }

-- The committed database is `d`, and the open transaction sees `w`.
abbrev pub IsInside : Db → Db → Session → Type 0
IsInside d w s = (s.committed ≡ d) × (s.working ≡ some w)

-- The committed database is `d`, and no transaction is open.
abbrev pub IsOutside : Db → Session → Type 0
IsOutside d s = (s.committed ≡ d) × (s.working ≡ none)

pub Fault-cases : (x : Fault) → (x ≡ calm) ⊎ ((x ≡ lost_request) ⊎ (x ≡ lost_reply))
Fault-cases calm = inl refl
Fault-cases lost_request = inr (inl refl)
Fault-cases lost_reply = inr (inr refl)

pub with_unit_done : (r : Reply Db) {a : ⊤} {w : Db} → with_unit r ≡ done (a, w) → r ≡ done w
with_unit_done (done d) h = ground arith
with_unit_done (refused c) h = cc

pub with_unit_refused : (r : Reply Db) {c : SqlCode} → with_unit r ≡ refused c → r ≡ refused c
with_unit_refused (done d) h = cc
with_unit_refused (refused c) h = ground arith

-- An error of a statement: the server refused it, or a message was lost.
abbrev pub IsErrorOf : {A : Type 0} → (ℕ → Db → Reply (A × Db)) → Db → Error → Type 0
IsErrorOf f w e =
    (e ≡ sql other) ⊎ ((now : ℕ) × (c : SqlCode) × (f now w ≡ refused c) × (e ≡ sql c))

module _ {A : Type 0} where
  pub settle-IsInside :
      (x : Fault) (r : Reply (A × Db)) (d w : Db) (s : Session)
      → IsInside d w s
      → Ends
          (λ e t.
            (t.committed ≡ d) × ((e ≡ sql other) ⊎ ((c : SqlCode) × (r ≡ refused c) × (e ≡ sql c))))
          (λ a t. (w' : Db) × (r ≡ done (a, w')) × IsInside d w' t)
          (settle x r s)
  unfolding settle
  settle-IsInside calm (done (a, w')) d w s h = record { holds = (w', refl, ground arith) }
  settle-IsInside calm (refused c) d w s h = record { holds = (h.0, inr (c, refl, refl)) }
  settle-IsInside lost_request r d w s h = record { holds = (h.0, inl refl) }
  settle-IsInside lost_reply (done (a, w')) d w s h = record { holds = ground arith }
  settle-IsInside lost_reply (refused c) d w s h = record { holds = ground arith }

  -- A statement of an open transaction changes its view alone.
  pub statement-IsInside :
      (f : ℕ → Db → Reply (A × Db)) {d w : Db} (s : Session)
      → IsInside d w s
      → Ends
          (λ e t. (t.committed ≡ d) × IsErrorOf f w e)
          (λ a t. (now : ℕ) × (w' : Db) × (f now w ≡ done (a, w')) × IsInside d w' t)
          (statement f s)
  unfolding statement
  statement-IsInside f {d} {w} s h =
      let t = tick s in
      let seen : view t ≡ w = ground arith in
      Ends-mono _
        (λ e u q. (
          q.0,
          elim (q.1) [ inl lost ↦ inl lost | inr (c, r, x) ↦ inr (t.clock, c, rw seen at r, x) ],
        ))
        (λ a u q. (t.clock, q.0, rw seen at (q.1), q.2))
        (settle-IsInside (next_fault s) (f t.clock (view t)) d w t h)

  settle-IsOutside :
      (f : Db → A) (x : Fault) (w : Db) (s : Session)
      → IsOutside w s
      → Ends
          (λ e t. IsOutside w t × (e ≡ sql other))
          (λ a t. (a ≡ f w) × IsOutside w t)
          (settle x (done (f (view s), view s)) s)
  unfolding settle
  settle-IsOutside f calm w s h = record { holds = ground arith }
  settle-IsOutside f lost_request w s h = record { holds = ground arith }
  settle-IsOutside f lost_reply w s h = record { holds = ground arith }

  -- A SELECT outside a transaction reads the committed rows and changes nothing.
  pub query-IsOutside :
      (f : Db → A) {w : Db} (s : Session)
      → IsOutside w s
      → Ends (λ e t. IsOutside w t × (e ≡ sql other)) (λ a t. (a ≡ f w) × IsOutside w t) (query f s)
  unfolding statement
  query-IsOutside f {w} s h = settle-IsOutside f (next_fault s) w (tick s) h

-- An INSERT or UPDATE of an open transaction.
pub execute-IsInside :
    (f : ℕ → Db → Reply Db) {d w : Db} (s : Session)
    → IsInside d w s
    → Ends
        (λ e t.
          (t.committed ≡ d)
          × ((e ≡ sql other) ⊎ ((now : ℕ) × (c : SqlCode) × (f now w ≡ refused c) × (e ≡ sql c))))
        (λ _ t. (now : ℕ) × (w' : Db) × (f now w ≡ done w') × IsInside d w' t)
        (execute f s)
execute-IsInside f s h =
    Ends-mono _
      (λ e t q. (
        q.0,
        elim (q.1) [
          | inl lost ↦ inl lost
          | inr (now, c, r, x) ↦ inr (now, c, with_unit_refused (f now _) r, x)
        ],
      ))
      (λ a t q. (q.0, q.1, with_unit_done (f q.0 _) q.2, q.3))
      (statement-IsInside (λ now d. with_unit (f now d)) s h)

-- A statement fails with an error of the driver.
error_code :
    {A : Type 0} (f : ℕ → Db → Reply A) (w : Db) (e : Error)
    → (e ≡ sql other) ⊎ ((now : ℕ) × (c : SqlCode) × (f now w ≡ refused c) × (e ≡ sql c))
    → (c : SqlCode) × (e ≡ sql c)
error_code f w e (inl lost) = (other, lost)
error_code f w e (inr (now, c, r, x)) = (c, x)

-- The same with less said of the error.
pub execute_sql :
    (f : ℕ → Db → Reply Db) {d w : Db} (s : Session)
    → IsInside d w s
    → Ends
        (λ e t. (t.committed ≡ d) × ((c : SqlCode) × (e ≡ sql c)))
        (λ _ t. (now : ℕ) × (w' : Db) × (f now w ≡ done w') × IsInside d w' t)
        (execute f s)
execute_sql f {d} {w} s h =
    Ends-mono _ (λ e t (q, x). (q, error_code f w e x)) (λ _ t q. q) (execute-IsInside f s h)

-- A SELECT of an open transaction reads its view.
pub query-IsInside :
    {A : Type 0} (f : Db → A) {d w : Db} (s : Session)
    → IsInside d w s
    → Ends
        (λ e t. (t.committed ≡ d) × ((c : SqlCode) × (e ≡ sql c)))
        (λ a t. (a ≡ f w) × IsInside d w t)
        (query f s)
query-IsInside f {d} {w} s h =
    Ends-mono _ (λ e t (q, x). (q, error_code (λ _ d. done (f d, d)) w e x))
      (λ a t (now, w', eq, (q, o)). (ground arith, (q, ground arith)))
      (statement-IsInside (λ _ d. done (f d, d)) s h)

-- A fresh connection and BEGIN leave the committed rows alone.
pub get_connection_lem :
    {d : Db} (s : Session)
    → s.committed ≡ d
    → Ends (λ e t. (t.committed ≡ d) × (e ≡ sql other)) (λ _ t. t.committed ≡ d) (get_connection s)
unfolding get_connection
get_connection_lem s h = elim (Fault-cases (next_fault s)) [
  | inl e ↦ rw e (record { holds = h })
  | inr (inl e) ↦ rw e (record { holds = (h, refl) })
  | inr (inr e) ↦ rw e (record { holds = (h, refl) })
]

pub begin-IsInside :
    {d : Db} (s : Session)
    → s.committed ≡ d
    → Ends
        (λ e t. (t.committed ≡ d) × (e ≡ sql other))
        (λ _ t. IsInside d d t)
        (begin_transaction s)
unfolding begin_transaction
begin-IsInside s h = elim (Fault-cases (next_fault s)) [
  | inl e ↦ rw e (record { holds = (h, ap some h) })
  | inr (inl e) ↦ rw e (record { holds = (h, refl) })
  | inr (inr e) ↦ rw e (record { holds = (h, refl) })
]

-- COMMIT publishes the transaction's view, or fails before or after it has.
pub commit-IsInside :
    {d w : Db} (s : Session)
    → IsInside d w s
    → Ends
        (λ e t. ((t.committed ≡ d) ⊎ (t.committed ≡ w)) × (e ≡ sql other))
        (λ _ t. IsOutside w t)
        (commit s)
unfolding commit
commit-IsInside s h = elim (Fault-cases (next_fault s)) [
  | inl e ↦ rw e (record { holds = ground arith })
  | inr (inl e) ↦ rw e (record { holds = (inl (h.0), refl) })
  | inr (inr e) ↦ rw e (record { holds = (inr (ground arith), refl) })
]

-- ROLLBACK drops the open transaction, whether its reply arrives or not.
pub rollback_lem :
    {d : Db} (s : Session)
    → s.committed ≡ d
    → Ends (λ e t. IsOutside d t × (e ≡ sql other)) (λ _ t. IsOutside d t) (rollback s)
unfolding rollback
rollback_lem s h = elim (Fault-cases (next_fault s)) [
  | inl e ↦ rw e (record { holds = (h, refl) })
  | inr (inl e) ↦ rw e (record { holds = ((h, refl), refl) })
  | inr (inr e) ↦ rw e (record { holds = ((h, refl), refl) })
]
