-- ===== src/Session/Autocommit.antt =====
-- Rules for a statement that commits at once, outside a transaction.
use scalequeue.Common.{◌≡◌, refl, ℕ, ◌⊎◌, inl, inr, arith}
use scalequeue.Schema.{Db}
use scalequeue.Schema.Tables.{Reply, done, refused}
use scalequeue.Session.{
  Fault, calm, lost_request, lost_reply, Session, tick, next_fault, view, settle, statement,
  get_connection,
}
use scalequeue.Session.Rules.{Ends, Ends-mono, IsOutside, Fault-cases}

pub get_connection-IsOutside :
    {d : Db} (s : Session)
    → IsOutside d s
    → Ends (λ _ t. t.committed ≡ d) (λ _ t. IsOutside d t) (get_connection s)
unfolding get_connection
get_connection-IsOutside s h = elim (Fault-cases (next_fault s)) [
  | inl e ↦ rw e (record { holds = h })
  | inr (inl e) ↦ rw e (record { holds = h.0 })
  | inr (inr e) ↦ rw e (record { holds = h.0 })
]

-- A statement that commits at once takes effect as a whole or not at all.
settle-IsCommitted :
    {A : Type 0} (x : Fault) (r : Reply (A × Db)) {d : Db} (s : Session)
    → IsOutside d s
    → Ends
        (λ _ t. (t.committed ≡ d) ⊎ ((a : A) × (w : Db) × (r ≡ done (a, w)) × (t.committed ≡ w)))
        (λ a t. (w : Db) × (r ≡ done (a, w)) × IsOutside w t)
        (settle x r s)
unfolding settle
settle-IsCommitted calm (done (a, w)) s h = record { holds = (w, refl, ground arith) }
settle-IsCommitted calm (refused c) s h = record { holds = inl (h.0) }
settle-IsCommitted lost_request r s h = record { holds = inl (h.0) }
settle-IsCommitted lost_reply (done (a, w)) s h = record { holds = inr (a, w, refl, ground arith) }
settle-IsCommitted lost_reply (refused c) s h = record { holds = inl (h.0) }

pub statement-IsCommitted :
    {A : Type 0} (f : ℕ → Db → Reply (A × Db)) {d : Db} (s : Session)
    → IsOutside d s
    → Ends
        (λ _ t.
          (t.committed ≡ d)
          ⊎ ((now : ℕ) × (a : A) × (w : Db) × (f now d ≡ done (a, w)) × (t.committed ≡ w)))
        (λ a t. (now : ℕ) × (w : Db) × (f now d ≡ done (a, w)) × IsOutside w t)
        (statement f s)
unfolding statement
statement-IsCommitted f {d} s h =
    let t = tick s in
    let seen : view t ≡ d = ground arith in
    Ends-mono _
      (λ _ u q. elim q [
        | inl same ↦ inl same
        | inr (a, w, e, x) ↦ inr (t.clock, a, w, rw seen at e, x)
      ])
      (λ a u (w, e, x). (t.clock, w, rw seen at e, x))
      (settle-IsCommitted (next_fault s) (f t.clock (view t)) t h)
