-- ===== src/Delivery/Transactions.antt =====
-- Rules for the transactions of worker-service/internal/db/mysql.go that keep the database sound.
use scalequeue.Common.{arith, ℕ, ◌≡◌, ap, Bool, true, false, if◌then◌else◌, inl, inr, Option, some}
use scalequeue.Schema.{Job, Db}
use scalequeue.Schema.Tables.{Reply, done}
use scalequeue.Session.{Session, Result, Action, statement, execute, commit}
use scalequeue.Session.Rules.{
  Ends, Ends-mono, IsInside, statement-IsInside, execute-IsInside, commit-IsInside,
}
use scalequeue.WorkerStore.{begin_tx}
use scalequeue.WorkerStore.Rules.{begin_tx-IsInside, if-EndsDb}
use scalequeue.Delivery.{IsSound}
use scalequeue.Delivery.Api.{EndsSound}

pub done_injective : {A : Type 0} {a b : A} → done a ≡ done b → a ≡ b
done_injective h = cc

-- `P` after a return, and a sound database after a throw.
abbrev pub EndsWith : {A : Type 0} → (A → Session → Type 0) → Result A × Session → Type 0
EndsWith P m = Ends (λ _ t. IsSound t.committed) P m

pub begin_tx-EndsWith :
    {d : Db} (s : Session)
    → IsSound d
    → s.committed ≡ d
    → EndsWith (λ _ t. IsInside d d t) (begin_tx s)
begin_tx-EndsWith s sound e = Ends-mono _ (λ _ t q. rw q sound) (λ _ t q. q) (begin_tx-IsInside s e)

pub statement-EndsWith :
    {A : Type 0} (f : ℕ → Db → Reply (A × Db)) {d w : Db} (s : Session)
    → IsSound d
    → IsInside d w s
    → EndsWith
        (λ a t. (now : ℕ) × (w' : Db) × (f now w ≡ done (a, w')) × IsInside d w' t)
        (statement f s)
statement-EndsWith f s sound h =
    Ends-mono _ (λ _ t q. rw (q.0) sound) (λ _ t q. q) (statement-IsInside f s h)

-- A statement that keeps what the transaction sees sound.
pub execute-EndsWith :
    (f : ℕ → Db → Reply Db) {d w : Db} (s : Session)
    → IsSound d
    → ((now : ℕ) (w' : Db) → f now w ≡ done w' → IsSound w')
    → IsInside d w s
    → EndsWith (λ _ t. (w' : Db) × IsSound w' × IsInside d w' t) (execute f s)
execute-EndsWith f s sound keep h =
    Ends-mono _ (λ _ t q. rw (q.0) sound) (λ _ t (now, w', e, inside). (w', keep now w' e, inside))
      (execute-IsInside f s h)

pub commit-EndsWith :
    {d w : Db} (s : Session)
    → IsSound d
    → IsSound w
    → IsInside d w s
    → EndsWith (λ _ t. IsSound t.committed) (commit s)
commit-EndsWith s old new h =
    Ends-mono _ (λ _ t (q, _). elim q [ inl same ↦ rw same old | inr moved ↦ rw moved new ])
      (λ _ t q. rw (q.0) new) (commit-IsInside s h)

pub same_job : {i j : Job} {o : Option Job} → o ≡ some i → o ≡ some j → i ≡ j
same_job h k = ground arith

-- What a SELECT returns.
pub read_lem :
    {A : Type 0} {a b : A} {d e : Db}
    → ◌≡◌ {A = Reply (A × Db)} (done (a, d)) (done (b, e))
    → (a ≡ b) × (d ≡ e)
read_lem {A} {a} {b} {d} {e} h =
    let both : ◌≡◌ {A = A × Db} (a, d) (b, e) = done_injective h in
    (ap (λ x. x.0) both, ap (λ x. x.1) both)

pub if-EndsSound :
    {A : Type 0} (b : Bool) (m n : Action A) (s : Session)
    → (b ≡ true → EndsSound (m s))
    → (b ≡ false → EndsSound (n s))
    → EndsSound ((if b then m else n) s)
if-EndsSound b m n s = if-EndsDb (λ _ d. IsSound d) (λ _ d. IsSound d) b m n s
