-- ===== src/WorkerStore/Dispatch/Liveness.antt =====
-- `Dispatch` of worker-service/internal/db/mysql.go, where nothing is lost.
use scalequeue.Common.{
  ℕ, ◌+◌, ◌≤◌, ◌<◌, ◌≡◌, refl, sym, ap, ◌⊎◌, inl, inr, String, Bool, true, false, not, Option, none,
  some, find?, count, arith, find?-test, find?-All, count-filter-le, count-filter-lt,
  count-map_where-le, count-map_where-lt, count-find?-none, ==_iff, ⊤,
}
use scalequeue.Schema.{Job, Outbox, Db}
use scalequeue.Session.{Session, Action, Result, ok, err}
use scalequeue.Session.Rules.{Ends, Ends-mono, Ends-continue, IsInside, IsOutside}
use scalequeue.Session.Timely.{IsTimely, IsTimely-of, statement-IsInside-IsTimely, commit-IsTimely}
use scalequeue.WorkerStore.{with_rollback}
use scalequeue.WorkerStore.Held.{rolled_back-IsTimely, begin_tx-IsTimely}
use scalequeue.WorkerStore.Dispatch.{
  is_due, has_number, delete_outbox, stamp, mark_published, is_over, deliver, heal, dispatch_row,
  dispatch_rows, dispatch,
}
use scalequeue.Delivery.{IsBehind, IsSound}

-- No row is locked.
abbrev pub unlocked : ℕ → Bool
unlocked n = false

-- The intents that are due at an instant.
abbrev pub due_count : ℕ → Db → ℕ
due_count now d = count (is_due unlocked now) d.outbox

is_due_later :
    (now later : ℕ) (o : Outbox)
    → now ≤ later
    → is_due unlocked now o ≡ true
    → is_due unlocked later o ≡ true
is_due_later now later o le h = ground arith

-- For half a minute a stamped row is not due.
stamped-is_due :
    (now later : ℕ) (o : Outbox)
    → later ≤ now + 30000000
    → is_due unlocked later (stamp now o) ≡ false
stamped-is_due now later o le = ground arith

-- The callback publishes: it returns, in time, and leaves the transaction alone.
pub record IsReliable (publish : String → ℕ → Action ⊤) : Type 0 where
  pub sent :
      (low high : ℕ) (id : String) (generation : ℕ) (d w : Db) (s : Session)
      → IsInside d w s
      → IsTimely low high s
      → Ends (λ _ _. ⊥) (λ _ t. IsInside d w t × IsTimely low high t) (publish id generation s)

-- Fewer intents are due at `high`, and no more at `low`.
abbrev pub IsLess : ℕ → ℕ → Db → Db → Type 0
IsLess low high d e = (due_count high e < due_count high d) × (due_count low e ≤ due_count low d)

same_number : (o : Outbox) → has_number o.id o ≡ true
same_number o = (==_iff o.id o.id).1 refl

delete-IsLess :
    (low high now : ℕ) (o : Outbox) (d : Db)
    → now ≤ high
    → find? (is_due unlocked now) d.outbox ≡ some o
    → IsLess low high d (delete_outbox o.id d)
delete-IsLess low high now o d before found =
    let due : is_due unlocked now o ≡ true = find?-test (is_due unlocked now) d.outbox o found in
    (
      count-filter-lt (λ x. not (has_number o.id x)) (is_due unlocked high) (is_due unlocked now)
          d.outbox o found (is_due_later now high o before due) (ap not (same_number o)),
      count-filter-le (λ x. not (has_number o.id x)) (is_due unlocked low) d.outbox,
    )

publish-IsLess :
    (low high now later : ℕ) (o : Outbox) (d : Db)
    → now ≤ high
    → low ≤ later
    → low ≤ high
    → high ≤ low + 30000000
    → find? (is_due unlocked now) d.outbox ≡ some o
    → IsLess low high d (mark_published o.id later d)
publish-IsLess low high now later o d before after order soon found =
    let due : is_due unlocked now o ≡ true = find?-test (is_due unlocked now) d.outbox o found in
    (
      count-map_where-lt (has_number o.id) (is_due unlocked high) (is_due unlocked now)
          (stamp later) d.outbox o (λ x. stamped-is_due later high x (omega arith)) found
          (is_due_later now high o before due) (same_number o),
      count-map_where-le (has_number o.id) (is_due unlocked low) (stamp later) d.outbox
          (λ x. stamped-is_due later low x (omega arith)),
    )

-- What a dispatch leaves: one intent fewer is due, or none is.
abbrev pub IsDispatched : ℕ → ℕ → Db → Bool → Db → Type 0
IsDispatched low high d true e = IsLess low high d e
IsDispatched low high d false e = (e ≡ d) × (due_count low d ≡ 0)

abbrev pub Dispatches : ℕ → ℕ → Db → Result Bool × Session → Type 0
Dispatches low high d m =
    Ends (λ _ _. ⊥)
      (λ more t. (e : Db) × IsDispatched low high d more e × IsOutside e t × IsTimely low high t) m

module _ (publish : String → ℕ → Action ⊤) (reliable : IsReliable publish) {low high : ℕ}
    (soon : high ≤ low + 30000000) where
  deliver-IsTimely :
      (over : Bool) (now : ℕ) (o : Outbox) {d : Db} (s : Session)
      → now ≤ high
      → find? (is_due unlocked now) d.outbox ≡ some o
      → IsInside d d s
      → IsTimely low high s
      → Ends
          (λ _ _. ⊥)
          (λ _ t. (w : Db) × IsLess low high d w × IsInside d w t × IsTimely low high t)
          (deliver unlocked publish over o s)
  unfolding deliver
  deliver-IsTimely true now o {d} s before found i h =
      statement-IsInside-IsTimely {low = low} {high = high} _ (λ _ w. IsLess low high d w) s i h
        λ later a b. (tt, _, refl, delete-IsLess low high now o d before found)
  deliver-IsTimely false now o {d} s before found i h =
      Ends-continue _ _ (reliable.sent low high o.job_id o.generation d d s i h) λ _ t (i1, h1).
        statement-IsInside-IsTimely {low = low} {high = high} _ (λ _ w. IsLess low high d w) t i1 h1
          λ later a b.
            (tt, _, refl, publish-IsLess low high now later o d before a (omega arith) soon found)

  heal-IsTimely :
      (now : ℕ) (o : Outbox) (j : Job) {d : Db} (s : Session)
      → now ≤ high
      → find? (is_due unlocked now) d.outbox ≡ some o
      → IsInside d d s
      → IsTimely low high s
      → Dispatches low high d (heal unlocked publish o (some j) s)
  unfolding heal
  heal-IsTimely now o j s before found i h =
      Ends-continue _ _ (deliver-IsTimely (is_over o j) now o s before found i h)
        λ _ t (w, less, i1, h1).
          Ends-continue _ _ (commit-IsTimely t i1 h1)
            λ _ u (o2, h2). record { holds = (w, less, o2, h2) }

  dispatch_row-IsTimely :
      (now : ℕ) (due : Option Outbox) {d : Db} (s : Session)
      → low ≤ now
      → now ≤ high
      → find? (is_due unlocked now) d.outbox ≡ due
      → IsSound d
      → IsInside d d s
      → IsTimely low high s
      → Ends
          (λ _ _. ⊥)
          (λ more t.
            (e : Db) × IsDispatched low high d more e
            × IsTimely low high t
            × (IsOutside e t ⊎ (IsInside d d t × (e ≡ d))))
          (dispatch_row unlocked publish due s)
  unfolding dispatch_row
  dispatch_row-IsTimely now none {d} s after before found sound i h = record {
    holds = (
      d,
      (
        refl,
        count-find?-none (is_due unlocked now) (is_due unlocked low) d.outbox
            (λ x. is_due_later low now x after) found,
      ),
      h,
      inr (i, refl),
    );
  }
  dispatch_row-IsTimely now (some o) {d} s after before found sound i h =
      let (j, owner, _) =
        find?-All (IsBehind d.jobs) (is_due unlocked now) d.outbox o sound.behind found in
      Ends-continue _ _
        (statement-IsInside-IsTimely {low = low} {high = high} _ (λ r w. (w ≡ d) × (r ≡ some j)) s i
          h λ later a b. (_, _, refl, (refl, owner)))
        λ r t (w, (same, job), i1, h1). rw job (
          Ends-mono _ (λ _ _ (x : ⊥). x) (λ more u (e, p, q, k). (e, p, k, inl q))
            (heal-IsTimely now o j t before found (rw same at i1) h1))

  with_rollback-dispatched :
      {d : Db} (m : Result Bool × Session)
      → Ends
          (λ _ _. ⊥)
          (λ more t.
            (e : Db) × IsDispatched low high d more e
            × IsTimely low high t
            × (IsOutside e t ⊎ (IsInside d d t × (e ≡ d))))
          m
      → Dispatches low high d (with_rollback m)
  unfolding with_rollback
  with_rollback-dispatched (err x, s) h = absurd h.holds
  with_rollback-dispatched {d} (ok more, s) h =
      let (e, p, k, where_to) = h.holds in
      elim where_to [
        | inl (c, o) ↦ rw o (record { holds = (e, p, (c, refl), IsTimely-of s _ refl refl k) })
        | inr ((c, o), same) ↦
            Ends-mono _ (λ _ _ (x : ⊥). x) (λ b t (q, out, later). (d, q, out, later))
              (rolled_back-IsTimely (λ b. IsDispatched low high d b d) more s (rw same at p) (c, o)
                k)
      ]

  -- A dispatch publishes or deletes an intent that is due, or none is.
  pub dispatch-IsTimely :
      {d : Db} (s : Session)
      → IsSound d
      → IsOutside d s
      → IsTimely low high s
      → Dispatches low high d (dispatch unlocked publish s)
  unfolding dispatch dispatch_rows
  dispatch-IsTimely {d} s sound o h = with_rollback-dispatched _ (
      Ends-continue _ _ (begin_tx-IsTimely s o h) λ _ t (i1, h1).
        Ends-continue _ _
          (statement-IsInside-IsTimely {low = low} {high = high} _
            (λ r w.
              (w ≡ d)
              × ((now : ℕ) × (low ≤ now)
                  × (now ≤ high)
                  × (r ≡ find? (is_due unlocked now) d.outbox)))
            t i1 h1 λ now a b. (_, _, refl, (refl, (now, a, b, refl))))
          λ due u (w, (same, (now, a, b, seen)), i2, h2).
            dispatch_row-IsTimely now due u a b (sym seen) sound (rw same at i2) h2)
