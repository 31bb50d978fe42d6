-- ===== src/Delivery/Counters.antt =====
-- The jobs' counters of attempts, and updates of the table jobs of api-service/migrations/sqls that let
-- none go down.
use scalequeue.Common.{
  refl, ℕ, ◌≤◌, ◌≡◌, inl, inr, String, Bool, List, [], ◌∷◌, ◌++◌, Option, none, some, ap, find?,
  map_where, arith, Bool-cases, str_eq, ◌+◌, ◌∙◌, true, false, eq_iff,
}
use scalequeue.Schema.{Job}
use scalequeue.Schema.Tables.{has_id}
use scalequeue.Session.{Session, Result}
use scalequeue.WorkerStore.Rules.{EndsDb}

-- The counter of a row; no row has had no attempt.
abbrev pub attempts_of : Option Job → ℕ
attempts_of none = 0
attempts_of (some j) = j.attempt_count

-- No job's counter has gone down.
abbrev pub KeepsCounters : List Job → List Job → Type 0
KeepsCounters xs ys =
    (id : String) → attempts_of (find? (has_id id) xs) ≤ attempts_of (find? (has_id id) ys)

pub KeepsCounters-refl : (xs : List Job) → KeepsCounters xs xs
KeepsCounters-refl xs id = omega arith

pub append-KeepsCounters : (xs ys : List Job) → KeepsCounters xs (xs ++ ys)
append-KeepsCounters [] ys id = omega arith
append-KeepsCounters (x ∷ xs) ys id = ground (arith, append-KeepsCounters xs ys id)

pub map_where-KeepsCounters :
    (p : Job → Bool) (f : Job → Job) (xs : List Job)
    → ((j : Job) → (f j).id ≡ j.id)
    → ((j : Job) → j.attempt_count ≤ (f j).attempt_count)
    → KeepsCounters xs (map_where p f xs)
map_where-KeepsCounters p f [] same more id = omega arith
map_where-KeepsCounters p f (x ∷ xs) same more id = elim (Bool-cases (p x)) [
  | inl e ↦
      let kept : has_id id (f x) ≡ has_id id x = ap (λ y. str_eq y id) (same x) in
      rw e (ground (arith, kept, more x, map_where-KeepsCounters p f xs same more id))
  | inr e ↦ rw e (ground (arith, map_where-KeepsCounters p f xs same more id))
]

-- After the call, however it ends.
abbrev pub EndsKeeping : {A : Type 0} → List Job → Result A × Session → Type 0
EndsKeeping jobs m = EndsDb (λ _ e. KeepsCounters jobs e.jobs) (λ _ e. KeepsCounters jobs e.jobs) m

-- The row's counter after an update that adds one.
pub find?-counted :
    (id : String) (f : Job → Job) (xs : List Job) (row : Job)
    → ((j : Job) → (f j).id ≡ j.id)
    → ((j : Job) → (f j).attempt_count ≡ j.attempt_count + 1)
    → find? (has_id id) xs ≡ some row
    → attempts_of (find? (has_id id) (map_where (has_id id) f xs)) ≡ row.attempt_count + 1
find?-counted id f [] row same more found = cc
find?-counted id f (x ∷ xs) row same more found = elim (Bool-cases (has_id id x)) [
  | inl e ↦
      let kept : has_id id (f x) ≡ true = ap (λ y. str_eq y id) (same x) ∙ e in
      rw (e, kept) (ground (arith, more x))
  | inr e ↦ rw (e, e) (find?-counted id f xs row same more (rw e at found))
]

-- An update of another job.
pub find?-other :
    (key id : String) (f : Job → Job) (xs : List Job)
    → str_eq key id ≡ false
    → ((j : Job) → (f j).id ≡ j.id)
    → attempts_of (find? (has_id id) (map_where (has_id key) f xs))
      ≡ attempts_of (find? (has_id id) xs)
find?-other key id f [] differs same = refl
find?-other key id f (x ∷ xs) differs same = elim (Bool-cases (has_id key x)) [
  | inl e ↦
      let own : x.id ≡ key = (eq_iff x.id key).0 e in
      let out : has_id id x ≡ false = ap (λ y. str_eq y id) own ∙ differs in
      let kept : has_id id (f x) ≡ false = ap (λ y. str_eq y id) (same x) ∙ out in
      rw (e, out, kept) (find?-other key id f xs differs same)
  | inr e ↦ rw e (ground (arith, find?-other key id f xs differs same))
]
