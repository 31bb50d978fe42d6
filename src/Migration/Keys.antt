-- ===== src/Migration/Keys.antt =====
-- The keys of the upgraded tables (api-service/migrations/sqls/20261025000000-durable-delivery-up.sql).
use scalequeue.Common.{
  Option, ℕ, ◌≡◌, refl, inl, inr, String, Bool, false, List, [], ◌∷◌, some, map, filter, find?,
  count, map_where, All, All-and, All-mono, filter-All, Bool-cases, arith, str_eq, eq_iff, eq_refl,
}
use scalequeue.Schema.{Job, Outbox}
use scalequeue.Schema.Tables.{has_id}
use scalequeue.WorkerStore.{is_processing}
use scalequeue.Delivery.{IsKeyed, IsReached, AreBehind}
use scalequeue.Delivery.References.{map_where-AreBehind}
use scalequeue.Migration.{release}
use scalequeue.Migration.Inserting.{HasNewId, AreDistinct, ids_of, intent_of, intent_for}

map-All :
    {A B : Type 0} (P : B → Type 0) (f : A → B) (xs : List A)
    → All (λ x. P (f x)) xs
    → All P (map f xs)
map-All P f [] h = tt
map-All P f (x ∷ xs) (p, h) = (p, map-All P f xs h)

All-of-map :
    {A B : Type 0} (P : B → Type 0) (f : A → B) (xs : List A)
    → All P (map f xs)
    → All (λ x. P (f x)) xs
All-of-map P f [] h = tt
All-of-map P f (x ∷ xs) (p, h) = (p, All-of-map P f xs h)

differs_back : (a b : String) → str_eq a b ≡ false → str_eq b a ≡ false
differs_back a b h = elim (Bool-cases (str_eq b a)) [
  | inl e ↦ let same : b ≡ a = (eq_iff b a).0 e in rw same (rw same at h)
  | inr e ↦ e
]

count-HasNewId : (id : String) (js : List Job) → HasNewId id (ids_of js) → count (has_id id) js ≡ 0
count-HasNewId id [] h = refl
count-HasNewId id (j ∷ js) (n, h) = rw (differs_back id j.id n) (count-HasNewId id js h)

pub distinct-IsKeyed : (js : List Job) → AreDistinct (ids_of js) → IsKeyed js
distinct-IsKeyed [] h id = omega arith
distinct-IsKeyed (j ∷ js) (n, h) id = elim (Bool-cases (str_eq j.id id)) [
  | inl e ↦
      let same : j.id ≡ id = (eq_iff j.id id).0 e in
      let none_left = count-HasNewId id js (rw same at n) in ground arith
  | inr e ↦ ground (arith, distinct-IsKeyed js h id)
]

-- Each row is what its key finds.
each_found :
    (js : List Job)
    → AreDistinct (ids_of js)
    → All (λ (j : Job). find? (has_id j.id) js ≡ some j) js
each_found [] h = tt
each_found (j ∷ js) (n, h) = (
  rw (eq_refl j.id) refl,
  All-mono js (λ (x : Job) (a, b). rw a b)
      (All-and _ _ js (All-of-map (λ i. str_eq j.id i ≡ false) (λ (x : Job). x.id) js n)
        (each_found js h)),
)

-- The intents that were made for rows are behind these, and stay so when PROCESSING is released.
pub released-AreBehind :
    (now : ℕ) (p : Job → Bool) (rows : List Job) (os : List Outbox)
    → AreDistinct (ids_of rows)
    → map intent_of os ≡ map intent_for (filter p rows)
    → AreBehind (map_where (λ j. is_processing j.status) (release now) rows) os
released-AreBehind now p rows os distinct made =
    let P : String × ℕ × ℕ × Option ℕ → Type 0 =
      λ t. (j : Job) × (find? (has_id t.0) rows ≡ some j) × IsReached t.1 t.2 j in
    let each : All (λ (j : Job). P (intent_for j)) rows =
      All-mono rows (λ (j : Job) found. (j, found, inr (refl, omega arith)))
        (each_found rows distinct) in
    map_where-AreBehind (λ j. is_processing j.status) (release now) rows os (λ j. refl)
      (λ j. inr (refl, omega arith))
      (All-of-map P intent_of os (
        rw made
          (map-All P intent_for (filter p rows) (filter-All (λ j. P (intent_for j)) p rows each))))
