-- ===== src/Delivery/References.antt =====
-- The keys of jobs and outbox (api-service/migrations/sqls) under the statements on the tables.
use scalequeue.Common.{
  ℕ, ◌≤◌, ◌<◌, ◌≡◌, refl, ◌⊎◌, inl, inr, String, Bool, false, List, [], ◌∷◌, ◌++◌, any, count,
  map_where, All-mono, All-append, Bool-cases, arith, count-append, count-eq-zero, count-map_where,
  find?-append_left, find?-of-map_where, find?-of-map_where_other, str_eq, eq_iff,
}
use scalequeue.Schema.{Job, Outbox}
use scalequeue.Schema.Tables.{has_id}
use scalequeue.Delivery.{IsKeyed, IsReached, IsBehind, AreBehind}

pub map_where-IsKeyed :
    (p : Job → Bool) (f : Job → Job) (jobs : List Job)
    → ((j : Job) → (f j).id ≡ j.id)
    → IsKeyed jobs
    → IsKeyed (map_where p f jobs)
map_where-IsKeyed p f jobs same keyed id =
    rw (count-map_where (has_id id) p f jobs (λ x. rw (same x) refl)) (keyed id)

-- The key that is added is new.
count-other :
    (jobs : List Job) (j : Job) (id : String)
    → any (has_id j.id) jobs ≡ false
    → count (has_id id) jobs ≤ 1
    → count (has_id id) (jobs ++ j ∷ []) ≤ 1
count-other jobs j id new one = elim (Bool-cases (str_eq j.id id)) [
  | inl e ↦
      let same : j.id ≡ id = (eq_iff j.id id).0 e in
      let zero_of : count (has_id id) jobs ≡ 0 = count-eq-zero (has_id id) jobs (rw same at new) in
      ground (arith, count-append (has_id id) jobs (j ∷ []))
  | inr e ↦ ground (arith, count-append (has_id id) jobs (j ∷ []))
]

pub append-IsKeyed :
    (jobs : List Job) (j : Job)
    → any (has_id j.id) jobs ≡ false
    → IsKeyed jobs
    → IsKeyed (jobs ++ j ∷ [])
append-IsKeyed jobs j new keyed id = count-other jobs j id new (keyed id)

pub append_job-AreBehind :
    (jobs : List Job) (j : Job) (os : List Outbox)
    → AreBehind jobs os
    → AreBehind (jobs ++ j ∷ []) os
append_job-AreBehind jobs j os h =
    All-mono os
      (λ (o : Outbox) (i, found, r).
        (i, find?-append_left (has_id o.job_id) jobs (j ∷ []) i found, r))
      h

pub append-AreBehind :
    (jobs : List Job) (o : Outbox) (os : List Outbox)
    → IsBehind jobs o
    → AreBehind jobs os
    → AreBehind jobs (os ++ o ∷ [])
append-AreBehind jobs o os new h = All-append (IsBehind jobs) os (o ∷ []) h (new, tt)

-- A later generation, or the same with no fewer attempts.
abbrev pub IsOnward : Job → Job → Type 0
IsOnward i j =
    (i.generation < j.generation)
    ⊎ ((i.generation ≡ j.generation) × (i.attempt_count ≤ j.attempt_count))

onward-IsReached :
    (generation attempt : ℕ) (i j : Job)
    → IsOnward i j
    → IsReached generation attempt i
    → IsReached generation attempt j
onward-IsReached generation attempt i j h k = ground arith

-- An UPDATE that leads no job back.
pub map_where-AreBehind :
    (p : Job → Bool) (f : Job → Job) (jobs : List Job) (os : List Outbox)
    → ((j : Job) → (f j).id ≡ j.id)
    → ((j : Job) → IsOnward j (f j))
    → AreBehind jobs os
    → AreBehind (map_where p f jobs) os
map_where-AreBehind p f jobs os same onward h =
    All-mono os
      (λ (o : Outbox) (i, found, r). elim (Bool-cases (p i)) [
        | inl e ↦ (
          f i,
          find?-of-map_where (has_id o.job_id) p f jobs i (λ x. rw (same x) refl) found e,
          onward-IsReached o.generation o.attempt i (f i) (onward i) r,
        )
        | inr e ↦ (
          i,
          find?-of-map_where_other (has_id o.job_id) p f jobs i (λ x. rw (same x) refl) found e,
          r,
        )
      ])
      h
