-- ===== src/Delivery/Statements.antt =====
-- The statements that keep the database sound.
use scalequeue.Common.{
  ℕ, ◌+◌, ◌≤◌, ◌≡◌, refl, ap, eq_iff, str_eq, Bool-cases, inl, inr, String, Bool, true, false, not,
  List, [], ◌∷◌, ◌++◌, Option, none, some, any, find?, filter, map_where, arith, find?-map_where,
  All-map_where, filter-All, any-append, ◌==◌,
}
use scalequeue.Schema.{JobStatus, Job, Outbox, Db}
use scalequeue.Schema.Tables.{has_id, done, insert_log, insert_outbox}
use scalequeue.WorkerStore.Dispatch.{has_number, delete_outbox, stamp, mark_published}
use scalequeue.Delivery.{
  is_open, is_intent, IsCovered, IsBudgeted, IsNumbered, IsBehind, IsReached, IsSound,
}
use scalequeue.Delivery.References.{append-AreBehind}

-- An UPDATE of jobs that leaves identities alone, and opens only jobs that were open, in the same
-- generation.
pub map_where-IsCovered :
    (p : Job → Bool) (f : Job → Job) (jobs : List Job) (outbox : List Outbox)
    → ((j : Job) → (f j).id ≡ j.id)
    → ((j : Job) (id : String)
        → find? (has_id id) jobs ≡ some j
        → p j ≡ true
        → is_open (f j).status ≡ true
        → (is_open j.status ≡ true) × ((f j).generation ≡ j.generation))
    → IsCovered jobs outbox
    → IsCovered (map_where p f jobs) outbox
map_where-IsCovered p f jobs outbox same keep h id j found opened =
    let (i, before, how) =
      find?-map_where (has_id id) p f jobs j (λ y. ap (λ x. str_eq x id) (same y)) found in
    elim how [
      | inl e ↦ h id j (rw e before) opened
      | inr (q, e) ↦
          let (was_open, age) = keep i id before q (rw e at opened) in
          rw e (rw age (h id i before was_open))
    ]

pub map_where-IsBudgeted :
    (p : Job → Bool) (f : Job → Job) (jobs : List Job)
    → ((j : Job) → (f j).id ≡ j.id)
    → ((j : Job) (id : String)
        → find? (has_id id) jobs ≡ some j
        → p j ≡ true
        → (f j).attempt_count ≤ (f j).max_retries + 1)
    → IsBudgeted jobs
    → IsBudgeted (map_where p f jobs)
map_where-IsBudgeted p f jobs same keep h id j found =
    let (i, before, how) =
      find?-map_where (has_id id) p f jobs j (λ y. ap (λ x. str_eq x id) (same y)) found in
    elim how [ inl e ↦ rw e (h id i before) | inr (q, e) ↦ rw e (keep i id before q) ]

pub append-IsNumbered :
    (low high : ℕ) (o : Outbox) (os : List Outbox)
    → o.id ≡ high
    → IsNumbered low os high
    → IsNumbered low (os ++ o ∷ []) (high + 1)
append-IsNumbered low high o [] e h = ground arith
append-IsNumbered low high o (x ∷ os) e (a, h) = (a, append-IsNumbered (x.id + 1) high o os e h)

IsNumbered-weaken :
    (low low' high : ℕ) (os : List Outbox)
    → low' ≤ low
    → IsNumbered low os high
    → IsNumbered low' os high
IsNumbered-weaken low low' high [] le h = omega arith
IsNumbered-weaken low low' high (x ∷ os) le (a, h) = (omega arith, h)

filter-IsNumbered :
    (p : Outbox → Bool) (low high : ℕ) (os : List Outbox)
    → IsNumbered low os high
    → IsNumbered low (filter p os) high
filter-IsNumbered p low high [] h = h
filter-IsNumbered p low high (x ∷ os) (a, h) = elim (Bool-cases (p x)) [
  | inl e ↦ rw e (a, filter-IsNumbered p (x.id + 1) high os h)
  | inr e ↦ rw e (
      IsNumbered-weaken (x.id + 1) low high _ (omega arith)
        (filter-IsNumbered p (x.id + 1) high os h))
]

stamp-IsNumbered :
    (p : Outbox → Bool) (now low high : ℕ) (os : List Outbox)
    → IsNumbered low os high
    → IsNumbered low (map_where p (stamp now) os) high
stamp-IsNumbered p now low high [] h = h
stamp-IsNumbered p now low high (x ∷ os) (a, h) = elim (Bool-cases (p x)) [
  | inl e ↦ rw e (a, stamp-IsNumbered p now (x.id + 1) high os h)
  | inr e ↦ rw e (a, stamp-IsNumbered p now (x.id + 1) high os h)
]

any-stamp :
    (id : String) (generation now : ℕ) (p : Outbox → Bool) (os : List Outbox)
    → any (is_intent id generation) (map_where p (stamp now) os) ≡ any (is_intent id generation) os
any-stamp id generation now p [] = refl
any-stamp id generation now p (x ∷ os) = elim (Bool-cases (p x)) [
  | inl e ↦ rw e (rw (any-stamp id generation now p os) refl)
  | inr e ↦ rw e (rw (any-stamp id generation now p os) refl)
]

find-IsNumbered :
    (p : Outbox → Bool) (low high : ℕ) (os : List Outbox) (o : Outbox)
    → IsNumbered low os high
    → find? p os ≡ some o
    → low ≤ o.id
find-IsNumbered p low high [] o h e = cc
find-IsNumbered p low high (x ∷ os) o (a, h) e =
    ground (arith, find-IsNumbered p (x.id + 1) high os o h)

-- Rows with greater numbers survive a deletion.
any-delete_above :
    (q : Outbox → Bool) (n low high : ℕ) (os : List Outbox)
    → n + 1 ≤ low
    → IsNumbered low os high
    → any q os ≡ true
    → any q (filter (λ o. not (has_number n o)) os) ≡ true
any-delete_above q n low high [] le h e = e
any-delete_above q n low high (x ∷ os) le (a, h) e =
    ground (arith, any-delete_above q n (x.id + 1) high os)

any-delete_first :
    (q : Outbox → Bool) (x : Outbox) (n high : ℕ) (os : List Outbox)
    → n ≡ x.id
    → IsNumbered (x.id + 1) os high
    → q x ≡ false
    → any q (x ∷ os) ≡ true
    → any q (filter (λ y. not (has_number n y)) (x ∷ os)) ≡ true
any-delete_first q x n high os same h miss e =
    let rest : any q (filter (λ y. not (has_number n y)) os) ≡ true =
      any-delete_above q n (x.id + 1) high os (omega arith) h (ground arith) in
    ground arith

-- The deletion of a row that fails a test leaves the rows that pass it.
any-delete :
    (q p : Outbox → Bool) (low high : ℕ) (os : List Outbox) (o : Outbox)
    → IsNumbered low os high
    → find? p os ≡ some o
    → q o ≡ false
    → any q os ≡ true
    → any q (filter (λ x. not (has_number o.id x)) os) ≡ true
any-delete q p low high [] o h found miss e = e
any-delete q p low high (x ∷ os) o (a, h) found miss e = elim (Bool-cases (p x)) [
  | inl first ↦ any-delete_first q x o.id high os (ground arith) h (ground arith) e
  | inr other ↦
      let le : x.id + 1 ≤ o.id = find-IsNumbered p (x.id + 1) high os o h (ground arith) in
      ground (arith, any-delete q p (x.id + 1) high os o h)
]

IsSound-same :
    {d e : Db}
    → (e.jobs ≡ d.jobs) × (e.outbox ≡ d.outbox) × (e.next_outbox ≡ d.next_outbox)
    → IsSound d
    → IsSound e
IsSound-same (a, b, c) sound = record {
  covered = rw a (rw b sound.covered);
  budgeted = rw a sound.budgeted;
  numbered = rw b (rw c sound.numbered);
  keyed = rw a sound.keyed;
  behind = rw a (rw b sound.behind);
}

pub insert_log-IsSound :
    (id : String) (from : Option JobStatus) (to : JobStatus) (text : String)
    (worker : Option String) (now : ℕ) (d e : Db)
    → insert_log id from to text worker now d ≡ done e
    → IsSound d
    → IsSound e
unfolding insert_log
insert_log-IsSound id from to text worker now d e h sound =
    IsSound-same {d = d} {e = e} (ground arith) sound

IsSound-more :
    (o : Outbox) {d e : Db}
    → o.id ≡ d.next_outbox
    → IsBehind d.jobs o
    → (e.jobs ≡ d.jobs) × (e.outbox ≡ d.outbox ++ o ∷ []) × (e.next_outbox ≡ d.next_outbox + 1)
    → IsSound d
    → IsSound e
IsSound-more o {d} number follows (a, b, c) sound = record {
  covered = rw a (
      rw b (λ id j found opened.
        let kept = sound.covered id j found opened in
        ground (arith, any-append (is_intent id j.generation) d.outbox (o ∷ []))));
  budgeted = rw a sound.budgeted;
  numbered = rw b (rw c (append-IsNumbered 0 d.next_outbox o d.outbox number sound.numbered));
  keyed = rw a sound.keyed;
  behind = rw a (rw b (append-AreBehind d.jobs o d.outbox follows sound.behind));
}

pub insert_outbox-IsSound :
    (id : String) (generation attempt available_at : ℕ) (d e : Db)
    → insert_outbox id generation attempt available_at d ≡ done e
    → (j : Job) × (find? (has_id id) d.jobs ≡ some j) × IsReached generation attempt j
    → IsSound d
    → IsSound e
unfolding insert_outbox
insert_outbox-IsSound id generation attempt available_at d e h follows sound =
    IsSound-more
      (record {
        id = d.next_outbox;
        job_id = id;
        generation = generation;
        attempt = attempt;
        available_at = available_at;
        published_at = none;
      })
      {d = d} {e = e} refl follows (ground arith) sound

pub mark_published-IsSound : (n now : ℕ) (d : Db) → IsSound d → IsSound (mark_published n now d)
mark_published-IsSound n now d sound = record {
  covered = λ id j found opened.
      rw (any-stamp id j.generation now (has_number n) d.outbox) (sound.covered id j found opened);
  budgeted = sound.budgeted;
  numbered = stamp-IsNumbered (has_number n) now 0 d.next_outbox d.outbox sound.numbered;
  keyed = sound.keyed;
  behind =
      All-map_where (IsBehind d.jobs) (has_number n) (stamp now) d.outbox (λ o _ h. h) sound.behind;
}

-- A row that is due is deleted only where no open job needs it.
pub delete_outbox-IsSound :
    (p : Outbox → Bool) (o : Outbox) (d : Db)
    → find? p d.outbox ≡ some o
    → ((j : Job)
        → find? (has_id o.job_id) d.jobs ≡ some j
        → is_open j.status ≡ true
        → (o.generation == j.generation) ≡ false)
    → IsSound d
    → IsSound (delete_outbox o.id d)
delete_outbox-IsSound p o d due over sound = record {
  covered = λ id j found opened.
      let spare : is_intent id j.generation o ≡ false = elim (Bool-cases (str_eq o.job_id id)) [
        | inl e ↦
            let same : o.job_id ≡ id = (eq_iff o.job_id id).0 e in
            let gone = over j (rw same found) opened in ground arith
        | inr e ↦ ground arith
      ] in
      any-delete (is_intent id j.generation) p 0 d.next_outbox d.outbox o sound.numbered due spare
        (sound.covered id j found opened);
  budgeted = sound.budgeted;
  numbered =
      filter-IsNumbered (λ x. not (has_number o.id x)) 0 d.next_outbox d.outbox sound.numbered;
  keyed = sound.keyed;
  behind = filter-All (IsBehind d.jobs) (λ x. not (has_number o.id x)) d.outbox sound.behind;
}
