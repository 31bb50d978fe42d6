-- ===== src/Migration/Inserting.antt =====
-- INSERT … SELECT of the upgrade, and the ids of the rows that it reads.
use scalequeue.Common.{
  append_assoc, append-nil, All-mono, eq_refl, ⊤, ℕ, ◌+◌, ◌≡◌, refl, sym, ap, ap₂, ◌∙◌, inl, inr,
  String, Bool, true, false, Option, none, List, [], ◌∷◌, ◌++◌, map, filter, any, map_where, All,
  Bool-cases, arith, str_eq, any-append,
}
use scalequeue.Schema.{Job, Outbox, Db}
use scalequeue.Schema.Keys.{no_identity}
use scalequeue.Schema.Tables.{done, has_id, of_job, insert_outbox}
use scalequeue.Delivery.{IsNumbered}
use scalequeue.Delivery.Statements.{append-IsNumbered}
use scalequeue.Migration.{OldJob, add_columns, keep_budget, insert_each}

-- PRIMARY KEY (id)
abbrev pub HasNewId : String → List String → Type 0
HasNewId id ids = All (λ i. str_eq id i ≡ false) ids

abbrev pub AreDistinct : List String → Type 0
AreDistinct [] = ⊤
AreDistinct (id ∷ ids) = HasNewId id ids × AreDistinct ids

abbrev pub ids_of : List Job → List String
ids_of js = map (λ j. j.id) js

-- A dispatch intent without its number and its instant.
abbrev pub intent_of : Outbox → String × ℕ × ℕ × Option ℕ
intent_of o = (o.job_id, o.generation, o.attempt, o.published_at)

abbrev pub intent_for : Job → String × ℕ × ℕ × Option ℕ
intent_for j = (j.id, j.generation, j.attempt_count + 1, none)

map-append : {A B : Type 0} (f : A → B) (xs ys : List A) → map f (xs ++ ys) ≡ map f xs ++ map f ys
map-append f [] ys = refl
map-append f (x ∷ xs) ys = ap (λ t. f x ∷ t) (map-append f xs ys)

-- No intent for the jobs yet.
abbrev AreNew : List Outbox → List Job → Type 0
AreNew os js = All (λ (j : Job). any (of_job j.id) os ≡ false) js

AreNew-append :
    (os : List Outbox) (o : Outbox) (js : List Job)
    → HasNewId o.job_id (ids_of js)
    → AreNew os js
    → AreNew (os ++ o ∷ []) js
AreNew-append os o [] new h = tt
AreNew-append os o (j ∷ js) (n, new) (p, h) =
    (rw (any-append (of_job j.id) os (o ∷ [])) (ground arith), AreNew-append os o js new h)

pub record Inserts (js : List Job) (d e : Db) : Type 0 where
  pub same : e.jobs ≡ d.jobs
  pub intents : map intent_of e.outbox ≡ map intent_of d.outbox ++ map intent_for js
  pub numbered : IsNumbered 0 e.outbox e.next_outbox

abbrev next_intent : ℕ → Job → Db → Outbox
next_intent now j d = record {
  id = d.next_outbox;
  job_id = j.id;
  generation = j.generation;
  attempt = j.attempt_count + 1;
  available_at = now;
  published_at = none;
}

abbrev with_intent : ℕ → Job → Db → Db
with_intent now j d = record d {
  outbox = d.outbox ++ next_intent now j d ∷ [];
  next_outbox = d.next_outbox + 1;
}

insert_outbox_new :
    (now : ℕ) (j : Job) (d : Db)
    → any (has_id j.id) d.jobs ≡ true
    → any (of_job j.id) d.outbox ≡ false
    → insert_outbox j.id j.generation (j.attempt_count + 1) now d ≡ done (with_intent now j d)
unfolding insert_outbox
insert_outbox_new now j d k n =
    rw (k, no_identity j.id j.generation (j.attempt_count + 1) d.outbox n) refl

pub insert_each_lem :
    (now : ℕ) (js : List Job) (d : Db)
    → All (λ (j : Job). any (has_id j.id) d.jobs ≡ true) js
    → AreNew d.outbox js
    → AreDistinct (ids_of js)
    → IsNumbered 0 d.outbox d.next_outbox
    → (e : Db) × (insert_each now js d ≡ done e) × Inserts js d e
unfolding insert_each
insert_each_lem now [] d known new distinct number =
    (d, refl, record { same = refl; intents = sym (append-nil _); numbered = number })
insert_each_lem now (j ∷ js) d (k, known) (n, new) (i, distinct) number =
    let d1 = with_intent now j d in
    let (e, ran, rest) =
      insert_each_lem now js d1 known (AreNew-append d.outbox (next_intent now j d) js i new)
        distinct (append-IsNumbered 0 d.next_outbox (next_intent now j d) d.outbox refl number) in
    (
      e,
      rw (insert_each, insert_outbox_new now j d k n) ran,
      record {
        same = rest.same;
        intents =
            rest.intents
            ∙ ap (λ t. t ++ map intent_for js)
                (map-append intent_of d.outbox (next_intent now j d ∷ []))
            ∙ append_assoc (map intent_of d.outbox) (intent_for j ∷ []) (map intent_for js);
        numbered = rest.numbered;
      },
    )

-- The ids of a table through a map, a change of rows and a selection.
pub ids-add_columns :
    (now : ℕ) (js : List OldJob) → ids_of (map (add_columns now) js) ≡ map (λ (j : OldJob). j.id) js
ids-add_columns now [] = refl
ids-add_columns now (j ∷ js) = ap (λ t. j.id ∷ t) (ids-add_columns now js)

pub ids-keep_budget : (now : ℕ) (j : Job) → (keep_budget now j).id ≡ j.id
ids-keep_budget now j = ground arith

pub ids-map_where :
    (p : Job → Bool) (f : Job → Job) (js : List Job)
    → ((j : Job) → (f j).id ≡ j.id)
    → ids_of (map_where p f js) ≡ ids_of js
ids-map_where p f [] same = refl
ids-map_where p f (j ∷ js) same =
    ap₂ (λ i is. i ∷ is) (ground (arith, same j)) (ids-map_where p f js same)

HasNewId-filter :
    (id : String) (p : Job → Bool) (js : List Job)
    → HasNewId id (ids_of js)
    → HasNewId id (ids_of (filter p js))
HasNewId-filter id p [] h = tt
HasNewId-filter id p (j ∷ js) (i, h) = elim (Bool-cases (p j)) [
  | inl e ↦ rw e (i, HasNewId-filter id p js h)
  | inr e ↦ rw e (HasNewId-filter id p js h)
]

pub AreDistinct-filter :
    (p : Job → Bool) (js : List Job) → AreDistinct (ids_of js) → AreDistinct (ids_of (filter p js))
AreDistinct-filter p [] h = tt
AreDistinct-filter p (j ∷ js) (i, h) = elim (Bool-cases (p j)) [
  | inl e ↦ rw e (HasNewId-filter j.id p js i, AreDistinct-filter p js h)
  | inr e ↦ rw e (AreDistinct-filter p js h)
]

-- Every row of a table is found in it.
pub each_known : (js : List Job) → All (λ (j : Job). any (has_id j.id) js ≡ true) js
each_known [] = tt
each_known (j ∷ js) =
    (rw (eq_refl j.id) refl, All-mono js (λ (x : Job) h. ground (arith, h)) (each_known js))

pub empty_AreNew : (js : List Job) → AreNew [] js
empty_AreNew [] = tt
empty_AreNew (j ∷ js) = (refl, empty_AreNew js)
