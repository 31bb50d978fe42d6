-- ===== src/Migration/Rows.antt =====
-- The rows that the upgrade's statements leave, one by one.
use scalequeue.Common.{
  ℕ, ◌+◌, ◌≡◌, refl, ap, ap₂, ◌∙◌, inl, inr, String, Bool, Option, none, List, [], ◌∷◌, map, filter,
  map_where, if◌then◌else◌, Bool-cases, arith,
}
use scalequeue.Schema.{JobStatus, Job}
use scalequeue.Migration.Inserting.{intent_for}
use scalequeue.WorkerStore.{is_processing}
use scalequeue.Migration.{OldJob, add_columns, is_unfinished, keep_budget, release, Instants}

-- The attempts that an old job has used.
abbrev pub used_attempts : OldJob → ℕ
used_attempts j = elim j.status [
  | JobStatus.pending ↦ j.retry_count
  | JobStatus.processing ↦ j.retry_count + 1
  | _ ↦ 0
]

abbrev pub resumed : JobStatus → JobStatus
resumed JobStatus.pending = JobStatus.pending
resumed JobStatus.processing = JobStatus.pending
resumed JobStatus.completed = JobStatus.completed
resumed JobStatus.failed = JobStatus.failed
resumed JobStatus.dead = JobStatus.dead

abbrev pub selected : Job → Bool
selected j = is_unfinished j.status

-- The rows of an old table before the intents are inserted, and at the end.
abbrev pub kept_rows : Instants → List OldJob → List Job
kept_rows at js = map_where selected (keep_budget at.kept) (map (add_columns at.altered) js)

abbrev pub released_rows : Instants → List OldJob → List Job
released_rows at js =
    map_where (λ j. is_processing j.status) (release at.released) (kept_rows at js)

abbrev pub columns_of : Job → String × JobStatus × ℕ × ℕ
columns_of j = (j.id, j.status, j.attempt_count, j.generation)

abbrev pub kept_row : Instants → OldJob → Job
kept_row at j =
    let x = add_columns at.altered j in if is_unfinished j.status then keep_budget at.kept x else x

abbrev released_row : Instants → OldJob → Job
released_row at j =
    if is_processing (kept_row at j).status
    then release at.released (kept_row at j)
    else kept_row at j

pub record KeepsRow (at : Instants) (j : OldJob) : Type 0 where
  pub id : (kept_row at j).id ≡ j.id
  pub status : (kept_row at j).status ≡ j.status
  pub attempts : (kept_row at j).attempt_count ≡ used_attempts j
  pub generation : (kept_row at j).generation ≡ 1
  pub retries : (kept_row at j).max_retries ≡ j.max_retries

pub kept_row-KeepsRow : (at : Instants) (j : OldJob) → KeepsRow at j
kept_row-KeepsRow at j = ground arith

quadruple :
    {A B C D : Type 0} {a a' : A} {b b' : B} {c c' : C} {d d' : D}
    → a ≡ a'
    → b ≡ b'
    → c ≡ c'
    → d ≡ d'
    → ◌≡◌ {A = A × B × C × D} (a, b, c, d) (a', b', c', d')
quadruple h1 h2 h3 h4 = rw (h1, h2, h3, h4) refl

release_columns :
    (now : ℕ) (x : Job)
    → columns_of (if is_processing x.status then release now x else x)
      ≡ (x.id, resumed x.status, x.attempt_count, x.generation)
release_columns now x = ground arith

row_columns :
    (at : Instants) (j : OldJob)
    → columns_of (released_row at j) ≡ (j.id, resumed j.status, used_attempts j, 1)
row_columns at j =
    let h = kept_row-KeepsRow at j in
    release_columns at.released (kept_row at j)
    ∙ quadruple h.id (ap resumed h.status) h.attempts h.generation

pub rows_columns :
    (at : Instants) (js : List OldJob)
    → map columns_of (released_rows at js)
      ≡ map (λ (j : OldJob). (j.id, resumed j.status, used_attempts j, 1)) js
rows_columns at [] = refl
rows_columns at (j ∷ js) = ap₂ (λ x xs. x ∷ xs) (row_columns at j) (rows_columns at js)

abbrev pub intent_wanted : OldJob → String × ℕ × ℕ × Option ℕ
intent_wanted j = (j.id, 1, used_attempts j + 1, none)

abbrev pub unfinished_jobs : List OldJob → List OldJob
unfinished_jobs js = filter (λ j. is_unfinished j.status) js

row_intent :
    (x : Job) (j : OldJob) (xs : List Job) (js : List OldJob)
    → x.status ≡ j.status
    → intent_for x ≡ intent_wanted j
    → map intent_for (filter selected xs) ≡ map intent_wanted (unfinished_jobs js)
    → map intent_for (filter selected (x ∷ xs)) ≡ map intent_wanted (unfinished_jobs (j ∷ js))
row_intent x j xs js same h rest =
    let also : is_unfinished x.status ≡ is_unfinished j.status = ap is_unfinished same in
    elim (Bool-cases (is_unfinished j.status)) [
      | inl e ↦ rw (also ∙ e) (rw e (ap₂ (λ a l. a ∷ l) h rest))
      | inr e ↦ rw (also ∙ e) (rw e rest)
    ]

pub row_intents :
    (at : Instants) (js : List OldJob)
    → map intent_for (filter selected (kept_rows at js)) ≡ map intent_wanted (unfinished_jobs js)
row_intents at [] = refl
row_intents at (j ∷ js) =
    let h = kept_row-KeepsRow at j in
    row_intent (kept_row at j) j (kept_rows at js) js h.status
      (quadruple h.id h.generation (ap (λ n. n + 1) h.attempts) refl) (row_intents at js)
