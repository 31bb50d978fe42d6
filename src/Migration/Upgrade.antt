-- ===== src/Migration/Upgrade.antt =====
-- What the upgrade of api-service/migrations/sqls/20261025000000-durable-delivery-up.sql makes of the
-- old jobs.
use scalequeue.Common.{
  All-and, All-map_where, find?-All, All-of-filter, ◌&&◌, ◌||◌, filter-All, All-mono, eq_refl, ℕ,
  ◌+◌, ◌≤◌, ◌≡◌, ◌≢◌, refl, ap, ◌∙◌, String, true, List, [], ◌∷◌, map, filter, any, map_where, All,
  arith, str_eq, ◌==◌, find?-test, eq_iff,
}
use scalequeue.Schema.{JobStatus, Job, Outbox, Db}
use scalequeue.Schema.Tables.{done, has_id}
use scalequeue.Delivery.{is_open, is_intent, IsNumbered, IsKeyed, AreBehind, IsSound}
use scalequeue.Delivery.References.{map_where-IsKeyed}
use scalequeue.Migration.Keys.{distinct-IsKeyed, released-AreBehind}
use scalequeue.Migration.Inserting.{
  AreDistinct, ids_of, intent_of, intent_for, insert_each_lem, ids-add_columns, ids-keep_budget,
  ids-map_where, AreDistinct-filter, each_known, empty_AreNew,
}
use scalequeue.Migration.Rows.{
  used_attempts, resumed, selected, kept_rows, released_rows, columns_of, kept_row,
  kept_row-KeepsRow, rows_columns, intent_wanted, unfinished_jobs, row_intents,
}
use scalequeue.WorkerStore.{is_processing}
use scalequeue.Migration.{
  OldJob, OldDb, add_columns, alter_tables, is_unfinished, keep_budget, keep_budgets, release,
  release_all, Instants, upgrade,
}

rows-AreDistinct :
    (at : Instants) (js : List OldJob)
    → AreDistinct (map (λ (j : OldJob). j.id) js)
    → AreDistinct (ids_of (kept_rows at js))
rows-AreDistinct at js h =
    let same =
      ids-map_where selected (keep_budget at.kept) (map (add_columns at.altered) js)
        (ids-keep_budget at.kept)
      ∙ ids-add_columns at.altered js in
    rw same h

-- The upgrade runs to its end.
upgrade_runs :
    (at : Instants) (d : OldDb)
    → AreDistinct (map (λ (j : OldJob). j.id) d.jobs)
    → (e : Db) × (upgrade at d ≡ done e)
      × (e.jobs ≡ released_rows at d.jobs)
      × (map intent_of e.outbox ≡ map intent_for (filter selected (kept_rows at d.jobs)))
      × IsNumbered 0 e.outbox e.next_outbox
unfolding upgrade
upgrade_runs at d distinct =
    let rows = kept_rows at d.jobs in
    let before = keep_budgets at.kept (alter_tables at.altered d) in
    let (e, ran, h) =
      insert_each_lem at.inserted (filter selected rows) before
        (filter-All (λ (j : Job). any (has_id j.id) rows ≡ true) selected rows (each_known rows))
        (empty_AreNew (filter selected rows))
        (AreDistinct-filter selected rows (rows-AreDistinct at d.jobs distinct)) (omega arith) in
    (
      release_all at.released e,
      rw (upgrade, ran) refl,
      ap (map_where (λ j. is_processing j.status) (release at.released)) h.same,
      h.intents,
      h.numbered,
    )

-- The upgrade succeeds where the old ids are distinct. Each old job keeps its place and its id, and
-- is in generation 1; PROCESSING becomes PENDING and other statuses stay; a job that was PENDING or
-- PROCESSING has used an attempt for each retry and one for the attempt that was interrupted. The
-- outbox has one intent, not published, for each of these jobs and no other, for the next attempt.
pub upgrade_lem :
    (at : Instants) (d : OldDb)
    → AreDistinct (map (λ (j : OldJob). j.id) d.jobs)
    → (e : Db) × (upgrade at d ≡ done e)
      × (map columns_of e.jobs ≡ map (λ j. (j.id, resumed j.status, used_attempts j, 1)) d.jobs)
      × (map intent_of e.outbox ≡ map intent_wanted (unfinished_jobs d.jobs))
upgrade_lem at d distinct =
    let (e, ran, rows, intents, _) = upgrade_runs at d distinct in
    (e, ran, ap (map columns_of) rows ∙ rows_columns at d.jobs, intents ∙ row_intents at d.jobs)

-- The intents cover the rows that they were made for.
any-intent_of :
    (id : String) (g : ℕ) (os : List Outbox)
    → any (is_intent id g) os ≡ any (λ t. str_eq t.0 id && t.1 == g) (map intent_of os)
any-intent_of id g [] = refl
any-intent_of id g (o ∷ os) = ap (λ b. is_intent id g o || b) (any-intent_of id g os)

each_wanted :
    (js : List Job)
    → All
        (λ (j : Job). any (λ t. str_eq t.0 j.id && t.1 == j.generation) (map intent_for js) ≡ true)
        js
each_wanted [] = tt
each_wanted (j ∷ js) =
    (ground (arith, eq_refl j.id), All-mono js (λ (x : Job) h. ground (arith, h)) (each_wanted js))

-- What the old worker left: the ids are distinct, no job is FAILED, and no job has been retried more
-- often than it may.
pub record IsOld (d : OldDb) : Type 0 where
  pub distinct : AreDistinct (map (λ (j : OldJob). j.id) d.jobs)
  pub unfailed : All (λ (j : OldJob). j.status ≢ JobStatus.failed) d.jobs
  pub budgeted : All (λ (j : OldJob). j.retry_count ≤ j.max_retries) d.jobs

-- A row after the upgrade, where `os` is the outbox.
abbrev IsGood : List Outbox → Job → Type 0
IsGood os j =
    (is_open j.status ≡ true → any (is_intent j.id j.generation) os ≡ true)
    × (j.attempt_count ≤ j.max_retries + 1)

abbrev IsGoodBefore : Job → Type 0
IsGoodBefore j =
    (is_open j.status ≡ true → is_unfinished j.status ≡ true)
    × (j.attempt_count ≤ j.max_retries + 1)

good_before :
    (x : Job) (j : OldJob)
    → x.status ≡ j.status
    → x.attempt_count ≡ used_attempts j
    → x.max_retries ≡ j.max_retries
    → j.status ≢ JobStatus.failed
    → j.retry_count ≤ j.max_retries
    → IsGoodBefore x
good_before x j same used most u b = ground arith

kept_rows-IsGoodBefore :
    (at : Instants) (js : List OldJob)
    → All (λ (j : OldJob). j.status ≢ JobStatus.failed) js
    → All (λ (j : OldJob). j.retry_count ≤ j.max_retries) js
    → All IsGoodBefore (kept_rows at js)
kept_rows-IsGoodBefore at [] u b = tt
kept_rows-IsGoodBefore at (j ∷ js) (u, us) (b, bs) = (
  good_before (kept_row at j) j (kept_row-KeepsRow at j).status (kept_row-KeepsRow at j).attempts
      (kept_row-KeepsRow at j).retries u b,
  kept_rows-IsGoodBefore at js us bs,
)

release-IsGood :
    (os : List Outbox) (now : ℕ) (x : Job)
    → is_processing x.status ≡ true
    → IsGood os x
    → IsGood os (release now x)
release-IsGood os now x p (c, b) = (λ _. c (ground arith), b)

released_rows-IsGood :
    (at : Instants) (js : List OldJob) (os : List Outbox)
    → map intent_of os ≡ map intent_for (filter selected (kept_rows at js))
    → All IsGoodBefore (kept_rows at js)
    → All (IsGood os) (released_rows at js)
released_rows-IsGood at js os intents before =
    let rows = kept_rows at js in
    let found =
      All-mono (filter selected rows)
        (λ (j : Job) h. any-intent_of j.id j.generation os ∙ rw intents h)
        (each_wanted (filter selected rows)) in
    let covered = All-of-filter _ selected rows found in
    All-map_where (IsGood os) (λ j. is_processing j.status) (release at.released) rows
      (release-IsGood os at.released)
      (All-mono rows (λ (j : Job) h. (λ o. h.0 (h.1.0 o), h.1.1)) (All-and _ _ rows covered before))

rows-IsSound :
    (e : Db)
    → All (IsGood e.outbox) e.jobs
    → IsNumbered 0 e.outbox e.next_outbox
    → IsKeyed e.jobs
    → AreBehind e.jobs e.outbox
    → IsSound e
rows-IsSound e good numbered keyed behind = record {
  covered = λ id j found opened.
      rw (← (eq_iff j.id id).0 (find?-test (has_id id) e.jobs j found))
        ((find?-All (IsGood e.outbox) (has_id id) e.jobs j good found).0 opened);
  budgeted = λ id j found. (find?-All (IsGood e.outbox) (has_id id) e.jobs j good found).1;
  numbered = numbered;
  keyed = keyed;
  behind = behind;
}

-- The upgraded database meets the invariant of jobs and outbox that the methods of the API and of
-- the worker keep: every job that is neither COMPLETED nor DEAD has a dispatch intent of its
-- generation, and no job has used more attempts than its budget. The old ids are distinct, no old
-- job is FAILED, and no old job was retried more often than its `max_retries`.
pub upgrade-IsSound :
    (at : Instants) (d : OldDb) → IsOld d → (e : Db) × (upgrade at d ≡ done e) × IsSound e
upgrade-IsSound at d old =
    let (e, ran, rows, intents, numbered) = upgrade_runs at d old.distinct in
    let good =
      released_rows-IsGood at d.jobs e.outbox intents
        (kept_rows-IsGoodBefore at d.jobs old.unfailed old.budgeted) in
    let ids = rows-AreDistinct at d.jobs old.distinct in
    let keyed =
      map_where-IsKeyed (λ j. is_processing j.status) (release at.released) (kept_rows at d.jobs)
        (λ _. refl) (distinct-IsKeyed (kept_rows at d.jobs) ids) in
    let behind =
      released-AreBehind at.released selected (kept_rows at d.jobs) e.outbox ids intents in
    (e, ran, rows-IsSound e (rw rows good) numbered (rw rows keyed) (rw rows behind))
