-- ===== src/JobService/Listing/Results.antt =====
-- What `listJobs` and `listDeadJobs` of api-service/src/services/jobService.ts return.
use scalequeue.Common.{
  ◌↔◌, inl, inr, Bool-cases, false, str_eq, refl, ℕ, ◌-◌, ◌≡◌, ◌≢◌, String, Bool, true, ◌&&◌,
  Option, none, some, List, [], ◌∷◌, min, length, count, All, All-mono, arith, eq_iff, map, suc, ap,
  ◌∙◌,
}
use scalequeue.Schema.{JobStatus, status_name, Job, Db}
use scalequeue.Session.{Session}
use scalequeue.Session.Rules.{Ends, Ends-mono, Ends-continue, IsOutside, query-IsOutside}
use scalequeue.JobService.{Platform}
use scalequeue.JobService.Listing.{
  page, Filters, or_default, Listing, DeadJob, dead_columns, condition, where_clause, list_jobs,
  is_dead, list_dead_jobs,
}
use scalequeue.JobService.Listing.Pages.{
  IsDescending, IsCut, page-IsCut, OrdersRows, page-All, page-IsDescending, length-page,
}

and_left : (a b : Bool) → (a && b) ≡ true → a ≡ true
and_left a b h = ground arith

and_right : (a b : Bool) → (a && b) ≡ true → b ≡ true
and_right a b h = ground arith

is_dead_lem : (j : Job) → is_dead j ≡ true → j.status ≡ JobStatus.dead
is_dead_lem j h = ground arith

-- A page of a listing of `d`: its size follows from the total, its rows are in descending order.
abbrev pub IsPage : {A : Type 0} → (A → Type 0) → (A → ℕ) → ℕ → ℕ → Listing A → Type 0
IsPage P key limit offset r =
    (length r.jobs ≡ min limit (r.total - offset)) × All P r.jobs × IsDescending key r.jobs

All-dead_columns :
    (P : DeadJob → Type 0) (xs : List Job)
    → All (λ j. P (dead_columns j)) xs
    → All P (map dead_columns xs)
All-dead_columns P [] h = tt
All-dead_columns P (x ∷ xs) (p, h) = (p, All-dead_columns P xs h)

dead_columns-IsDescending :
    (xs : List Job)
    → IsDescending (λ j. j.updated_at) xs
    → IsDescending (λ j. j.updated_at) (map dead_columns xs)
dead_columns-IsDescending [] h = tt
dead_columns-IsDescending (x ∷ xs) (a, h) =
    (All-dead_columns _ xs a, dead_columns-IsDescending xs h)

length-dead_columns : (xs : List Job) → length (map dead_columns xs) ≡ length xs
length-dead_columns [] = refl
length-dead_columns (x ∷ xs) = ap suc (length-dead_columns xs)

module _ (platform : Platform) where
  open platform use {same_text}

  -- Every filter that is given and not empty is met.
  abbrev pub Meets : Filters → Job → Type 0
  Meets f j =
      ((w : String) → f.status ≡ some w → w ≢ "" → same_text (status_name j.status) w ≡ true)
      × ((w : String) → f.type ≡ some w → w ≢ "" → same_text j.type w ≡ true)

  condition_lem :
      (wanted : Option String) (column : Job → String) (j : Job)
      → condition platform wanted column j ≡ true
      → (w : String) → wanted ≡ some w
      → w ≢ ""
      → same_text (column j) w ≡ true
  condition_lem none column j h w e ne = cc
  condition_lem (some v) column j h w e ne = ground (arith, eq_iff v "")

  where_clause-Meets : (f : Filters) (j : Job) → where_clause platform f j ≡ true → Meets f j
  where_clause-Meets f j h = (
    condition_lem f.status (λ r. status_name r.status) j (and_left _ _ h),
    condition_lem f.type (λ r. r.type) j (and_right _ _ h),
  )

  condition_of :
      (wanted : Option String) (column : Job → String) (j : Job)
      → ((w : String) → wanted ≡ some w → w ≢ "" → same_text (column j) w ≡ true)
      → condition platform wanted column j ≡ true
  condition_of none column j h = refl
  condition_of (some v) column j h = elim (Bool-cases (str_eq v "")) [
    | inl e ↦ rw (condition, e) refl
    | inr e ↦ rw (condition, e) (h v refl (λ same. named e same))
  ]
    where
      named : str_eq v "" ≡ false → v ≡ "" → ⊥
      named e same = ground (arith, eq_iff v "")

  -- The WHERE clause holds of the rows that meet the filters.
  where_clause_iff : (f : Filters) (j : Job) → (where_clause platform f j ≡ true) ↔ Meets f j
  where_clause_iff f j = (
    where_clause-Meets f j,
    λ (h, k).
        both (condition_of f.status (λ r. status_name r.status) j h)
          (condition_of f.type (λ r. r.type) j k),
  )
    where
      both : {a b : Bool} → a ≡ true → b ≡ true → (a && b) ≡ true
      both p q = ground arith

  module _ (laws : OrdersRows platform) where
    -- `listJobs` outside a transaction changes nothing, whatever fails. The listing that it returns
    -- has the rows of one page: each meets the filters that are given, they are in descending order
    -- of `created_at`, the total counts the rows that meet the WHERE clause, and the number of rows
    -- is the limit or what the total leaves beyond the offset, if that is less. With the rows that
    -- it passes over, as many as the offset or the total, if that is less, and with those that it
    -- leaves, they are the rows of the table that meet the WHERE clause, each as often, in
    -- descending order of `created_at`. The WHERE clause holds of exactly the rows that meet the
    -- filters that are given.
    pub list_jobs_lem :
        (f : Filters) (d : Db) (s : Session)
        → IsOutside d s
        → Ends
            (λ _ t. IsOutside d t)
            (λ r t.
              IsOutside d t
              × (r.total ≡ count (where_clause platform f) d.jobs)
              × IsPage
                  (Meets f)
                  (λ j. j.created_at)
                  (or_default 20 f.limit)
                  (or_default 0 f.offset)
                  r
              × IsCut
                  (where_clause platform f)
                  (λ j. j.created_at)
                  (or_default 0 f.offset)
                  d.jobs
                  r.jobs
              × ((j : Job) → (where_clause platform f j ≡ true) ↔ Meets f j))
            (list_jobs platform f s)
    unfolding list_jobs
    list_jobs_lem f d s h =
        let test = where_clause platform f in
        let key = λ (j : Job). j.created_at in
        let l = or_default 20 f.limit in
        let o = or_default 0 f.offset in
        Ends-continue _ _ (Ends-mono _ (λ e t q. q.0) (λ _ t q. q) (query-IsOutside _ s h))
          λ rows s1 (eq, h1).
            Ends-continue _ _ (Ends-mono _ (λ e t q. q.0) (λ _ t q. q) (query-IsOutside _ s1 h1))
              λ total s2 (n, h2). record {
                holds = (
                  h2,
                  n,
                  (
                    rw (eq, n) (length-page platform laws test key l o d),
                    rw eq
                        (All-mono _ (where_clause-Meets f) (page-All platform laws test key l o d)),
                    rw eq (page-IsDescending platform laws test key l o d),
                  ),
                  rw eq (page-IsCut platform laws test key l o d),
                  where_clause_iff f,
                );
              }

    -- `listDeadJobs` outside a transaction changes nothing, whatever fails. The listing that it
    -- returns has the rows of one page of the DEAD jobs, in descending order of `updated_at`; the
    -- total counts the DEAD jobs, and the number of rows is the limit or what the total leaves
    -- beyond the offset, if that is less. They are the columns of rows which, with the rows that
    -- the page passes over, as many as the offset or the total, if that is less, and with those
    -- that it leaves, are the DEAD rows of the table, each as often, in descending order of
    -- `updated_at`.
    pub list_dead_jobs_lem :
        (limit offset : Option ℕ) (d : Db) (s : Session)
        → IsOutside d s
        → Ends
            (λ _ t. IsOutside d t)
            (λ r t.
              IsOutside d t
              × (r.total ≡ count is_dead d.jobs)
              × IsPage
                  (λ (j : DeadJob). j.status ≡ JobStatus.dead)
                  (λ j. j.updated_at)
                  (or_default 20 limit)
                  (or_default 0 offset)
                  r
              × ((rows : List Job) × (r.jobs ≡ map dead_columns rows)
                  × IsCut is_dead (λ j. j.updated_at) (or_default 0 offset) d.jobs rows))
            (list_dead_jobs platform limit offset s)
    unfolding list_dead_jobs
    list_dead_jobs_lem limit offset d s h =
        let key = λ (j : Job). j.updated_at in
        let l = or_default 20 limit in
        let o = or_default 0 offset in
        let found = page platform is_dead key l o d in
        Ends-continue _ _ (Ends-mono _ (λ e t q. q.0) (λ _ t q. q) (query-IsOutside _ s h))
          λ rows s1 (eq, h1).
            Ends-continue _ _ (Ends-mono _ (λ e t q. q.0) (λ _ t q. q) (query-IsOutside _ s1 h1))
              λ total s2 (n, h2). record {
                holds = (
                  h2,
                  n,
                  (
                    rw (eq, n)
                        (length-dead_columns found ∙ length-page platform laws is_dead key l o d),
                    rw eq (
                        All-dead_columns _ found
                          (All-mono _ is_dead_lem (page-All platform laws is_dead key l o d))),
                    rw eq (
                        dead_columns-IsDescending found
                          (page-IsDescending platform laws is_dead key l o d)),
                  ),
                  (found, eq, page-IsCut platform laws is_dead key l o d),
                );
              }
