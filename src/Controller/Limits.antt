-- ===== src/Controller/Limits.antt =====
-- The page sizes of the listings of api-service/src/controllers/jobController.ts.
use scalequeue.Common.{List, ℕ, ◌-◌, ◌≤◌, ◌≡◌, refl, String, none, length, min, arith, All}
use scalequeue.Schema.{Job, JobStatus, Db}
use scalequeue.Session.{Session, Result, ok, err}
use scalequeue.Session.Rules.{Ends-mono, Ends, IsOutside}
use scalequeue.JobService.{Platform}
use scalequeue.JobService.Listing.{DeadJob, Listing}
use scalequeue.JobService.Listing.Pages.{OrdersRows}
use scalequeue.JobService.Listing.Results.{Meets, IsPage, list_jobs_lem, list_dead_jobs_lem}
use scalequeue.Http.{
  Request, Response, Body, reply, internal, respond, Number, nan, plus, minus, clamp,
}
use scalequeue.Controller.{limit_of, list_jobs_handler, list_dead_jobs_handler}

clamp_bounds : (n : Number) → (1 ≤ clamp 100 n) × (clamp 100 n ≤ 100)
clamp_bounds nan = omega arith
clamp_bounds (plus n) = omega arith
clamp_bounds (minus n) = omega arith

limit_of_bounds : (s : String) → (1 ≤ limit_of s) × (limit_of s ≤ 100)
unfolding limit_of
limit_of_bounds s = clamp_bounds _

-- A listing of `rows` under a limit in 1..100: it has as many rows as the limit and the total leave,
-- which are all of the kind `P`.
abbrev pub IsBounded : {A : Type 0} → (A → Type 0) → List A → ℕ → ℕ → ℕ → Type 0
IsBounded P rows total limit offset =
    (1 ≤ limit) × (limit ≤ 100) × (length rows ≡ min limit (total - offset)) × All P rows

-- The response has such a listing and the status 200, or the status 500.
abbrev pub IsListing : (Job → Type 0) → Response → Type 0
IsListing P r = elim r.body [
  | Body.jobs rows total limit offset ↦ (r.status ≡ 200) × IsBounded P rows total limit offset
  | _ ↦ r.status ≡ 500
]

abbrev pub IsDeadListing : (DeadJob → Type 0) → Response → Type 0
IsDeadListing P r = elim r.body [
  | Body.dead_jobs rows total limit offset ↦ (r.status ≡ 200) × IsBounded P rows total limit offset
  | _ ↦ r.status ≡ 500
]

module _ (d : Db) (limit offset n : ℕ) (bounds : (1 ≤ limit) × (limit ≤ 100)) where
  respond_page :
      (P : Job → Type 0) (key : Job → ℕ) (m : Result (Listing Job) × Session)
      → Ends
          (λ _ t. IsOutside d t)
          (λ r t. IsOutside d t × (r.total ≡ n) × IsPage P key limit offset r)
          m
      → let (r, t) =
          respond m (λ r. reply 200 (Body.jobs r.jobs r.total limit offset)) (λ _. internal) in
        IsListing P r × IsOutside d t
  unfolding respond
  respond_page P key (ok r, t) h =
      let (out, _, (len, all, _)) = h.holds in ((refl, (bounds.0, bounds.1, len, all)), out)
  respond_page P key (err e, t) h = (refl, h.holds)

  respond_dead_page :
      (P : DeadJob → Type 0) (key : DeadJob → ℕ) (m : Result (Listing DeadJob) × Session)
      → Ends
          (λ _ t. IsOutside d t)
          (λ r t. IsOutside d t × (r.total ≡ n) × IsPage P key limit offset r)
          m
      → let (r, t) =
          respond m (λ r. reply 200 (Body.dead_jobs r.jobs r.total limit offset)) (λ _. internal) in
        IsDeadListing P r × IsOutside d t
  unfolding respond
  respond_dead_page P key (ok r, t) h =
      let (out, _, (len, all, _)) = h.holds in ((refl, (bounds.0, bounds.1, len, all)), out)
  respond_dead_page P key (err e, t) h = (refl, h.holds)

module _ (platform : Platform) (laws : OrdersRows platform) where
  -- Whatever limit and offset a request names and whatever fails, GET / answers with at most 100
  -- rows and changes nothing: the limit is in 1..100, the number of rows is the limit or what the
  -- total leaves beyond the offset, and each row meets the filters that are given; or the status is
  -- 500.
  pub list_jobs_handler_bounded :
      (req : Request) (d : Db) (s : Session)
      → IsOutside d s
      → let (r, t) = list_jobs_handler platform req s in
        IsListing
          (Meets platform
            (record { status = req.status; type = req.type; limit = none; offset = none }))
          r
        × IsOutside d t
  unfolding list_jobs_handler
  list_jobs_handler_bounded req d s h =
      respond_page d _ _ _ (limit_of_bounds _) _ (λ j. j.created_at) _
        (Ends-mono _ (λ _ _ q. q) (λ _ _ q. (q.0, q.1, q.2)) (list_jobs_lem platform laws _ d s h))

  -- The same of GET /dead: at most 100 rows, each of a DEAD job, and nothing changes.
  pub list_dead_jobs_handler_bounded :
      (req : Request) (d : Db) (s : Session)
      → IsOutside d s
      → let (r, t) = list_dead_jobs_handler platform req s in
        IsDeadListing (λ j. j.status ≡ JobStatus.dead) r × IsOutside d t
  unfolding list_dead_jobs_handler
  list_dead_jobs_handler_bounded req d s h =
      respond_dead_page d _ _ _ (limit_of_bounds _) _ (λ j. j.updated_at) _
        (Ends-mono _ (λ _ _ q. q) (λ _ _ q. (q.0, q.1, q.2))
          (list_dead_jobs_lem platform laws _ _ d s h))
