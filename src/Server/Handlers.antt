-- ===== src/Server/Handlers.antt =====
-- The handlers of api-service/src/controllers/jobController.ts that only read.
use scalequeue.Common.{inl, inr, Bool-cases}
use scalequeue.Schema.{Db}
use scalequeue.Session.{Session, Result, ok, err, Error, query}
use scalequeue.Session.Rules.{Ends, Ends-mono, Ends-continue, IsOutside, query-IsOutside}
use scalequeue.JobService.{Platform}
use scalequeue.JobService.Listing.{get_job_by_id, list_jobs, list_dead_jobs, get_job_logs}
use scalequeue.Http.{Request, Response, Handler, respond}
use scalequeue.Controller.{
  bad_id, get_job_by_id_handler, get_job_logs_handler, list_jobs_handler, list_dead_jobs_handler,
}

-- A handler that leaves the database as it is, whatever fails.
abbrev pub IsReadOnly : (Request → Handler) → Type 0
IsReadOnly h = (req : Request) (d : Db) (s : Session) → IsOutside d s → IsOutside d (h req s).1

pub respond-IsOutside :
    {A : Type 0} {d : Db} (m : Result A × Session) (f : A → Response) (g : Error → Response)
    → Ends (λ _ t. IsOutside d t) (λ _ t. IsOutside d t) m
    → IsOutside d (respond m f g).1
unfolding respond
respond-IsOutside (ok a, t) f g h = h.holds
respond-IsOutside (err e, t) f g h = h.holds

pub query_reads :
    {A : Type 0} (f : Db → A) {d : Db} (s : Session)
    → IsOutside d s
    → Ends (λ _ t. IsOutside d t) (λ _ t. IsOutside d t) (query f s)
query_reads f s h = Ends-mono _ (λ _ t q. q.0) (λ _ t q. q.1) (query-IsOutside f s h)

pub get_job_by_id_handler-IsReadOnly : IsReadOnly get_job_by_id_handler
unfolding get_job_by_id_handler get_job_by_id
get_job_by_id_handler-IsReadOnly req d s h = elim (Bool-cases (bad_id req.id)) [
  | inl bad ↦ rw bad h
  | inr fine ↦ rw fine (respond-IsOutside _ _ _ (query_reads _ s h))
]

module _ (platform : Platform) where
  pub get_job_logs_handler-IsReadOnly : IsReadOnly (get_job_logs_handler platform)
  unfolding get_job_logs_handler get_job_logs
  get_job_logs_handler-IsReadOnly req d s h = elim (Bool-cases (bad_id req.id)) [
    | inl bad ↦ rw bad h
    | inr fine ↦ rw fine (respond-IsOutside _ _ _ (query_reads _ s h))
  ]

  pub list_jobs_handler-IsReadOnly : IsReadOnly (list_jobs_handler platform)
  unfolding list_jobs_handler list_jobs
  list_jobs_handler-IsReadOnly req d s h = respond-IsOutside _ _ _ (
      Ends-continue _ _ (query_reads _ s h)
        λ rows s1 h1. Ends-continue _ _ (query_reads _ s1 h1) λ total s2 h2. record { holds = h2 })

  pub list_dead_jobs_handler-IsReadOnly : IsReadOnly (list_dead_jobs_handler platform)
  unfolding list_dead_jobs_handler list_dead_jobs
  list_dead_jobs_handler-IsReadOnly req d s h = respond-IsOutside _ _ _ (
      Ends-continue _ _ (query_reads _ s h)
        λ rows s1 h1. Ends-continue _ _ (query_reads _ s1 h1) λ total s2 h2. record { holds = h2 })
