-- ===== src/Tests/Api.antt =====
-- The API's theorems at concrete inputs.
use scalequeue.Common.{true, List, map, ◌≡◌, refl, ◌∷◌, [], none, some, count, arith}
use scalequeue.Json.{null, obj}
use scalequeue.Schema.{Db, Job, JobStatus}
use scalequeue.Schema.Tables.{find_job}
use scalequeue.Identity.{canonical, decimal}
use scalequeue.Identity.Reading.{has_numerals}
use scalequeue.Identity.Normal.Faithful.{canonical_faithful}
use scalequeue.JobService.{conflict}
use scalequeue.JobService.Create.SameRequest.{IsSameBody, create_job_same_request}
use scalequeue.Common.{◌↔◌}
use scalequeue.Identity.Order.{HaveDistinctKeys}
use scalequeue.Identity.Reordering.{
  SameJson, unchanged, in_object, no_fields, entry, swap, canonical-SameJson,
}
use scalequeue.Session.Rules.{Ends, IsOutside}
use scalequeue.JobService.Create.{input_json, key_hash, request_hash, new_job, create_job}
use scalequeue.JobService.Create.Acceptance.{Outcome, IsAccepted, create_job_atomic}
use scalequeue.JobService.Create.Idempotency.{create_job_accepts}
use scalequeue.JobService.Create.Retry.{IsOnlyJob, create_job_retry}
use scalequeue.JobService.Requeue.{requeue_job}
use scalequeue.JobService.Requeue.Replay.{IsFailed, IsDone, requeue_job_atomic}
use scalequeue.JobService.Listing.Pages.{IsCut}
use scalequeue.JobService.Listing.{
  dead_columns, Filters, where_clause, list_jobs, is_dead, list_dead_jobs,
}
use scalequeue.JobService.Listing.Results.{Meets, IsPage, list_jobs_lem, list_dead_jobs_lem}
use scalequeue.Auth.{api_key_auth}
use scalequeue.Auth.Gate.{GateOutcome, api_key_auth_lem}
use scalequeue.Controller.{scoped_key, create_job_handler, requeue_job_handler, list_jobs_handler}
use scalequeue.Controller.Statuses.{
  ReplayResponse, CreateResponse, requeue_job_handler_lem, create_job_handler_lem,
}
use scalequeue.Controller.Limits.{IsListing, list_jobs_handler_bounded}
use scalequeue.Tests.Data.{
  session_runs, demo, demo-OrdersRows, demo_validator, input, mail, letter, to_then_cc, cc_then_to,
  asking, long_id, long_jobs, empty_db, two_jobs, quiet, lossy,
}

abbrev dead_only : Filters
dead_only = record { status = some "DEAD"; type = none; limit = none; offset = none }

create_job_atomic_example :
    Outcome "id" input
      (key_hash demo (some "c:k"))
      (request_hash demo input (some "c:k"))
      empty_db
      (create_job demo "id" input (some "c:k") (lossy empty_db))
create_job_atomic_example = create_job_atomic demo "id" input (some "c:k") (lossy empty_db)

requeue_job_atomic_example :
    Ends (IsFailed "a" two_jobs) (IsDone "a" two_jobs) (requeue_job "a" (lossy two_jobs))
requeue_job_atomic_example = requeue_job_atomic "a" (lossy two_jobs)

create_job_accepts_example :
    Ends
      (λ _ _. ⊥)
      (λ j t.
        IsAccepted "c" input none none two_jobs t.committed × (find_job "c" t.committed ≡ some j))
      (create_job demo "c" input none (quiet two_jobs))
create_job_accepts_example =
    create_job_accepts demo "c" input none (quiet two_jobs) (refl, refl) refl refl

-- The database after a first request with the key `c:k`.
abbrev after_first : Db
after_first = (create_job demo "a" (letter to_then_cc) (some "c:k") (lossy empty_db)).1.committed

to-ne-cc : HaveDistinctKeys "to" "cc"
to-ne-cc h = ground arith

same_letter : SameJson (input_json (letter to_then_cc)) (input_json (letter cc_then_to))
same_letter = in_object (
    entry "type" (unchanged _) (
      entry "payload" (in_object (swap "to" "cc" to-ne-cc no_fields))
        (entry "max_retries" (unchanged _) (entry "priority" (unchanged _) no_fields))))

canonical_faithful_example :
    (canonical (input_json (letter to_then_cc)) ≡ canonical (input_json (letter cc_then_to)))
    ↔ SameJson (input_json (letter to_then_cc)) (input_json (letter cc_then_to))
unfolding has_numerals decimal
canonical_faithful_example =
    canonical_faithful (input_json (letter to_then_cc)) (input_json (letter cc_then_to)) refl refl

abbrev first_job : Job
first_job =
    new_job "a" (letter to_then_cc) (key_hash demo (some "c:k"))
      (request_hash demo (letter to_then_cc) (some "c:k")) 1

create_job_same_request_example :
    Ends
      (λ e t.
        (e ≡ conflict)
        × (¬ IsSameBody (letter to_then_cc) (letter cc_then_to))
        × (t.committed ≡ record empty_db { jobs = first_job ∷ [] }))
      (λ j t.
        (j ≡ first_job)
        × IsSameBody (letter to_then_cc) (letter cc_then_to)
        × (t.committed ≡ record empty_db { jobs = first_job ∷ [] }))
      (create_job demo "b"
        (letter cc_then_to)
        (some "c:k")
        (quiet (record empty_db { jobs = first_job ∷ [] })))
unfolding has_numerals
create_job_same_request_example =
    create_job_same_request demo (letter to_then_cc) (letter cc_then_to) (some "c:k") "b" "c:k"
      (quiet (record empty_db { jobs = first_job ∷ [] })) first_job refl refl refl
      (λ _. canonical-SameJson same_letter) refl refl refl

create_job_retry_example :
    Ends
      (λ _ _. ⊥)
      (λ j u. IsOnlyJob (key_hash demo (some "c:k")) u.committed j)
      (create_job demo "b" (letter cc_then_to) (some "c:k") (quiet after_first))
unfolding create_job session_runs
create_job_retry_example =
    create_job_retry demo "a" "b" (letter to_then_cc) (letter cc_then_to) (some "c:k")
      (lossy empty_db) (quiet after_first) refl refl same_letter refl (refl, refl) refl

list_jobs_lem_example :
    Ends
      (λ _ t. IsOutside two_jobs t)
      (λ r t.
        IsOutside two_jobs t
        × (r.total ≡ count (where_clause demo dead_only) two_jobs.jobs)
        × IsPage (Meets demo dead_only) (λ j. j.created_at) 20 0 r
        × IsCut (where_clause demo dead_only) (λ j. j.created_at) 0 two_jobs.jobs r.jobs
        × ((j : Job) → (where_clause demo dead_only j ≡ true) ↔ Meets demo dead_only j))
      (list_jobs demo dead_only (quiet two_jobs))
list_jobs_lem_example =
    list_jobs_lem demo demo-OrdersRows dead_only two_jobs (quiet two_jobs) (refl, refl)

list_dead_jobs_lem_example :
    Ends
      (λ _ t. IsOutside two_jobs t)
      (λ r t.
        IsOutside two_jobs t
        × (r.total ≡ count is_dead two_jobs.jobs)
        × IsPage (λ j. j.status ≡ JobStatus.dead) (λ j. j.updated_at) 1 0 r
        × ((rows : List Job) × (r.jobs ≡ map dead_columns rows)
            × IsCut is_dead (λ j. j.updated_at) 0 two_jobs.jobs rows))
      (list_dead_jobs demo (some 1) none (quiet two_jobs))
list_dead_jobs_lem_example =
    list_dead_jobs_lem demo demo-OrdersRows (some 1) none two_jobs (quiet two_jobs) (refl, refl)

api_key_auth_lem_example :
    GateOutcome demo
      (list_jobs_handler demo)
      (asking null long_id)
      long_jobs
      (api_key_auth demo (list_jobs_handler demo) (asking null long_id) (quiet long_jobs))
api_key_auth_lem_example =
    api_key_auth_lem demo (list_jobs_handler demo) (asking null long_id) long_jobs (quiet long_jobs)
      (refl, refl)

requeue_job_handler_lem_example :
    ReplayResponse long_id long_jobs (requeue_job_handler (asking null long_id) (quiet long_jobs))
requeue_job_handler_lem_example = requeue_job_handler_lem (asking null long_id) (quiet long_jobs)

create_job_handler_lem_example :
    CreateResponse demo "id" input
      (scoped_key (some "c") (some "k"))
      long_jobs
      (create_job_handler demo demo_validator "id" (asking (obj mail) long_id) (lossy long_jobs))
create_job_handler_lem_example =
    create_job_handler_lem demo demo_validator "id" (asking (obj mail) long_id) input
      (lossy long_jobs) refl

list_jobs_handler_bounded_example :
    let (r, t) = list_jobs_handler demo (asking null long_id) (quiet long_jobs) in
    IsListing
      (Meets demo (record { status = some "DEAD"; type = none; limit = none; offset = none }))
      r
    × IsOutside long_jobs t
list_jobs_handler_bounded_example =
    list_jobs_handler_bounded demo demo-OrdersRows (asking null long_id) long_jobs (quiet long_jobs)
      (refl, refl)
