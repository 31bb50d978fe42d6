-- ===== src/Tests/Server.antt =====
-- The application's theorems at concrete inputs.
use scalequeue.Common.{
  ◌⊎◌, inl, inr, false, if◌then◌else◌, ℕ, ◌≡◌, refl, ◌≤◌, String, true, Option, none, some, List,
  [], ◌∷◌, ap, arith, eq_iff, eq_refl, str_eq,
}
use scalequeue.Json.{null}
use scalequeue.Schema.{Client}
use scalequeue.Session.Rules.{IsOutside}
use scalequeue.JobService.{truthy}
use scalequeue.Http.{length_of, Request, Response, reply, unrouted}
use scalequeue.Auth.{find_client}
use scalequeue.Controller.{
  create_job_handler, get_job_by_id_handler, requeue_job_handler, get_job_logs_handler,
  list_jobs_handler, list_dead_jobs_handler,
}
use scalequeue.Server.{Verb, Express, Middleware, with_id, application}
use scalequeue.Server.Routing.{match_pieces, MatchesPaths, reaches, routes_lem}
use scalequeue.Server.Reading.{IsAnsweredBefore, IsTurnedAway, get_changes_nothing, jobs_need_key}
use scalequeue.Server.Shutdown.{
  signal, drained, ended, expired, running, run, shutdown_once, clean_shutdown,
}
use scalequeue.Tests.Data.{demo, demo_validator, asking, long_id, long_jobs, empty_db, quiet, lossy}

abbrev pub strip : List String → List String → Option (List String)
strip [] path = some path
strip (p ∷ ps) [] = none
strip (p ∷ ps) (s ∷ ss) = if str_eq p s then strip ps ss else none

-- Express with letters compared exactly.
abbrev pub exact : Express
exact = record { matches = match_pieces str_eq; rest = strip }

pub exact-MatchesPaths : MatchesPaths exact
exact-MatchesPaths = record {
  same_letters = str_eq;
  same_itself = eq_refl;
  same_length = λ w s h. ap length_of ((eq_iff w s).0 h);
  by_segments = λ ps ss named. refl;
}

abbrev job_path : List String
job_path = "api" ∷ "v1" ∷ "jobs" ∷ long_id ∷ []

-- A preflight is answered, and every other request passes.
preflight : Verb → Request → Response ⊎ Request
preflight Verb.other req = inl (reply 204 unrouted)
preflight Verb.get req = inr req
preflight Verb.post req = inr req

preflight-kept :
    (verb : Verb) (path : List String) (x req : Request)
    → preflight verb x ≡ inr req
    → req.api_key ≡ x.api_key
unfolding preflight
preflight-kept Verb.other path x req h = cc
preflight-kept Verb.get path x req h = ground arith
preflight-kept Verb.post path x req h = ground arith

preflight_own :
    (verb : Verb) (path : List String) (x : Request) (r : Response)
    → preflight verb x ≡ inl r
    → (verb ≡ Verb.other) ⊎ (400 ≤ r.status)
unfolding preflight
preflight_own Verb.other path x r h = inl refl
preflight_own Verb.get path x r h = cc
preflight_own Verb.post path x r h = cc

abbrev plain : Middleware
plain = record {
  Incoming = Request;
  key_of = λ x. x.api_key;
  pass = λ verb path x. preflight verb x;
  key_kept = preflight-kept;
  own_answer = preflight_own;
}

get_changes_nothing_example :
    IsOutside long_jobs
      (application exact demo demo_validator "id" plain none Verb.get job_path
        (asking null long_id)
        (lossy long_jobs)).1
get_changes_nothing_example =
    get_changes_nothing exact demo demo_validator "id" plain none job_path (asking null long_id)
      long_jobs (lossy long_jobs) (refl, refl)

-- There are no clients.
no_clients :
    (key : String) (c : Client)
    → truthy (some "secret") ≡ some key
    → find_client demo key empty_db ≡ some c
    → c.is_active ≡ false
no_clients key c h found = cc

jobs_need_key_example :
    let path : List String = "api" ∷ "v1" ∷ "jobs" ∷ [] in
    let x = asking null long_id in
    let r =
      application exact demo demo_validator "id" plain none Verb.post path x (quiet empty_db) in
    IsAnsweredBefore exact demo demo_validator "id" plain Verb.post path x empty_db r
    ⊎ IsTurnedAway empty_db r
jobs_need_key_example =
    jobs_need_key exact demo demo_validator "id" plain Verb.post none ("api" ∷ "v1" ∷ "jobs" ∷ [])
      [] (asking null long_id) empty_db (quiet empty_db) refl refl no_clients (refl, refl)

routes_lem_example :
    let req = asking null "" in
    let at = reaches exact exact-MatchesPaths demo demo_validator "uuid" in
    (at Verb.post [] req ≡ create_job_handler demo demo_validator "uuid" (with_id "" req))
    × (at Verb.get [] req ≡ list_jobs_handler demo (with_id "" req))
    × (at Verb.get ("dead" ∷ []) req ≡ list_dead_jobs_handler demo (with_id "" req))
    × (at Verb.get (long_id ∷ []) req ≡ get_job_by_id_handler (with_id long_id req))
    × (at Verb.post (long_id ∷ "requeue" ∷ []) req ≡ requeue_job_handler (with_id long_id req))
    × (at Verb.get (long_id ∷ "logs" ∷ []) req ≡ get_job_logs_handler demo (with_id long_id req))
routes_lem_example =
    routes_lem exact exact-MatchesPaths demo demo_validator "uuid" long_id (asking null "")
      (λ e. cc) (λ e. omega arith)

shutdown_once_example :
    let p = run running (signal ∷ signal ∷ expired ∷ []) in
    (p.closes ≤ 1)
    × (p.timers ≡ p.closes)
    × ((code : ℕ) → p.exit ≡ some code → (code ≡ 1) × (p.stopping ≡ true))
shutdown_once_example = shutdown_once (signal ∷ signal ∷ expired ∷ [])

clean_shutdown_example :
    (run running
      (drained ∷ signal ∷ signal ∷ drained ∷ signal ∷ ended ∷ signal ∷ expired ∷ [])).exit
    ≡ none
clean_shutdown_example =
    clean_shutdown (drained ∷ []) (signal ∷ []) (signal ∷ []) (signal ∷ expired ∷ [])
      (((λ e. cc), (λ e. cc)), tt) (((λ e. cc), (λ e. cc)), tt) (((λ e. cc), (λ e. cc)), tt)
      ((λ e. cc), ((λ e. cc), tt))
