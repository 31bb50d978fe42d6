-- ===== src/Server.antt =====
-- The HTTP application, api-service/src/server.ts, its routes, api-service/src/routes/jobs.ts, and the
-- ping of api-service/src/services/queueService.ts. Express is a parameter: how it matches a path
-- with a pattern and strips a prefix. So is the middleware of helmet, cors and express.json, which
-- answers a request itself or passes it on with its body parsed.
pub mod Routing
pub mod Handlers
pub mod Reading
pub mod Shutdown
pub mod Startup
use scalequeue.Common.{
  ℕ, ◌≤◌, ◌≡◌, ◌⊎◌, inl, inr, String, Bool, true, false, ◌&&◌, Option, none, some, List, [], ◌∷◌,
  if◌then◌else◌, str_eq, ⊤,
}
use scalequeue.Session.{Session, Result, ok, err, query}
use scalequeue.JobService.{Platform}
use scalequeue.Http.{Request, Response, Body, unrouted, health, Handler, reply}
use scalequeue.Validator.{Validator}
use scalequeue.Auth.{api_key_auth}
use scalequeue.Controller.{
  create_job_handler, get_job_by_id_handler, requeue_job_handler, get_job_logs_handler,
  list_jobs_handler, list_dead_jobs_handler,
}

-- `get` is GET, or HEAD, which Express routes as GET.
pub data Verb : Type 0 where
  get post other : Verb

-- A segment of a pattern: a literal, or a parameter such as `:id`.
pub data Piece : Type 0 where
  literal : String → Piece
  parameter : Piece

-- A path is the list of its segments. `matches pattern path` is the value of the pattern's parameter,
-- or the empty text where it has none; `rest prefix path` is what `app.use` with the prefix leaves of
-- the path.
pub record Express : Type 0 where
  pub matches : List Piece → List String → Option String
  pub rest : List String → List String → Option (List String)

-- What `helmet()`, `cors()` and `express.json()` make of a request that comes in: an answer of their
-- own, or the request that they pass on. They leave the header with the key as it is, and answer
-- themselves a preflight, which is neither GET nor POST, or refuse a body with a status of 400 or
-- more.
pub record Middleware : Type 1 where
  pub Incoming : Type 0
  pub key_of : Incoming → Option String
  pub pass : Verb → List String → Incoming → Response ⊎ Request
  pub key_kept :
      (verb : Verb) (path : List String) (x : Incoming) (req : Request)
      → pass verb path x ≡ inr req
      → req.api_key ≡ key_of x
  pub own_answer :
      (verb : Verb) (path : List String) (x : Incoming) (r : Response)
      → pass verb path x ≡ inl r
      → (verb ≡ Verb.other) ⊎ (400 ≤ r.status)

pub record Route : Type 0 where
  pub verb : Verb
  pub pattern : List Piece
  pub handler : Request → Handler

abbrev pub same_verb : Verb → Verb → Bool
same_verb Verb.get Verb.get = true
same_verb Verb.post Verb.post = true
same_verb Verb.other v = false
same_verb Verb.get Verb.post = false
same_verb Verb.get Verb.other = false
same_verb Verb.post Verb.get = false
same_verb Verb.post Verb.other = false

-- `req.params.id`
abbrev pub with_id : String → Request → Request
with_id id req = record req { id = id }

-- The last handler of the application.
abbrev pub not_found : Handler
not_found s = (reply 404 unrouted, s)

-- `res === 'PONG'`, or false where the ping is rejected
abbrev pub ping : Option String → Bool
ping none = false
ping (some res) = str_eq res "PONG"

abbrev pub up_or_down : Bool → String
up_or_down true = "up"
up_or_down false = "down"

abbrev pub succeeds : {A : Type 0} → Result A × Session → Bool × Session
succeeds (ok a, s) = (true, s)
succeeds (err e, s) = (false, s)

health_reply : Bool → Bool → Response
health_reply db_ok redis_ok =
    if db_ok && redis_ok
    then reply 200 (health "ok" (up_or_down db_ok) (up_or_down redis_ok))
    else reply 503 (health "degraded" (up_or_down db_ok) (up_or_down redis_ok))

-- GET /health, with the answer of Redis to a ping.
unfoldable pub health_handler : Option String → Handler
unfolding health_reply
health_handler answer s =
    let (db_ok, t) = succeeds (query (λ d. tt) s) in (health_reply db_ok (ping answer), t)

-- The calls of `router`, in their order; `id` is the value of `randomUUID`.
abbrev pub job_routes : Platform → Validator → String → List Route
job_routes platform validator id =
    record { verb = Verb.post; pattern = []; handler = create_job_handler platform validator id }
    ∷ record {
      verb = Verb.get;
      pattern = literal "dead" ∷ [];
      handler = list_dead_jobs_handler platform;
    }
    ∷ record {
      verb = Verb.post;
      pattern = parameter ∷ literal "requeue" ∷ [];
      handler = requeue_job_handler;
    }
    ∷ record {
      verb = Verb.get;
      pattern = parameter ∷ literal "logs" ∷ [];
      handler = get_job_logs_handler platform;
    }
    ∷ record { verb = Verb.get; pattern = parameter ∷ []; handler = get_job_by_id_handler }
    ∷ record { verb = Verb.get; pattern = []; handler = list_jobs_handler platform }
    ∷ []

-- What a route answers to a path that it has matched, or has not.
abbrev pub answer : Route → Verb → Option String → Option (Request → Handler)
answer route verb none = none
answer route verb (some value) =
    if same_verb route.verb verb then some (λ req. route.handler (with_id value req)) else none

abbrev pub or_else : Option (Request → Handler) → (Request → Handler) → Request → Handler
or_else none next = next
or_else (some handler) next = handler

module _ (express : Express) where
  open express use {matches}

  -- The first route that answers, or the application's last handler.
  unfoldable pub run_routes : List Route → Verb → List String → Request → Handler
  run_routes [] verb path = λ req. not_found
  run_routes (r ∷ rs) verb path =
      or_else (answer r verb (matches r.pattern path)) (run_routes rs verb path)

is_health : Verb → Option String → Bool
is_health verb none = false
is_health verb (some value) = same_verb Verb.get verb

module _ (express : Express) (platform : Platform) (validator : Validator) (id : String) where
  open express use {matches, rest}

  -- `app.use('/api/v1/jobs', apiKeyAuth, jobRoutes)` and what follows it.
  serve_jobs : Option (List String) → Verb → Request → Handler
  unfolding run_routes
  serve_jobs none verb req = not_found
  serve_jobs (some path) verb req =
      api_key_auth platform (λ r. run_routes express (job_routes platform validator id) verb path r)
        req

  -- A request that the middleware has passed on; `pong` is the answer of Redis to a ping.
  unfoldable pub serve : Option String → Verb → List String → Request → Handler
  unfolding serve_jobs is_health
  serve pong verb path req =
      if is_health verb (matches (literal "health" ∷ []) path)
      then health_handler pong
      else serve_jobs (rest ("api" ∷ "v1" ∷ "jobs" ∷ []) path) verb req

  -- `app`: the middleware, and what follows it.
  module _ (middleware : Middleware) where
    open middleware use {Incoming, pass}

    answer_or_serve : Option String → Verb → List String → Response ⊎ Request → Handler
    answer_or_serve pong verb path (inl r) s = (r, s)
    answer_or_serve pong verb path (inr req) s = serve pong verb path req s

    unfoldable pub application : Option String → Verb → List String → Incoming → Handler
    unfolding answer_or_serve
    application pong verb path x s = answer_or_serve pong verb path (pass verb path x) s
