-- ===== src/Server/Reading.antt =====
-- What a request to the application of api-service/src/server.ts may do to the database.
use scalequeue.Common.{
  ◌≤◌, refl, ◌≡◌, ◌⊎◌, inl, inr, String, Bool, true, false, Option, none, some, List, [], ◌∷◌, All,
  Bool-cases,
}
use scalequeue.Schema.{Db, Client}
use scalequeue.Session.{Session, Result, ok, err}
use scalequeue.Session.Rules.{Ends, IsOutside}
use scalequeue.JobService.{Platform, truthy}
use scalequeue.Http.{Request, Response, Handler}
use scalequeue.Validator.{Validator}
use scalequeue.Auth.{attach, find_client, api_key_auth}
use scalequeue.Auth.Gate.{KeyOutcome, GateOutcome, api_key_auth_lem}
use scalequeue.Server.{
  literal, Verb, Express, Route, same_verb, with_id, succeeds, health_handler, job_routes, answer,
  or_else, run_routes, is_health, serve_jobs, serve, Middleware, answer_or_serve, application,
}
use scalequeue.Server.Handlers.{
  IsReadOnly, query_reads, get_job_by_id_handler-IsReadOnly, get_job_logs_handler-IsReadOnly,
  list_jobs_handler-IsReadOnly, list_dead_jobs_handler-IsReadOnly,
}

-- Each route that answers GET only reads.
abbrev ReadsOnGet : Route → Type 0
ReadsOnGet r = same_verb r.verb Verb.get ≡ true → IsReadOnly r.handler

or_else-IsReadOnly :
    (r : Route) (found : Option String) (next : Request → Handler)
    → ReadsOnGet r
    → IsReadOnly next
    → IsReadOnly (or_else (answer r Verb.get found) next)
or_else-IsReadOnly r none next reads h = h
or_else-IsReadOnly r (some v) next reads h = elim (Bool-cases (same_verb r.verb Verb.get)) [
  | inl e ↦ rw e (λ req d s out. reads e (with_id v req) d s out)
  | inr e ↦ rw e h
]

module _ (express : Express) where
  run_routes-IsReadOnly :
      (rs : List Route) (path : List String)
      → All ReadsOnGet rs
      → IsReadOnly (run_routes express rs Verb.get path)
  unfolding run_routes
  run_routes-IsReadOnly [] path h = λ req d s out. out
  run_routes-IsReadOnly (r ∷ rs) path (reads, h) =
      or_else-IsReadOnly r (express.matches r.pattern path) (run_routes express rs Verb.get path)
        reads (run_routes-IsReadOnly rs path h)

module _ (platform : Platform) (validator : Validator) (id : String) where
  job_routes-ReadsOnGet : All ReadsOnGet (job_routes platform validator id)
  job_routes-ReadsOnGet = (
    (λ e. cc),
    (
      (λ _. list_dead_jobs_handler-IsReadOnly platform),
      (
        (λ e. cc),
        (
          (λ _. get_job_logs_handler-IsReadOnly platform),
          (
            (λ _. get_job_by_id_handler-IsReadOnly),
            ((λ _. list_jobs_handler-IsReadOnly platform), tt),
          ),
        ),
      ),
    ),
  )

-- What the middleware lets through only reads.
behind_gate :
    (platform : Platform) (next : Request → Handler) (req : Request) (d : Db)
    (r : Response × Session)
    → IsReadOnly next
    → GateOutcome platform next req d r
    → IsOutside d r.1
behind_gate platform next req d r reads (inl (_, (_, out))) = out
behind_gate platform next req d r reads (inr (key, _, KeyOutcome.unavailable (_, out))) = out
behind_gate platform next req d r reads (inr (key, _, KeyOutcome.unknown _ (_, out))) = out
behind_gate platform next req d r reads (inr (key, _, KeyOutcome.disabled c _ _ (_, out))) = out
behind_gate platform next req d r reads (inr (key, _, KeyOutcome.passed c t _ _ out e)) =
    rw e (reads (attach c req) d t out)

health_handler-IsOutside :
    (pong : Option String) (d : Db) (s : Session)
    → IsOutside d s
    → IsOutside d (health_handler pong s).1
unfolding health_handler
health_handler-IsOutside pong d s out = succeeds-IsOutside _ (query_reads _ s out)
  where
    succeeds-IsOutside :
        {A : Type 0} {d : Db} (m : Result A × Session)
        → Ends (λ _ t. IsOutside d t) (λ _ t. IsOutside d t) m
        → IsOutside d (succeeds m).1
    succeeds-IsOutside (ok a, t) h = h.holds
    succeeds-IsOutside (err e, t) h = h.holds

-- An answer without the handlers.
abbrev pub IsTurnedAway : Db → Response × Session → Type 0
IsTurnedAway d r =
    ((r.0.status ≡ 401) ⊎ ((r.0.status ≡ 403) ⊎ (r.0.status ≡ 500))) × IsOutside d r.1

not_admitted :
    (platform : Platform) (next : Request → Handler) (req : Request) (d : Db)
    (r : Response × Session)
    → ((key : String) (c : Client)
        → truthy req.api_key ≡ some key
        → find_client platform key d ≡ some c
        → c.is_active ≡ false)
    → GateOutcome platform next req d r
    → IsTurnedAway d r
not_admitted platform next req d r bad (inl (_, (e, out))) = (inl e, out)
not_admitted platform next req d r bad (inr (key, _, KeyOutcome.unavailable (e, out))) =
    (inr (inr e), out)
not_admitted platform next req d r bad (inr (key, _, KeyOutcome.unknown _ (e, out))) = (inl e, out)
not_admitted platform next req d r bad (inr (key, _, KeyOutcome.disabled c _ _ (e, out))) =
    (inr (inl e), out)
not_admitted platform next req d r bad (inr (key, k, KeyOutcome.passed c t found on out e)) =
    absurd (true-ne-false (on-off on (bad key c k found)))
  where
    on-off : {b : Bool} → b ≡ true → b ≡ false → true ≡ false
    on-off h k = cc

    true-ne-false : true ≡ false → ⊥
    true-ne-false h = cc

module _ (express : Express) (platform : Platform) (validator : Validator) (id : String) where
  serve_jobs-IsOutside :
      (path : Option (List String)) (req : Request) (d : Db) (s : Session)
      → IsOutside d s
      → IsOutside d (serve_jobs express platform validator id path Verb.get req s).1
  unfolding serve_jobs
  serve_jobs-IsOutside none req d s out = out
  serve_jobs-IsOutside (some path) req d s out =
      let next =
        λ (r : Request). run_routes express (job_routes platform validator id) Verb.get path r in
      behind_gate platform next req d _
        (run_routes-IsReadOnly express (job_routes platform validator id) path
          (job_routes-ReadsOnGet platform validator id))
        (api_key_auth_lem platform next req d s out)

  serve-get-IsOutside :
      (pong : Option String) (path : List String) (req : Request) (d : Db) (s : Session)
      → IsOutside d s
      → IsOutside d (serve express platform validator id pong Verb.get path req s).1
  unfolding serve
  serve-get-IsOutside pong path req d s out =
      elim (Bool-cases (is_health Verb.get (express.matches (literal "health" ∷ []) path))) [
        | inl e ↦ rw e (health_handler-IsOutside pong d s out)
        | inr e ↦
            rw e (serve_jobs-IsOutside (express.rest ("api" ∷ "v1" ∷ "jobs" ∷ []) path) req d s out)
      ]

  -- A path under /api/v1/jobs goes to the middleware and the routes.
  pub serve_below :
      (verb : Verb) (pong : Option String) (path below : List String) (req : Request) (s : Session)
      → express.matches (literal "health" ∷ []) path ≡ none
      → express.rest ("api" ∷ "v1" ∷ "jobs" ∷ []) path ≡ some below
      → serve express platform validator id pong verb path req s
        ≡ api_key_auth platform
            (λ r. run_routes express (job_routes platform validator id) verb below r)
            req
            s
  unfolding serve is_health serve_jobs
  serve_below verb pong path below req s away under = rw (away, under) refl

  serve-IsTurnedAway :
      (verb : Verb) (pong : Option String) (path below : List String) (req : Request) (d : Db)
      (s : Session)
      → express.matches (literal "health" ∷ []) path ≡ none
      → express.rest ("api" ∷ "v1" ∷ "jobs" ∷ []) path ≡ some below
      → ((key : String) (c : Client)
          → truthy req.api_key ≡ some key
          → find_client platform key d ≡ some c
          → c.is_active ≡ false)
      → IsOutside d s
      → IsTurnedAway d (serve express platform validator id pong verb path req s)
  serve-IsTurnedAway verb pong path below req d s away under bad out =
      let next =
        λ (r : Request). run_routes express (job_routes platform validator id) verb below r in
      rw (serve_below verb pong path below req s away under)
        (not_admitted platform next req d _ bad (api_key_auth_lem platform next req d s out))

  module _ (middleware : Middleware) where
    open middleware use {Incoming, key_of, pass, key_kept, own_answer}

    answer_or_serve-IsOutside :
        (pong : Option String) (path : List String) (p : Response ⊎ Request) (d : Db) (s : Session)
        → IsOutside d s
        → IsOutside d
            (answer_or_serve express platform validator id middleware pong Verb.get path p s).1
    unfolding answer_or_serve
    answer_or_serve-IsOutside pong path (inl r) d s out = out
    answer_or_serve-IsOutside pong path (inr req) d s out =
        serve-get-IsOutside pong path req d s out

    -- A GET request changes nothing: whatever its path, its headers and its parameters, whoever
    -- sends it, and whatever fails, the committed database is the one before.
    pub get_changes_nothing :
        (pong : Option String) (path : List String) (x : Incoming) (d : Db) (s : Session)
        → IsOutside d s
        → IsOutside d
            (application express platform validator id middleware pong Verb.get path x s).1
    unfolding application
    get_changes_nothing pong path x d s out =
        answer_or_serve-IsOutside pong path (pass Verb.get path x) d s out

    -- The middleware answered: a preflight, or a body that it refuses.
    abbrev pub IsAnsweredBefore : Verb → List String → Incoming → Db → Response × Session → Type 0
    IsAnsweredBefore verb path x d r =
        (pass verb path x ≡ inl r.0) × ((verb ≡ Verb.other) ⊎ (400 ≤ r.0.status)) × IsOutside d r.1

    turned_away :
        (verb : Verb) (pong : Option String) (path below : List String) (x : Incoming)
        (p : Response ⊎ Request) (d : Db) (s : Session)
        → pass verb path x ≡ p
        → express.matches (literal "health" ∷ []) path ≡ none
        → express.rest ("api" ∷ "v1" ∷ "jobs" ∷ []) path ≡ some below
        → ((key : String) (c : Client)
            → truthy (key_of x) ≡ some key
            → find_client platform key d ≡ some c
            → c.is_active ≡ false)
        → IsOutside d s
        → let r = answer_or_serve express platform validator id middleware pong verb path p s in
          IsAnsweredBefore verb path x d r ⊎ IsTurnedAway d r
    unfolding answer_or_serve
    turned_away verb pong path below x (inl r) d s e away under bad out =
        inl (e, own_answer verb path x r e, out)
    turned_away verb pong path below x (inr req) d s e away under bad out = inr (
        serve-IsTurnedAway verb pong path below req d s away under
          (λ key c k found. bad key c (rw (key_kept verb path x req e) at k) found) out)

    -- A request under /api/v1/jobs whose key is missing, unknown or of a disabled client is
    -- answered with 401, 403 or 500 and changes nothing, whatever its verb, its path, its body and
    -- the faults; or the middleware before the routes answers it, and nothing changes: it is
    -- neither GET nor POST, or the status is 400 or more.
    pub jobs_need_key :
        (verb : Verb) (pong : Option String) (path below : List String) (x : Incoming) (d : Db)
        (s : Session)
        → express.matches (literal "health" ∷ []) path ≡ none
        → express.rest ("api" ∷ "v1" ∷ "jobs" ∷ []) path ≡ some below
        → ((key : String) (c : Client)
            → truthy (key_of x) ≡ some key
            → find_client platform key d ≡ some c
            → c.is_active ≡ false)
        → IsOutside d s
        → let r = application express platform validator id middleware pong verb path x s in
          IsAnsweredBefore verb path x d r ⊎ IsTurnedAway d r
    unfolding application
    jobs_need_key verb pong path below x d s away under bad out =
        turned_away verb pong path below x (pass verb path x) d s refl away under bad out
