-- ===== src/Dashboard/Service.antt =====
-- A refresh of the page of dashboard/app.js by the application of api-service/src/server.ts.
use scalequeue.Common.{
  ◌↔◌, true, ap, ℕ, ◌≡◌, refl, ◌∙◌, ◌⊎◌, inl, inr, String, false, ◌&&◌, Option, none, some, List,
  [], ◌∷◌, All, length, min, count, leb, if◌then◌else◌, arith,
}
use scalequeue.Json.{null}
use scalequeue.Schema.{Client, Job, Db}
use scalequeue.Session.{Session, Result, ok, err}
use scalequeue.Session.Rules.{Ends, IsOutside}
use scalequeue.Identity.{Text}
use scalequeue.JobService.{Platform}
use scalequeue.JobService.Listing.{Filters, Listing, where_clause}
use scalequeue.JobService.Listing.Pages.{IsDescending, IsCut, OrdersRows}
use scalequeue.JobService.Listing.Results.{Meets, IsPage, list_jobs_lem}
use scalequeue.Http.{Handler, Request, Response, Body, reply, internal, respond, parse_int}
use scalequeue.Validator.{Validator}
use scalequeue.Auth.{attach}
use scalequeue.Auth.Gate.{KeyOutcome, GateOutcome, api_key_auth_lem}
use scalequeue.Controller.{limit_of, offset_of, list_jobs_handler}
use scalequeue.Server.{literal, Verb, Express, with_id, job_routes, run_routes, serve}
use scalequeue.Server.Routing.{if-same, MatchesPaths, routes_lem}
use scalequeue.Server.Reading.{serve_below}
use scalequeue.Dashboard.{
  Reading, unread, value, Refusal, Fetched, refused, accepted, Jobs, Stats, Call, View,
}
use scalequeue.Dashboard.Drawing.{render_table, update_stats}
use scalequeue.Dashboard.Calls.{fetch_jobs}
use scalequeue.Dashboard.Answers.{jobs_failed, jobs_came}

-- A call as the request that reaches the application.
abbrev pub request_of : Call → Request
request_of c = record {
  api_key = some c.api_key;
  idempotency_key = none;
  client_id = none;
  body = elim c.body [ none ↦ null | some b ↦ b ];
  id = "";
  status = c.status;
  type = none;
  limit = c.limit;
  offset = none;
}

abbrev pub refusal_of : Body → Refusal
refusal_of (Body.failure e) = record { error = some e; details = none }
refusal_of (Body.invalid is) = record { error = some "Validation failed"; details = some is }
refusal_of Body.unrouted = record { error = some "Route not found"; details = none }
refusal_of _ = record { error = none; details = none }

-- The value of a body as that of a listing; a body of another shape counts as unreadable.
abbrev pub listed : Body → Reading Jobs
listed (Body.jobs rows total limit offset) =
    value (record { data_rows = some rows; total = some total })
listed _ = unread []

-- An answer of the application as `fetch` gives it to the page, where `read` reads the body.
abbrev pub fetched_by : {A : Type 0} → (Body → Reading A) → Response → Fetched A
fetched_by read r =
    if leb 200 r.status && leb r.status 299
    then accepted (read r.body)
    else refused r.status (value (refusal_of r.body))

abbrev pub fetched_of : Response → Fetched Jobs
fetched_of r = fetched_by listed r

-- What the page asks for.
abbrev pub wanted : View → Filters
wanted v = record { status = (fetch_jobs v).status; type = none; limit = some 50; offset = some 0 }

-- The page keeps its jobs and shows an error.
abbrev pub IsKept : View → View → Type 0
IsKept v w =
    (w.banner_shown ≡ true)
    × (w.dot_failed ≡ true)
    × (w.all_jobs ≡ v.all_jobs)
    × (w.table ≡ v.table)
    × (w.stats ≡ v.stats)

abbrev pub ShowsTotal : ℕ → Option Stats → Type 0
ShowsTotal n none = ⊥
ShowsTotal n (some s) = s.total ≡ n

module _ (platform : Platform) where
  -- The page holds the newest jobs of the database that its filter wants, 50 at most.
  abbrev pub IsRefreshed : Db → View → View → Type 0
  IsRefreshed d v w =
      let n = count (where_clause platform (wanted v)) d.jobs in
      (w.banner_shown ≡ false)
      × (length w.all_jobs ≡ min 50 n)
      × All (Meets platform (wanted v)) w.all_jobs
      × IsDescending (λ j. j.created_at) w.all_jobs
      × ShowsTotal n w.stats
      × IsCut (where_clause platform (wanted v)) (λ j. j.created_at) 0 d.jobs w.all_jobs

  module _ (locale : ℕ → Text) (now : Text) (v : View) (d : Db) where
    abbrev Refreshes : Response × Session → Type 0
    Refreshes r =
        IsOutside d r.1
        × (IsKept v (jobs_came locale now (fetched_of r.0) v)
            ⊎ IsRefreshed d v (jobs_came locale now (fetched_of r.0) v))

    listing_Refreshes :
        (m : Result (Listing Job) × Session)
        → Ends
            (λ _ t. IsOutside d t)
            (λ r t.
              IsOutside d t
              × (r.total ≡ count (where_clause platform (wanted v)) d.jobs)
              × IsPage (Meets platform (wanted v)) (λ j. j.created_at) 50 0 r
              × IsCut (where_clause platform (wanted v)) (λ j. j.created_at) 0 d.jobs r.jobs
              × ((j : Job)
                  → (where_clause platform (wanted v) j ≡ true) ↔ Meets platform (wanted v) j))
            m
        → Refreshes (respond m (λ r. reply 200 (Body.jobs r.jobs r.total 50 0)) (λ _. internal))
    unfolding respond jobs_came jobs_failed render_table update_stats
    listing_Refreshes (err e, t) h = (h.holds, inl (refl, refl, refl, refl, refl))
    listing_Refreshes (ok r, t) h =
        let (out, total, (len, all, desc), cut, _) = h.holds in
        (out, inr (refl, rw (← total) (len ∙ ap (min 50) (omega arith)), all, desc, total, cut))

    refused_Refreshes :
        (code : ℕ) (r : Response × Session)
        → ((code ≡ 401) ⊎ ((code ≡ 403) ⊎ (code ≡ 500)))
        → (r.0.status ≡ code) × IsOutside d r.1
        → Refreshes r
    unfolding jobs_came jobs_failed
    refused_Refreshes code (r, t) bad (e, out) = (out, inl (rw (refused_code r e bad) kept))
      where
        refused_code :
            (r : Response)
            → (r.status ≡ code)
            → ((code ≡ 401) ⊎ ((code ≡ 403) ⊎ (code ≡ 500)))
            → fetched_of r ≡ refused r.status (value (refusal_of r.body))
        refused_code r e bad = ground arith

        kept : IsKept v (jobs_came locale now (refused r.status (value (refusal_of r.body))) v)
        kept = (refl, refl, refl, refl, refl)

    handler_Refreshes :
        (laws : OrdersRows platform) (req : Request) (s : Session)
        → req.status ≡ (fetch_jobs v).status
        → req.type ≡ none
        → req.limit ≡ some "50"
        → req.offset ≡ none
        → IsOutside d s
        → Refreshes (list_jobs_handler platform req s)
    unfolding list_jobs_handler limit_of offset_of parse_int
    handler_Refreshes laws req s h1 h2 h3 h4 out =
        rw (h1, h2, h3, h4) (listing_Refreshes _ (list_jobs_lem platform laws (wanted v) d s out))

    gate_Refreshes :
        (laws : OrdersRows platform) (next : Request → Handler) (req : Request)
        (r : Response × Session)
        → ((c : Client) (t : Session)
            → next (attach c req) t ≡ list_jobs_handler platform (with_id "" (attach c req)) t)
        → req.status ≡ (fetch_jobs v).status
        → req.type ≡ none
        → req.limit ≡ some "50"
        → req.offset ≡ none
        → GateOutcome platform next req d r
        → Refreshes r
    gate_Refreshes laws next req r h h1 h2 h3 h4 (inl (_, out)) =
        refused_Refreshes 401 r (inl refl) out
    gate_Refreshes laws next req r h h1 h2 h3 h4 (inr (key, _, KeyOutcome.unavailable out)) =
        refused_Refreshes 500 r (inr (inr refl)) out
    gate_Refreshes laws next req r h h1 h2 h3 h4 (inr (key, _, KeyOutcome.unknown _ out)) =
        refused_Refreshes 401 r (inl refl) out
    gate_Refreshes laws next req r h h1 h2 h3 h4 (inr (key, _, KeyOutcome.disabled c _ _ out)) =
        refused_Refreshes 403 r (inr (inl refl)) out
    gate_Refreshes laws next req r h h1 h2 h3 h4 (inr (key, _, KeyOutcome.passed c t _ _ out e)) =
        rw (e, h c t) (handler_Refreshes laws (with_id "" (attach c req)) t h1 h2 h3 h4 out)

abbrev jobs_path : List String
jobs_path = "api" ∷ "v1" ∷ "jobs" ∷ []

module _ (express : Express) (paths : MatchesPaths express) (platform : Platform)
    (laws : OrdersRows platform) (validator : Validator) (uuid : String) where
  open paths use {same_letters, by_segments}

  not_health : express.matches (literal "health" ∷ []) jobs_path ≡ none
  not_health =
      by_segments (literal "health" ∷ []) jobs_path ((λ e. cc), ((λ e. cc), ((λ e. cc), tt)))
      ∙ if-same (same_letters "health" "api") none

  -- The page and the application together: `fetchJobs`, answered by the application, changes
  -- nothing in the database, whatever fails. Either the page shows an error, marks the dot and
  -- keeps its jobs, its table and its statistics, or it holds the jobs of the database that its
  -- filter wants, the newest 50 or all if they are fewer, in descending order of `created_at`,
  -- followed in that order by those that it leaves out, and shows their total. The middleware of
  -- cors and express.json has passed the request on; Express is taken to match segment by segment
  -- and to strip the routes' prefix.
  pub refresh_lem :
      (locale : ℕ → Text) (now : Text) (v : View) (pong : Option String) (d : Db) (s : Session)
      → express.rest jobs_path jobs_path ≡ some []
      → IsOutside d s
      → let (r, t) =
          serve express platform validator uuid pong
            (fetch_jobs v).verb
            (fetch_jobs v).path
            (request_of (fetch_jobs v))
            s in
        let w = jobs_came locale now (fetched_of r) v in
        IsOutside d t × (IsKept v w ⊎ IsRefreshed platform d v w)
  unfolding fetch_jobs
  refresh_lem locale now v pong d s under out =
      let req = request_of (fetch_jobs v) in
      let next =
        λ (r : Request). run_routes express (job_routes platform validator uuid) Verb.get [] r in
      rw
        (serve_below express platform validator uuid Verb.get pong jobs_path [] req s not_health
          under)
        (gate_Refreshes platform locale now v d laws next req _
          (λ c t.
            ap (λ f. f t)
              (routes_lem express paths platform validator uuid "-" (attach c req) (λ e. cc)
                (λ e. omega arith)).1)
          refl refl refl refl (api_key_auth_lem platform next req d s out))
