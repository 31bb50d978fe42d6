-- ===== src/Dashboard/Replays.antt =====
-- A click on a requeue button of dashboard/app.js, answered by the application of
-- api-service/src/server.ts.
use mathlib.Core.Path.{subst}
use scalequeue.Common.{
  none, ◌≡◌, refl, ◌⊎◌, inl, inr, String, true, false, Option, some, [], ◌∷◌, Bool-cases, ◌==◌,
  ◌&&◌, leb, ap, ◌∙◌,
}
use scalequeue.Schema.{Client, Db}
use scalequeue.Session.{Session}
use scalequeue.Session.Rules.{IsOutside}
use scalequeue.JobService.{Platform}
use scalequeue.JobService.Requeue.Replay.{IsReplayed}
use scalequeue.Http.{Request, Response, Body, Handler}
use scalequeue.Validator.{Validator}
use scalequeue.Auth.{attach}
use scalequeue.Auth.Gate.{KeyOutcome, GateOutcome, api_key_auth_lem}
use scalequeue.Controller.{requeue_job_handler}
use scalequeue.Controller.Statuses.{ReplayResponse, requeue_job_handler_lem}
use scalequeue.Server.{literal, Verb, Express, with_id, job_routes, run_routes, serve}
use scalequeue.Server.Routing.{IsNamed, if-same, MatchesPaths, action_route}
use scalequeue.Server.Reading.{serve_below}
use scalequeue.Dashboard.{Refusal, unread, Reading, value, refused, Fetched, View, Ref, Button}
use scalequeue.Dashboard.Drawing.{requeue_button, show_toast, set_button}
use scalequeue.Dashboard.Calls.{requeue_call}
use scalequeue.Dashboard.Answers.{requeue_failed, requeue_came}
use scalequeue.Dashboard.Service.{request_of, refusal_of, fetched_by}

-- The body of an answer that is `ok` is not read.
abbrev pub unread_body : Body → Reading Unit
unread_body b = value tt

set_button-toast : (ref : Ref) (b : Button) (v : View) → (set_button ref b v).toast ≡ v.toast
unfolding set_button
set_button-toast ref b v = elim (Bool-cases (ref.drawing == v.drawing)) [
  | inl e ↦ rw e refl
  | inr e ↦ rw e refl
]

module _ (ref : Ref) (v : View) (d : Db) where
  -- What the page shows after an answer, and what became of the job in the database `e`.
  abbrev pub ShowsReplay : Fetched Unit → Db → Type 0
  ShowsReplay answer e =
      let (again, w) = requeue_came ref answer v in
      ((w.toast.class ≡ "show success") × (again ≡ true) × IsReplayed ref.id d e)
      ⊎ ((w.toast.class ≡ "show error") × (again ≡ false) × ((e ≡ d) ⊎ IsReplayed ref.id d e))

  refused_shows :
      (r : Response) (e : Db)
      → (leb 200 r.status && leb r.status 299) ≡ false
      → (e ≡ d) ⊎ IsReplayed ref.id d e
      → ShowsReplay (fetched_by unread_body r) e
  unfolding requeue_came requeue_failed
  refused_shows r e bad done = rw bad (inr ((shown (value (refusal_of r.body))).0, refl, done))
    where
      shown :
          (x : Reading Refusal)
          → let (again, w) = requeue_came ref (refused r.status x) v in
            (w.toast.class ≡ "show error") × (again ≡ false)
      shown (unread m) =
          (ap (λ t. t.class) (set_button-toast ref requeue_button (show_toast m "error" v)), refl)
      shown (value x) =
          (ap (λ t. t.class) (set_button-toast ref requeue_button (show_toast _ "error" v)), refl)

  handler_shows :
      (r : Response × Session)
      → ReplayResponse ref.id d r
      → ShowsReplay (fetched_by unread_body r.0) r.1.committed
  unfolding requeue_came
  handler_shows r (ReplayResponse.replayed j e new found) = rw e (inl (refl, refl, new))
  handler_shows r (ReplayResponse.unknown e gone same) =
      refused_shows r.0 r.1.committed (rw e refl) (inl same)
  handler_shows r (ReplayResponse.bad_request e same) =
      refused_shows r.0 r.1.committed (rw e refl) (inl same)
  handler_shows r (ReplayResponse.failed e done) = refused_shows r.0 r.1.committed (rw e refl) done

  gate_shows :
      (platform : Platform) (next : Request → Handler) (req : Request) (r : Response × Session)
      → ((c : Client) (t : Session)
          → next (attach c req) t ≡ requeue_job_handler (with_id ref.id (attach c req)) t)
      → GateOutcome platform next req d r
      → ShowsReplay (fetched_by unread_body r.0) r.1.committed
  gate_shows platform next req r h (inl (_, (e, out))) =
      refused_shows r.0 r.1.committed (rw e refl) (inl out.0)
  gate_shows platform next req r h (inr (key, _, KeyOutcome.unavailable (e, out))) =
      refused_shows r.0 r.1.committed (rw e refl) (inl out.0)
  gate_shows platform next req r h (inr (key, _, KeyOutcome.unknown _ (e, out))) =
      refused_shows r.0 r.1.committed (rw e refl) (inl out.0)
  gate_shows platform next req r h (inr (key, _, KeyOutcome.disabled c _ _ (e, out))) =
      refused_shows r.0 r.1.committed (rw e refl) (inl out.0)
  gate_shows platform next req r h (inr (key, _, KeyOutcome.passed c t _ _ out e)) =
      let m = requeue_job_handler (with_id ref.id (attach c req)) t in
      let told = requeue_job_handler_lem (with_id ref.id (attach c req)) t in
      rw (e, h c t) (handler_shows m (subst (λ b. ReplayResponse ref.id b m) out.0 told))

module _ (express : Express) (paths : MatchesPaths express) (platform : Platform)
    (validator : Validator) (uuid : String) where
  open paths use {same_letters, by_segments}

  -- A click on a requeue button, answered by the application: the page says that the job was
  -- requeued, and fetches the jobs again, only where the job's replay was committed as a whole.
  -- Otherwise it shows an error, and nothing changed or the replay was committed although the
  -- application could not tell. The middleware of cors and express.json has passed the request on;
  -- Express is taken to match segment by segment and to strip the routes' prefix; the job's id is
  -- not empty.
  pub replay_click_lem :
      (ref : Ref) (v : View) (pong : Option String) (d : Db) (s : Session)
      → IsNamed ref.id
      → express.rest ("api" ∷ "v1" ∷ "jobs" ∷ []) (requeue_call ref.id v).path
        ≡ some (ref.id ∷ "requeue" ∷ [])
      → IsOutside d s
      → let (r, t) =
          serve express platform validator uuid pong
            (requeue_call ref.id v).verb
            (requeue_call ref.id v).path
            (request_of (requeue_call ref.id v))
            s in
        ShowsReplay ref v d (fetched_by unread_body r) t.committed
  replay_click_lem ref v pong d s named under out =
      let req = request_of (requeue_call ref.id v) in
      let path = "api" ∷ "v1" ∷ "jobs" ∷ ref.id ∷ "requeue" ∷ [] in
      let next = λ (r : Request).
        run_routes express (job_routes platform validator uuid) Verb.post (ref.id ∷ "requeue" ∷ [])
          r in
      let away : express.matches (literal "health" ∷ []) path ≡ none =
        by_segments (literal "health" ∷ []) path
          ((λ e. cc), ((λ e. cc), ((λ e. cc), (named, ((λ e. cc), tt)))))
        ∙ if-same (same_letters "health" "api") none in
      rw
        (serve_below express platform validator uuid Verb.post pong path (ref.id ∷ "requeue" ∷ [])
          req s away under)
        (gate_shows ref v d platform next req _
          (λ c t.
            ap (λ f. f t)
              (action_route express paths platform validator uuid ref.id (attach c req) named).0)
          (api_key_auth_lem platform next req d s out))
