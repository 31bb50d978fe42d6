-- ===== src/Server/Routing.antt =====
-- Which handler a request reaches, by api-service/src/routes/jobs.ts.
use scalequeue.Common.{
  Bool-cases, inl, inr, ◌∙◌, ◌≡◌, ◌≢◌, refl, String, Bool, true, false, Option, none, some, List,
  [], ◌∷◌, All, if◌then◌else◌, arith,
}
use scalequeue.JobService.{Platform}
use scalequeue.Http.{Request, Handler, length_of}
use scalequeue.Validator.{Validator}
use scalequeue.Controller.{
  create_job_handler, get_job_by_id_handler, requeue_job_handler, get_job_logs_handler,
  list_jobs_handler, list_dead_jobs_handler,
}
use scalequeue.Server.{Piece, literal, parameter, Verb, Express, with_id, job_routes, run_routes}

-- A segment that is not empty.
abbrev pub IsNamed : String → Type 0
IsNamed s = s ≢ ""

-- What Express documents of a match: segment by segment, where a literal takes the segments with the
-- same letters, up to case, and the parameter takes any segment but the empty one.
module _ (same_letters : String → String → Bool) where
  abbrev pub match_pieces : List Piece → List String → Option String
  match_pieces [] [] = some ""
  match_pieces [] (s ∷ ss) = none
  match_pieces (p ∷ ps) [] = none
  match_pieces (literal w ∷ ps) (s ∷ ss) = if same_letters w s then match_pieces ps ss else none
  match_pieces (parameter ∷ ps) (s ∷ ss) = elim (match_pieces ps ss) [
    | none ↦ none
    | some v ↦ some s
  ]

pub if-same : {A : Type 0} (b : Bool) (x : A) → (if b then x else x) ≡ x
if-same true x = refl
if-same false x = refl

pub record MatchesPaths (express : Express) : Type 0 where
  pub same_letters : String → String → Bool
  pub same_itself : (w : String) → same_letters w w ≡ true
  pub same_length : (w s : String) → same_letters w s ≡ true → length_of w ≡ length_of s
  pub by_segments :
      (ps : List Piece) (ss : List String)
      → All IsNamed ss
      → express.matches ps ss ≡ match_pieces same_letters ps ss

module _ (express : Express) (laws : MatchesPaths express) (platform : Platform)
    (validator : Validator) (uuid : String) where
  open laws use {same_letters, same_itself, same_length, by_segments}

  abbrev pub reaches : Verb → List String → Request → Handler
  reaches verb segments = run_routes express (job_routes platform validator uuid) verb segments

  not-letters : (w s : String) → length_of w ≢ length_of s → same_letters w s ≡ false
  not-letters w s h = elim (Bool-cases (same_letters w s)) [
    | inl e ↦ absurd (h (same_length w s e))
    | inr e ↦ e
  ]

  root_route :
      (req : Request)
      → (reaches Verb.post [] req ≡ create_job_handler platform validator uuid (with_id "" req))
        × (reaches Verb.get [] req ≡ list_jobs_handler platform (with_id "" req))
  unfolding run_routes
  root_route req =
      let root : express.matches [] [] ≡ some "" = by_segments [] [] tt in
      let dead : express.matches (literal "dead" ∷ []) [] ≡ none =
        by_segments (literal "dead" ∷ []) [] tt in
      let requeue : express.matches (parameter ∷ literal "requeue" ∷ []) [] ≡ none =
        by_segments (parameter ∷ literal "requeue" ∷ []) [] tt in
      let logs : express.matches (parameter ∷ literal "logs" ∷ []) [] ≡ none =
        by_segments (parameter ∷ literal "logs" ∷ []) [] tt in
      let one : express.matches (parameter ∷ []) [] ≡ none = by_segments (parameter ∷ []) [] tt in
      (rw root refl, rw (root, dead, requeue, logs, one) refl)

  dead_route :
      (req : Request)
      → reaches Verb.get ("dead" ∷ []) req ≡ list_dead_jobs_handler platform (with_id "" req)
  unfolding run_routes
  dead_route req =
      let plain : All IsNamed ("dead" ∷ []) = ((λ e. cc), tt) in
      let root : express.matches [] ("dead" ∷ []) ≡ none = by_segments [] ("dead" ∷ []) plain in
      let dead : express.matches (literal "dead" ∷ []) ("dead" ∷ []) ≡ some "" =
        by_segments (literal "dead" ∷ []) ("dead" ∷ []) plain ∙ rw (same_itself "dead") refl in
      rw (root, dead) refl

  job_route :
      (id : String) (req : Request)
      → IsNamed id
      → length_of id ≢ 4
      → reaches Verb.get (id ∷ []) req ≡ get_job_by_id_handler (with_id id req)
  unfolding run_routes
  job_route id req p long =
      let plain : All IsNamed (id ∷ []) = (p, tt) in
      let path = id ∷ [] in
      let root : express.matches [] path ≡ none = by_segments [] (id ∷ []) plain in
      let dead : express.matches (literal "dead" ∷ []) path ≡ none =
        by_segments (literal "dead" ∷ []) (id ∷ []) plain
        ∙ rw (not-letters "dead" id (λ e. long (ground arith))) refl in
      let requeue : express.matches (parameter ∷ literal "requeue" ∷ []) path ≡ none =
        by_segments (parameter ∷ literal "requeue" ∷ []) (id ∷ []) plain in
      let logs : express.matches (parameter ∷ literal "logs" ∷ []) path ≡ none =
        by_segments (parameter ∷ literal "logs" ∷ []) (id ∷ []) plain in
      let one : express.matches (parameter ∷ []) path ≡ some id =
        by_segments (parameter ∷ []) (id ∷ []) plain in
      rw (root, dead, requeue, logs, one) refl

  pub action_route :
      (id : String) (req : Request)
      → IsNamed id
      → (reaches Verb.post (id ∷ "requeue" ∷ []) req ≡ requeue_job_handler (with_id id req))
        × (reaches Verb.get (id ∷ "logs" ∷ []) req ≡ get_job_logs_handler platform (with_id id req))
  unfolding run_routes
  action_route id req p = (
    (let plain : All IsNamed (id ∷ "requeue" ∷ []) = (p, ((λ e. cc), tt)) in
        let path = id ∷ "requeue" ∷ [] in
        let root : express.matches [] path ≡ none = by_segments [] (id ∷ "requeue" ∷ []) plain in
        let dead : express.matches (literal "dead" ∷ []) path ≡ none =
          by_segments (literal "dead" ∷ []) (id ∷ "requeue" ∷ []) plain
          ∙ if-same (same_letters "dead" id) none in
        let requeue : express.matches (parameter ∷ literal "requeue" ∷ []) path ≡ some id =
          by_segments (parameter ∷ literal "requeue" ∷ []) (id ∷ "requeue" ∷ []) plain
          ∙ rw (match_pieces, same_itself "requeue") refl in
        rw (root, dead, requeue) refl),
    (let plain : All IsNamed (id ∷ "logs" ∷ []) = (p, ((λ e. cc), tt)) in
        let path = id ∷ "logs" ∷ [] in
        let root : express.matches [] path ≡ none = by_segments [] (id ∷ "logs" ∷ []) plain in
        let dead : express.matches (literal "dead" ∷ []) path ≡ none =
          by_segments (literal "dead" ∷ []) (id ∷ "logs" ∷ []) plain
          ∙ if-same (same_letters "dead" id) none in
        let requeue : express.matches (parameter ∷ literal "requeue" ∷ []) path ≡ none =
          by_segments (parameter ∷ literal "requeue" ∷ []) (id ∷ "logs" ∷ []) plain
          ∙ rw (match_pieces, not-letters "requeue" "logs" (λ e. omega arith)) refl in
        let logs : express.matches (parameter ∷ literal "logs" ∷ []) path ≡ some id =
          by_segments (parameter ∷ literal "logs" ∷ []) (id ∷ "logs" ∷ []) plain
          ∙ rw (match_pieces, same_itself "logs") refl in
        rw (root, dead, requeue, logs) refl),
  )

  -- Each of the six endpoints answers its requests, in the order in which the routes stand: GET
  -- /dead lists the dead jobs and is not taken for a job of that name, and a path of one segment is
  -- a job's id, where the segment is not empty and not four letters long. Express is taken to match
  -- segment by segment.
  pub routes_lem :
      (id : String) (req : Request)
      → IsNamed id
      → length_of id ≢ 4
      → (reaches Verb.post [] req ≡ create_job_handler platform validator uuid (with_id "" req))
        × (reaches Verb.get [] req ≡ list_jobs_handler platform (with_id "" req))
        × (reaches Verb.get ("dead" ∷ []) req ≡ list_dead_jobs_handler platform (with_id "" req))
        × (reaches Verb.get (id ∷ []) req ≡ get_job_by_id_handler (with_id id req))
        × (reaches Verb.post (id ∷ "requeue" ∷ []) req ≡ requeue_job_handler (with_id id req))
        × (reaches Verb.get (id ∷ "logs" ∷ []) req ≡ get_job_logs_handler platform (with_id id req))
  routes_lem id req p long =
      let (a, b) = root_route req in
      let (c, d) = action_route id req p in (a, b, dead_route req, job_route id req p long, c, d)
