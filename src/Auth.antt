-- ===== src/Auth.antt =====
-- The API-key middleware, api-service/src/middleware/auth.ts. The comparison of `api_key = ?` is the
-- platform's, under the database's collation; `next` is the handler behind the middleware.
pub mod Gate
use scalequeue.Common.{String, Bool, true, false, Option, none, some, find?}
use scalequeue.Schema.{Client, Db}
use scalequeue.Session.{Session, Result, ok, err, query}
use scalequeue.JobService.{Platform, truthy}
use scalequeue.Http.{Request, Response, Handler, reply, failure}

-- The request with the client's id attached.
abbrev pub attach : Client → Request → Request
attach c req = record req { client_id = some c.id }

admit : Bool → Client → (Request → Handler) → Request → Handler
admit false c next req s = (reply 403 (failure "API key is disabled"), s)
admit true c next req s = next (attach c req) s

decide_row : Result (Option Client) × Session → (Request → Handler) → Request → Response × Session
unfolding admit
decide_row (err e, s) next req = (reply 500 (failure "Auth check failed"), s)
decide_row (ok none, s) next req = (reply 401 (failure "Invalid API key"), s)
decide_row (ok (some c), s) next req = admit c.is_active c next req s

module _ (platform : Platform) where
  open platform use {same_text}

  -- SELECT id, name, is_active FROM api_clients WHERE api_key = ? LIMIT 1
  abbrev pub find_client : String → Db → Option Client
  find_client key d = find? (λ c. same_text c.api_key key) d.clients

  check_key : Option String → (Request → Handler) → Request → Handler
  unfolding decide_row
  check_key none next req s =
      (reply 401 (failure "Missing API key. Pass it as x-api-key header."), s)
  check_key (some key) next req s = decide_row (query (find_client key) s) next req

  unfoldable pub api_key_auth : (Request → Handler) → Request → Handler
  unfolding check_key
  api_key_auth next req = check_key (truthy req.api_key) next req
