-- ===== src/Auth/Gate.antt =====
-- Which requests the middleware of api-service/src/middleware/auth.ts lets through.
use scalequeue.Common.{
  ℕ, ◌≡◌, refl, sym, ◌⊎◌, inl, inr, String, Bool, true, false, Option, none, some,
}
use scalequeue.Schema.{Client, Db}
use scalequeue.Session.{Session, Result, ok, err}
use scalequeue.Session.Rules.{Ends, Ends-mono, IsOutside, query-IsOutside}
use scalequeue.JobService.{Platform, truthy}
use scalequeue.Http.{Request, Response, Handler}
use scalequeue.Auth.{attach, admit, decide_row, find_client, check_key, api_key_auth}

module _ (platform : Platform) (next : Request → Handler) (req : Request) where
  -- The answer without the handler behind, and the database that it leaves.
  abbrev pub IsDenied : ℕ → Db → Response × Session → Type 0
  IsDenied code d r = (r.0.status ≡ code) × IsOutside d r.1

  -- The four ways for a request with this key, where `d` is the database.
  pub data KeyOutcome (key : String) (d : Db) (r : Response × Session) : Type 0 where
    unavailable : IsDenied 500 d r → KeyOutcome key d r
    unknown : find_client platform key d ≡ none → IsDenied 401 d r → KeyOutcome key d r
    disabled :
        (c : Client)
        → find_client platform key d ≡ some c
        → c.is_active ≡ false
        → IsDenied 403 d r
        → KeyOutcome key d r
    passed :
        (c : Client) (t : Session)
        → find_client platform key d ≡ some c
        → c.is_active ≡ true
        → IsOutside d t
        → r ≡ next (attach c req) t
        → KeyOutcome key d r

  abbrev pub GateOutcome : Db → Response × Session → Type 0
  GateOutcome d r =
      ((truthy req.api_key ≡ none) × IsDenied 401 d r)
      ⊎ ((key : String) × (truthy req.api_key ≡ some key) × KeyOutcome key d r)

  admit_lem :
      (key : String) (c : Client) (b : Bool) (d : Db) (t : Session)
      → find_client platform key d ≡ some c
      → c.is_active ≡ b
      → IsOutside d t
      → KeyOutcome key d (admit b c next req t)
  unfolding admit
  admit_lem key c false d t found off h = disabled c found off (refl, h)
  admit_lem key c true d t found on h = passed c t found on h refl

  decide_lem :
      (key : String) (d : Db) (m : Result (Option Client) × Session)
      → Ends (λ e t. IsOutside d t) (λ o t. (o ≡ find_client platform key d) × IsOutside d t) m
      → KeyOutcome key d (decide_row m next req)
  unfolding decide_row
  decide_lem key d (err e, t) h = unavailable (refl, h.holds)
  decide_lem key d (ok none, t) h = unknown (sym (h.holds.0)) (refl, h.holds.1)
  decide_lem key d (ok (some c), t) h =
      admit_lem key c c.is_active d t (sym (h.holds.0)) refl (h.holds.1)

  check_key_lem :
      (o : Option String) (d : Db) (s : Session)
      → truthy req.api_key ≡ o
      → IsOutside d s
      → GateOutcome d (check_key platform o next req s)
  unfolding check_key
  check_key_lem none d s eq h = inl (eq, (refl, h))
  check_key_lem (some key) d s eq h = inr (
    key,
    eq,
    decide_lem key d _
        (Ends-mono _ (λ e t q. q.0) (λ o t q. q) (query-IsOutside (find_client platform key) s h)),
  )

  -- The handler behind the middleware runs only for an active client whose key the request has,
  -- with that client's id attached, on an unchanged database. Every other request is answered
  -- without it and changes nothing: 401 without a key or with an unknown one, 403 for a client that
  -- is disabled, 500 where the database fails.
  pub api_key_auth_lem :
      (d : Db) (s : Session) → IsOutside d s → GateOutcome d (api_key_auth platform next req s)
  unfolding api_key_auth
  api_key_auth_lem d s h = check_key_lem (truthy req.api_key) d s refl h
