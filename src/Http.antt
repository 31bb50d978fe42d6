-- ===== src/Http.antt =====
-- Requests and responses as the handlers under api-service/src see them, and the functions of
-- JavaScript's standard library on texts that the handlers call.
pub mod Numbers
use scalequeue.Common.{
  ℕ, zero, suc, ◌+◌, ◌-◌, ◌*◌, String, Bool, true, false, ◌||◌, ◌&&◌, Option, List, [], ◌∷◌, leb,
  ◌==◌, if◌then◌else◌, min, max, length,
}
use scalequeue.Json.{Json}
use scalequeue.JobService.Listing.{DeadJob}
use scalequeue.Schema.{Job, AuditLog}
use scalequeue.Session.{Session, Result, ok, err, Error}
use scalequeue.Identity.{Text, codes, units}

-- The parts of a request that the handlers read. A header, a query parameter or a property that is
-- absent is `none`; a query parameter is given once.
pub record Request : Type 0 where
  pub api_key : Option String
  pub idempotency_key : Option String
  pub client_id : Option String
  pub body : Json
  pub id : String
  pub status : Option String
  pub type : Option String
  pub limit : Option String
  pub offset : Option String

pub record Issue : Type 0 where
  pub field : String
  pub message : String

pub data Body : Type 0 where
  failure : String → Body
  invalid : List Issue → Body
  job : Job → Body
  jobs : List Job → (total limit offset : ℕ) → Body
  dead_jobs : List DeadJob → (total limit offset : ℕ) → Body
  logs : List AuditLog → Body
  unrouted : Body
  health : (status database redis : String) → Body

pub record Response : Type 0 where
  pub status : ℕ
  pub body : Body

abbrev pub Handler : Type 0
Handler = Session → Response × Session

abbrev pub reply : ℕ → Body → Response
reply code b = record { status = code; body = b }

abbrev pub internal : Response
internal = reply 500 (failure "Internal server error")

-- `try { … await action … } catch (error) { … }` of a handler
unfoldable pub respond :
    {A : Type 0} → Result A × Session → (A → Response) → (Error → Response) → Response × Session
respond (ok a, s) f g = (f a, s)
respond (err e, s) f g = (g e, s)

-- The white space and line terminators that `trim` and `parseInt` skip.
abbrev pub is_space : ℕ → Bool
is_space c =
    (leb 9 c && leb c 13)
    || c == 32
    || c == 0xa0
    || c == 0x1680
    || (leb 0x2000 c && leb c 0x200a)
    || c == 0x2028
    || c == 0x2029
    || c == 0x202f
    || c == 0x205f
    || c == 0x3000
    || c == 0xfeff

-- `!s.trim()`
pub is_blank : Text → Bool
is_blank [] = true
is_blank (c ∷ s) = is_space c && is_blank s

-- `s.length`
abbrev pub length_of : String → ℕ
length_of s = length (units (codes s))

-- The value of `parseInt(s, 10)`, exact. It is `NaN`, or has a sign; -0 is `minus 0`.
pub data Number : Type 0 where
  nan : Number
  plus minus : ℕ → Number

abbrev pub is_digit : ℕ → Bool
is_digit c = leb b'0' c && leb c b'9'

-- The value of the leading digits, added to the value of those before.
unfoldable pub digits_from : ℕ → Text → ℕ
digits_from acc [] = acc
digits_from acc (c ∷ s) =
    let rest = digits_from (acc * 10 + (c - b'0')) s in if is_digit c then rest else acc

abbrev starts_digit : Text → Bool
starts_digit [] = false
starts_digit (c ∷ s) = is_digit c

signed : (ℕ → Number) → Text → Number
unfolding digits_from
signed sign s = if starts_digit s then sign (digits_from 0 s) else nan

unfoldable pub parse_int : Text → Number
unfolding signed
parse_int [] = nan
parse_int (c ∷ s) =
    let rest = parse_int s in
    if is_space c
    then rest
    else if c == b'-'
    then signed minus s
    else if c == b'+'
    then signed plus s
    else signed plus (c ∷ s)

-- `n || d` for a positive default
abbrev pub or_number : Number → ℕ → Number
or_number nan d = plus d
or_number (plus zero) d = plus d
or_number (plus (suc n)) d = plus (suc n)
or_number (minus zero) d = plus d
or_number (minus (suc n)) d = minus (suc n)

-- `Math.max(1, Math.min(n, most))`
abbrev pub clamp : ℕ → Number → ℕ
clamp most nan = 1
clamp most (plus n) = max 1 (min n most)
clamp most (minus n) = 1

-- `Math.max(0, n)`
abbrev pub at_least_zero : Number → ℕ
at_least_zero nan = 0
at_least_zero (plus n) = n
at_least_zero (minus n) = 0
