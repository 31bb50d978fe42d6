-- ===== src/Tests/Data.antt =====
-- A platform, requests and databases for the tests.
use Prim.Native.String.{◌++◌ as str_append}
use scalequeue.Common.{
  ℕ, ◌+◌, ◌%◌, ◌≤◌, ◌≡◌, refl, String, Bool, true, none, some, List, [], ◌∷◌, leb, count, All,
  if◌then◌else◌, str_eq, ◌==◌, arith,
}
use scalequeue.Json.{Json, null, bool, num, arr, str, obj, Fields, field, end}
use scalequeue.Schema.{JobStatus, JobType, Job, Db}
use scalequeue.Session.{
  Session, Event, calm, lost_reply, continue, get_connection, releasing, recover, begin_transaction,
  statement, commit, rollback,
}
use scalequeue.Schema.Tables.{insert_job, insert_log, insert_outbox}
use scalequeue.Identity.{Text}
use scalequeue.JobService.{Platform, CreateJobInput}
use scalequeue.Http.{Request}
use scalequeue.Validator.{Parsed, valid, FitsSchema, Validator}
use scalequeue.JobService.Listing.Pages.{IsDescending, OrdersRows}

-- A toy digest: the parities of the code points.
abbrev pub parities : Text → String
parities [] = ""
parities (c ∷ s) = str_append (if c % 2 == 0 then "0" else "1") (parities s)

abbrev pub insert_row : (Job → ℕ) → Job → List Job → List Job
insert_row key j [] = j ∷ []
insert_row key j (x ∷ xs) = if leb (key x) (key j) then j ∷ x ∷ xs else x ∷ insert_row key j xs

abbrev pub sort_rows : (Job → ℕ) → List Job → List Job
sort_rows key [] = []
sort_rows key (x ∷ xs) = insert_row key x (sort_rows key xs)

abbrev pub demo : Platform
demo = record {
  digest = parities;
  same_text = str_eq;
  order_jobs = sort_rows;
  order_logs = λ ls. ls;
}

count-insert_row :
    (key : Job → ℕ) (test : Job → Bool) (j : Job) (xs : List Job)
    → count test (insert_row key j xs) ≡ (if test j then count test xs + 1 else count test xs)
count-insert_row key test j [] = ground arith
count-insert_row key test j (x ∷ xs) = ground (arith, count-insert_row key test j xs)

count-sort_rows :
    (key : Job → ℕ) (test : Job → Bool) (xs : List Job)
    → count test (sort_rows key xs) ≡ count test xs
count-sort_rows key test [] = refl
count-sort_rows key test (x ∷ xs) =
    ground (arith, count-insert_row key test x (sort_rows key xs), count-sort_rows key test xs)

All-le_trans :
    (key : Job → ℕ) (a b : ℕ) (xs : List Job)
    → a ≤ b
    → All (λ y. key y ≤ a) xs
    → All (λ y. key y ≤ b) xs
All-le_trans key a b [] h k = tt
All-le_trans key a b (x ∷ xs) h (p, k) = (omega arith, All-le_trans key a b xs h k)

All-insert_row :
    (key : Job → ℕ) (b : ℕ) (j : Job) (xs : List Job)
    → key j ≤ b
    → All (λ y. key y ≤ b) xs
    → All (λ y. key y ≤ b) (insert_row key j xs)
All-insert_row key b j [] h k = (h, tt)
All-insert_row key b j (x ∷ xs) h (p, k) = ground (arith, All-insert_row key b j xs h k)

insert_row-IsDescending :
    (key : Job → ℕ) (j : Job) (xs : List Job)
    → IsDescending key xs
    → IsDescending key (insert_row key j xs)
insert_row-IsDescending key j [] h = (tt, tt)
insert_row-IsDescending key j (x ∷ xs) (a, h) = ground (
  arith,
  All-le_trans key (key x) (key j) xs,
  All-insert_row key (key x) j xs,
  insert_row-IsDescending key j xs h,
)

sort_rows-IsDescending : (key : Job → ℕ) (xs : List Job) → IsDescending key (sort_rows key xs)
sort_rows-IsDescending key [] = tt
sort_rows-IsDescending key (x ∷ xs) =
    insert_row-IsDescending key x _ (sort_rows-IsDescending key xs)

pub demo-OrdersRows : OrdersRows demo
demo-OrdersRows = record { count_kept = count-sort_rows; descending = sort_rows-IsDescending }

abbrev pub mail : Fields
mail = field "to" (str "demo@example.test") end

abbrev pub input : CreateJobInput
input = record { type = JobType.send_email; payload = mail; max_retries = 3; priority = 5 }

abbrev pub row : String → JobStatus → Job
row id status = record {
  id = id;
  type = "send_email";
  payload = obj mail;
  status = status;
  retry_count = 0;
  max_retries = 3;
  priority = 5;
  created_at = 1;
  updated_at = 1;
  processed_at = none;
  error_msg = none;
  request_key = none;
  request_hash = none;
  generation = 1;
  attempt_count = 4;
  next_attempt_at = 1000000;
  lease_owner = none;
  lease_until = none;
}

abbrev pub empty_db : Db
empty_db = record { jobs = []; logs = []; outbox = []; clients = []; next_log = 1; next_outbox = 1 }

abbrev pub two_jobs : Db
two_jobs = record empty_db { jobs = row "a" JobStatus.dead ∷ row "b" JobStatus.pending ∷ [] }

abbrev pub quiet : Db → Session
quiet d = record { committed = d; working = none; clock = 2000000; events = [] }

-- The commit of the seventh round trip takes effect and its reply is lost.
abbrev pub lossy : Db → Session
lossy d =
    let good : Event = record { delay = 1; fault = calm } in
    record (quiet d) {
      events = good ∷ good ∷ good ∷ good ∷ good ∷ record { delay = 1; fault = lost_reply } ∷ [];
    }

-- A request's JSON with the keys of the payload in another order.
abbrev pub letter : Fields → CreateJobInput
letter payload = record input { payload = payload }

abbrev pub to_then_cc : Fields
to_then_cc = field "to" (str "x") (field "cc" (str "y") end)

abbrev pub cc_then_to : Fields
cc_then_to = field "cc" (str "y") (field "to" (str "x") end)

-- A validator that takes every object for one known input.
valid_injective : {a b : CreateJobInput} → valid a ≡ valid b → a ≡ b
valid_injective h = cc

fits : (i : CreateJobInput) → input ≡ i → FitsSchema i
fits i h = rw (← h) (record {
  payload_nonempty = omega arith;
  retries_bounded = omega arith;
  priority_positive = omega arith;
  priority_bounded = omega arith;
})

abbrev parse_any : Json → Parsed
parse_any (obj fs) = valid input
parse_any _ = Parsed.refused []

pub parse_any_sound : (body : Json) (i : CreateJobInput) → parse_any body ≡ valid i → FitsSchema i
parse_any_sound (obj fs) i h = fits i (valid_injective h)
parse_any_sound null i h = cc
parse_any_sound (bool b) i h = cc
parse_any_sound (num n) i h = cc
parse_any_sound (str t) i h = cc
parse_any_sound (arr xs) i h = cc

abbrev pub demo_validator : Validator
demo_validator = record { parse = parse_any; sound = parse_any_sound }

abbrev pub asking : Json → String → Request
asking body id = record {
  api_key = some "secret";
  idempotency_key = some "k";
  client_id = some "c";
  body = body;
  id = id;
  status = some "DEAD";
  type = none;
  limit = some "1000";
  offset = none;
}

abbrev pub long_id : String
long_id = "123e4567-e89b-12d3-a456-426614174000"

abbrev pub long_jobs : Db
long_jobs = record empty_db {
  jobs = row long_id JobStatus.dead ∷ [];
  clients = record { id = "c"; name = "demo"; api_key = "secret"; is_active = true } ∷ [];
}

-- What a run of a service method computes through.
unfoldable pub session_runs : Unit {0}
unfolding continue get_connection releasing recover begin_transaction statement insert_job
    insert_log insert_outbox commit rollback
session_runs = tt
