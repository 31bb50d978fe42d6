-- ===== src/Dashboard.antt =====
-- The page of dashboard/app.js: its variables, the elements of dashboard/index.html that it changes,
-- and the calls that it sends. An `async` function is split where it awaits, so that what happens
-- on the page meanwhile comes between its parts. Texts are lists of code points.
pub mod Drawing
pub mod Calls
pub mod Answers
pub mod Events
pub mod Tallies
pub mod Rows
pub mod Consistency
pub mod Late
pub mod Service
pub mod Replays
use scalequeue.Common.{ℕ, String, Bool, true, false, Option, none, List, []}
use scalequeue.Json.{Json}
use scalequeue.Schema.{Job}
use scalequeue.Identity.{Text}
use scalequeue.Http.{Issue}
use scalequeue.Server.{Verb}

-- What `res.json()` settles to: rejected with a message, or the value.
pub data Reading (A : Type 0) : Type 0 where
  unread : Text → Reading A
  value : A → Reading A

-- `error` and `details` of an answer that is not `ok`.
pub record Refusal : Type 0 where
  pub error : Option String
  pub details : Option (List Issue)

-- What `fetch` settles to: rejected with a message, an answer whose status is not `ok`, or one whose
-- status is.
pub data Fetched (A : Type 0) : Type 0 where
  offline : Text → Fetched A
  refused : (code : ℕ) → Reading Refusal → Fetched A
  accepted : Reading A → Fetched A

-- `data` and `pagination?.total` of the answer to GET /api/v1/jobs
pub record Jobs : Type 0 where
  pub data_rows : Option (List Job)
  pub total : Option ℕ

pub record Call : Type 0 where
  pub base : Text
  pub verb : Verb
  pub path : List String
  pub status : Option String
  pub limit : Option String
  pub api_key : String
  pub body : Option Json

pub record Button : Type 0 where
  pub text : String
  pub disabled : Bool

-- What a row of the table shows, and its requeue button if it has one.
pub record Row : Type 0 where
  pub id : String
  pub short : Text
  pub type : String
  pub status : String
  pub has_retries : Bool
  pub retries : Text
  pub priority : ℕ
  pub created : Text
  pub requeue : Option Button

pub data Table : Type 0 where
  unconfigured no_jobs : Table
  rows : List Row → Table

pub record Counts : Type 0 where
  pub pending : ℕ
  pub processing : ℕ
  pub completed : ℕ
  pub failed : ℕ
  pub dead : ℕ

pub record Stats : Type 0 where
  pub total : ℕ
  pub counts : Counts

pub record LogRow : Type 0 where
  pub time : Text
  pub from : String
  pub to : String
  pub worker : Option String
  pub message : String

pub data ModalBody : Type 0 where
  loading no_logs : ModalBody
  log_rows : List LogRow → ModalBody
  failure : Text → ModalBody

-- `timer` tells whether the toast's time-out is set.
pub record Toast : Type 0 where
  pub text : Text
  pub class : String
  pub timer : Bool

-- The values of the form's elements.
pub record Inputs : Type 0 where
  pub api_url : String
  pub api_key : String
  pub job_type : String
  pub max_retries : String
  pub priority : String
  pub refresh_interval : String

-- `drawing` counts the times that the table was drawn; `timer` is the period of the running refresh.
pub record View : Type 0 where
  pub inputs : Inputs
  pub current_filter : String
  pub active : String
  pub all_jobs : List Job
  pub timer : Option ℕ
  pub toast : Toast
  pub banner : Text
  pub banner_shown : Bool
  pub result_count : Text
  pub table : Table
  pub drawing : ℕ
  pub stats : Option Stats
  pub updated : Option Text
  pub dot_failed : Bool
  pub modal_job : String
  pub modal_body : ModalBody
  pub modal_shown : Bool

-- A requeue button: the drawing of the table that it belongs to, and its job.
pub record Ref : Type 0 where
  pub drawing : ℕ
  pub id : String

-- The page as dashboard/index.html has it.
abbrev pub opened : Inputs → View
opened inputs = record {
  inputs = inputs;
  current_filter = "ALL";
  active = "ALL";
  all_jobs = [];
  timer = none;
  toast = record { text = []; class = ""; timer = false };
  banner = [];
  banner_shown = false;
  result_count = [];
  table = unconfigured;
  drawing = 0;
  stats = none;
  updated = none;
  dot_failed = false;
  modal_job = "—";
  modal_body = loading;
  modal_shown = false;
}
