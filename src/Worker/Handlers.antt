-- ===== src/Worker/Handlers.antt =====
-- The handlers of worker-service/internal/handlers: registry.go, email.go, notification.go and
-- failing.go. What `json.Unmarshal` makes of a payload is a parameter.
use Prim.Native.String.{◌++◌ as str_append}
use scalequeue.Common.{String, true, false, Option, none, some, if◌then◌else◌, str_eq}
use scalequeue.Json.{Json}
use scalequeue.Schema.{Job}
use scalequeue.Worker.{Outcome, succeeded, failed}

-- A field of the decoded payload, "" where it is absent, or the decoder's error.
pub data Decoded : Type 0 where
  decoded : String → Decoded
  undecodable : String → Decoded

pub record Decoder : Type 0 where
  pub email_to : Json → Decoded
  pub notification_user : Json → Decoded

-- `wait`: the simulated work, or the error of the context that is cancelled before it ends.
abbrev pub wait : Option String → Outcome
wait none = succeeded
wait (some e) = failed e false

needs : Decoded → String → Option String → Outcome
needs (undecodable e) missing cancelled = failed e true
needs (decoded value) missing cancelled =
    if str_eq value "" then failed missing true else wait cancelled

module _ (decoder : Decoder) (cancelled : Option String) where
  unfoldable pub email_handler : Job → Outcome
  unfolding needs
  email_handler j = needs (decoder.email_to j.payload) "email payload missing to" cancelled

  unfoldable pub notification_handler : Job → Outcome
  unfolding needs
  notification_handler j =
      needs (decoder.notification_user j.payload) "notification payload missing user_id" cancelled

  abbrev pub failing_handler : Job → Outcome
  failing_handler j = failed "simulated transient failure" false

  -- `Registry.Get` of `NewRegistry` and the call of the handler; without one the failure is permanent.
  unfoldable pub run_handler : Job → Outcome
  run_handler j =
      if str_eq j.type "send_email"
      then email_handler j
      else if str_eq j.type "send_notification"
      then notification_handler j
      else if str_eq j.type "fail_job"
      then failing_handler j
      else failed (str_append "no handler registered for " j.type) true
