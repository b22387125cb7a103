-- ===== src/RequestReply.antt =====
-- The panel of requests and replies, frontend/src/components/RequestReplyPanel.tsx: its state, the
-- sending of a request, the events of its timeline and the labels of the outcome. `validated` counts
-- the calls of `onValidated`.
pub mod Laws
pub mod View
pub mod Presses
mod Tests
use nats_demo.Common.{
  ℕ, suc, Bool, true, false, ◌||◌, ◌&&◌, String, List, Option, none, some, ◌+s◌, decimal, str_eq,
  filter, if◌then◌else◌,
}
use nats_demo.Task.{
  Task, Result, ok, err, Failure, message, message_or, update, catching, finally, ◌>>=◌, ◌>>◌,
}
use nats_demo.Api.{Job, Json, Activity, ValidationResult, Fetch, Reply}
use nats_demo.Api.Jobs.{validate_job}
use nats_demo.Api.Status.{is_true}

pub record RequestReply : Type 0 where
  pub job_id : String
  pub job_type : String
  pub payload_str : String
  pub json_error : Option String
  pub is_sending : Bool
  pub result : Option ValidationResult
  pub last_job_id : String
  pub validated : ℕ

abbrev pub request_job : RequestReply → Json → Job
request_job f payload = record {
  job_id = f.job_id;
  type = some f.job_type;
  subject = none;
  delivery_mode = none;
  msg_id = none;
  source = none;
  content_type = none;
  headers = none;
  payload = payload;
  trace_id = none;
}

abbrev pub RequestHandler : Type 0
RequestHandler = Task RequestReply Fetch Reply (Unit {0})

-- What follows the parsing of the payload. `f` is the state of the render that made the handler, `n`
-- the random number that it draws for the next identifier.
unfoldable pub send_parsed : RequestReply → ℕ → Result Json → RequestHandler
send_parsed f n (err e) =
    update (λ s. record s { json_error = some ("Invalid JSON payload: " +s message e) })
send_parsed f n (ok payload) = do
  update (λ s. record s { is_sending = true })
  update (λ s. record s { last_job_id = f.job_id })
  finally
      (catching
        (do
          res ← validate_job (request_job f payload)
          update (λ s. record s { result = some res })
          update (λ s. record s { validated = suc s.validated }))
        (λ e. update (λ s. record s { json_error = some (message_or e "Request failed") })))
      (λ s. record s { is_sending = false; job_id = "job-val-" +s decimal n })

-- `JSON.parse` is given.
unfoldable pub handle_send : (String → Result Json) → RequestReply → ℕ → RequestHandler
handle_send parse f n = do
  update (λ s. record s { json_error = none })
  update (λ s. record s { result = none })
  send_parsed f n (parse f.payload_str)

-- `RR_EVENTS.has(event)`
unfoldable pub is_rr_event : String → Bool
is_rr_event event =
    str_eq event "REQUEST_SENT"
    || str_eq event "REQUEST_RECEIVED"
    || str_eq event "REPLY_SENT"
    || str_eq event "REPLY_RECEIVED"
    || str_eq event "REQUEST_TIMEOUT"

unfoldable pub timeline_events : List Activity → RequestReply → List Activity
timeline_events activities s =
    filter (λ a. is_rr_event a.event && str_eq a.job_id s.last_job_id) activities

-- `getStatusLabel`: the label and its class
unfoldable pub status_label : Option ValidationResult → String × String
status_label none = ("", "")
status_label (some res) =
    if is_true res.timed_out then ("TIMEOUT", "badge-failed") else elim (res.valid) [
      | some false ↦ ("INVALID", "badge-processing")
      | some true ↦ ("SUCCESS", "badge-completed")
      | none ↦ ("SUCCESS", "badge-completed")
    ]

-- `getTimelineBadgeClass`
unfoldable pub timeline_badge_class : String → String
timeline_badge_class event =
    if str_eq event "REQUEST_SENT"
    then "badge-submitted"
    else if str_eq event "REQUEST_RECEIVED"
    then "badge-delivered"
    else if str_eq event "REPLY_SENT"
    then "badge-processing"
    else if str_eq event "REPLY_RECEIVED"
    then "badge-completed"
    else if str_eq event "REQUEST_TIMEOUT"
    then "badge-failed"
    else ""
