-- ===== src/RequestReply/View.antt =====
-- The markup of frontend/src/components/RequestReplyPanel.tsx, what its elements start and the state that
-- it is mounted in. `informs` tells whether it was given `onShowInfo`; `print_result` is
-- `JSON.stringify`.
use mathlib.Core.Option
use nats_demo.Common.{
  ℕ, Bool, false, String, List, [], ◌∷◌, Option, none, some, ◌+s◌, decimal, str_eq, ltb, length,
  not, is_set, is_some, or_default, if◌then◌else◌,
}
use nats_demo.Task.{Result, done, update}
use nats_demo.Html.{
  Html, nothing, text, element, ◌<>◌, when, choose, each, within, attr, disabled, on_click,
  on_change,
}
use nats_demo.Html.JsonViewer.{json_viewer}
use nats_demo.Api.{Json, Activity, ValidationResult}
use nats_demo.Api.Status.{is_true}
use nats_demo.RequestReply.{
  RequestReply, RequestHandler, handle_send, timeline_events, status_label, timeline_badge_class,
}

pub data RequestEvent : Type 0 where
  show_info set_job_id set_job_type set_payload_str : String → RequestEvent
  send : RequestEvent

-- `draw` is the random number of the next identifier, `parse` is `JSON.parse`.
unfoldable pub react :
    (String → Result Json) → RequestEvent → (draw : ℕ) → RequestReply → RequestHandler
react parse (show_info topic) draw s = done tt
react parse (set_job_id value) draw s = update (λ s'. record s' { job_id = value })
react parse (set_job_type value) draw s = update (λ s'. record s' { job_type = value })
react parse (set_payload_str value) draw s = update (λ s'. record s' { payload_str = value })
react parse send draw s = handle_send parse s draw

-- The properties that the markup reads
pub record RequestProps : Type 0 where
  pub informs : Bool
  pub activities : List Activity

-- `draw` is the number of the first identifier, `printed` the default payload as `JSON.stringify` prints
-- it.
abbrev pub initial : (draw : ℕ) (printed : String) → RequestReply
initial draw printed = record {
  job_id = "job-val-" +s decimal draw;
  job_type = "image-processing";
  payload_str = printed;
  json_error = none;
  is_sending = false;
  result = none;
  last_job_id = "";
  validated = 0;
}

-- `result.timedOut`
unfoldable pub timed_out : RequestReply → Bool
timed_out s = elim (s.result) [ none ↦ false | some r ↦ is_true r.timed_out ]

-- `JSON.stringify(result, null, 2)`
unfoldable pub printed_result : (ValidationResult → String) → RequestReply → Option String
printed_result print_result s = Option.map print_result s.result

-- The title, and the button marked (i)
unfoldable pub heading : Bool → Html RequestEvent
heading informs = within "div" "panel-header" (
    element "div" [] (
      (within "h2" "panel-title" (text "Request / Reply"))
      <> (when informs (
          element "button"
            (attr "type" "button"
              ∷ attr "class" "node-info-btn"
              ∷ on_click (show_info "request-reply")
              ∷ attr "title" "Learn about Request / Reply"
              ∷ [])
            (text "(i)")))))

-- The reply, under its label
unfoldable pub outcome : (ValidationResult → String) → RequestReply → Html RequestEvent
outcome print_result s = element "div" [] (
    (element "div" [] (
      (element "span" [] (text "Status:"))
      <> (element "span" (attr "class" ("badge " +s ((status_label s.result).1)) ∷ [])
          (text ((status_label s.result).0)))))
    <> (choose (timed_out s)
        (element "div" [] (text "No response received from processor service (timeout: 2s)"))
        (json_viewer (printed_result print_result s) none)))

-- One event
unfoldable pub timeline_row : Activity → Html RequestEvent
timeline_row ev = element "div" [] (
    (within "span" "mono-cell" (text ev.timestamp))
    <> (element "span" (attr "class" ("badge " +s (timeline_badge_class ev.event)) ∷ [])
        (text ev.event))
    <> (when (not (str_eq ev.worker "")) (within "span" "mono-cell" (text ev.worker))))

-- The events of the exchange
unfoldable pub timeline : List Activity → RequestReply → Html RequestEvent
timeline activities s = element "div" [] (
    (element "div" [] (text "Interaction Timeline"))
    <> (element "div" [] (each (λ ev. timeline_row ev) (timeline_events activities s))))

-- The panel
unfoldable pub view : (ValidationResult → String) → RequestProps → RequestReply → Html RequestEvent
view print_result props s = within "div" "panel" (
    (heading props.informs)
    <> (element "div" [] (
        (text "Demonstrates native NATS Request/Reply on")
        <> (text " ")
        <> (within "span" "mono-cell" (text "jobs.validate"))
        <> (text ". Toggle the Processor OFF to observe a natural timeout.")))
    <> (within "div" "form-group" (
        (element "label" (attr "class" "form-label" ∷ attr "htmlFor" "rrJobId" ∷ [])
          (text "Job ID"))
        <> (element "input"
            (attr "id" "rrJobId"
              ∷ attr "type" "text"
              ∷ attr "class" "form-input code"
              ∷ attr "value" s.job_id
              ∷ on_change set_job_id
              ∷ disabled s.is_sending
              ∷ [])
            nothing)))
    <> (within "div" "form-group" (
        (element "label" (attr "class" "form-label" ∷ attr "htmlFor" "rrJobType" ∷ [])
          (text "Job Type"))
        <> (element "select"
            (attr "id" "rrJobType"
              ∷ attr "class" "form-select"
              ∷ attr "value" s.job_type
              ∷ on_change set_job_type
              ∷ disabled s.is_sending
              ∷ [])
            ((element "option" (attr "value" "image-processing" ∷ []) (text "image-processing"))
              <> (element "option" (attr "value" "data-sync" ∷ []) (text "data-sync"))
              <> (element "option" (attr "value" "email-alert" ∷ []) (text "email-alert"))
              <> (element "option" (attr "value" "unknown-type" ∷ [])
                  (text "unknown-type (invalid)"))))))
    <> (within "div" "form-group" (
        (element "label" (attr "class" "form-label" ∷ attr "htmlFor" "rrPayload" ∷ [])
          (text "Payload (JSON)"))
        <> (element "textarea"
            (attr "id" "rrPayload"
              ∷ attr "class" "form-textarea code"
              ∷ attr "value" s.payload_str
              ∷ on_change set_payload_str
              ∷ disabled s.is_sending
              ∷ [])
            nothing)))
    <> (when (is_set s.json_error) (element "div" [] (text (or_default s.json_error ""))))
    <> (within "div" "btn-group" (
        element "button"
          (attr "type" "button"
            ∷ attr "class" "btn btn-primary"
            ∷ on_click send
            ∷ disabled s.is_sending
            ∷ [])
          (text (if s.is_sending then "Sending..." else "Send Request"))))
    <> (when (is_some s.result) (outcome print_result s))
    <> (when (ltb 0 (length (timeline_events props.activities s))) (timeline props.activities s)))
