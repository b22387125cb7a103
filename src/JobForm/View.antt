-- ===== src/JobForm/View.antt =====
-- The markup of frontend/src/components/JobPanel.tsx, and what its elements start.
use nats_demo.Common.{ℕ, Bool, ◌||◌, String, [], ◌∷◌, str_eq, is_set, or_default, if◌then◌else◌}
use nats_demo.Task.{Result, done, update}
use nats_demo.Html.{
  Html, nothing, text, element, ◌<>◌, when, within, attr, submits, checked, disabled, on_click,
  on_submit, on_change,
}
use nats_demo.Api.{Json}
use nats_demo.Platform.{Platform}
use nats_demo.JobForm.{JobForm, JobFormHandler, handle_submit, handle_validate}

pub data JobEvent : Type 0 where
  show_info set_delivery_mode set_job_id set_job_type set_payload_str : String → JobEvent
  submit validate : JobEvent

-- `draw` is the number of the next identifier, where the present one has none to count up.
module _ (js : Platform) (parse_json : String → Result Json) where
  unfoldable pub react : JobEvent → (draw : ℕ) → JobForm → JobFormHandler
  react (show_info topic) draw s = done tt
  react (set_delivery_mode v) draw s = update (λ s'. record s' { delivery_mode = v })
  react (set_job_id v) draw s = update (λ s'. record s' { job_id = v })
  react (set_job_type v) draw s = update (λ s'. record s' { job_type = v })
  react (set_payload_str v) draw s = update (λ s'. record s' { payload_str = v })
  react submit draw s = handle_submit js parse_json s draw
  react validate draw s = handle_validate js parse_json s

-- The properties that the markup reads; `informs` tells whether `onShowInfo` was given.
pub record JobProps : Type 0 where
  pub informs : Bool
  pub is_submitting : Bool
  pub is_validating : Bool

-- The title, and the button marked (i)
unfoldable pub heading : JobProps → Html JobEvent
heading props = within "div" "panel-header" (
    element "div" [] (
      (within "h2" "panel-title" (text "Pub Sub"))
      <> (when props.informs (
          element "button"
            (attr "type" "button"
              ∷ attr "class" "node-info-btn"
              ∷ on_click (show_info "submit-job")
              ∷ attr "title" "Learn about Pub Sub"
              ∷ [])
            (text "(i)")))))

-- The delivery mode
unfoldable pub mode_field : JobProps → JobForm → Html JobEvent
mode_field props s = within "div" "form-group" (
    (within "label" "form-label" (text "Delivery Mode"))
    <> (element "div" [] (
        (element "label" [] (
          (element "input"
            (attr "type" "radio"
              ∷ attr "name" "deliveryMode"
              ∷ attr "value" "CORE"
              ∷ checked (str_eq s.delivery_mode "CORE")
              ∷ on_change (λ v. set_delivery_mode "CORE")
              ∷ disabled ((props.is_submitting) || (props.is_validating))
              ∷ [])
            nothing)
          <> (text "Core NATS (Transient)")))
        <> (element "label" [] (
            (element "input"
              (attr "type" "radio"
                ∷ attr "name" "deliveryMode"
                ∷ attr "value" "JETSTREAM"
                ∷ checked (str_eq s.delivery_mode "JETSTREAM")
                ∷ on_change (λ v. set_delivery_mode "JETSTREAM")
                ∷ disabled ((props.is_submitting) || (props.is_validating))
                ∷ [])
              nothing)
            <> (text "JetStream (Durable)"))))))

-- The two buttons
unfoldable pub buttons : JobProps → Html JobEvent
buttons props = within "div" "btn-group" (
    (element "button"
      (submits
        ∷ attr "class" "btn btn-primary"
        ∷ disabled ((props.is_submitting) || (props.is_validating))
        ∷ [])
      (text (if props.is_submitting then "Submitting..." else "Submit Job")))
    <> (element "button"
        (attr "type" "button"
          ∷ attr "class" "btn btn-secondary"
          ∷ on_click validate
          ∷ disabled ((props.is_submitting) || (props.is_validating))
          ∷ [])
        (text (if props.is_validating then "Validating..." else "Validate Job"))))

-- The panel
unfoldable pub view : JobProps → JobForm → Html JobEvent
view props s = within "div" "panel" (
    (heading props)
    <> (element "form" (on_submit submit ∷ []) (
        (mode_field props s)
        <> (within "div" "form-group" (
            (element "label" (attr "class" "form-label" ∷ attr "htmlFor" "jobId" ∷ [])
              (text "Job ID"))
            <> (element "input"
                (attr "id" "jobId"
                  ∷ attr "type" "text"
                  ∷ attr "class" "form-input code"
                  ∷ attr "value" s.job_id
                  ∷ on_change set_job_id
                  ∷ disabled ((props.is_submitting) || (props.is_validating))
                  ∷ [])
                nothing)))
        <> (within "div" "form-group" (
            (element "label" (attr "class" "form-label" ∷ attr "htmlFor" "jobType" ∷ [])
              (text "Job Type"))
            <> (element "select"
                (attr "id" "jobType"
                  ∷ attr "class" "form-select"
                  ∷ attr "value" s.job_type
                  ∷ on_change set_job_type
                  ∷ disabled ((props.is_submitting) || (props.is_validating))
                  ∷ [])
                ((element "option" (attr "value" "image-processing" ∷ []) (text "image-processing"))
                  <> (element "option" (attr "value" "data-sync" ∷ []) (text "data-sync"))
                  <> (element "option" (attr "value" "email-alert" ∷ []) (text "email-alert"))))))
        <> (within "div" "form-group" (
            (element "label" (attr "class" "form-label" ∷ attr "htmlFor" "payload" ∷ [])
              (text "Payload (JSON)"))
            <> (element "textarea"
                (attr "id" "payload"
                  ∷ attr "class" "form-textarea code"
                  ∷ attr "value" s.payload_str
                  ∷ on_change set_payload_str
                  ∷ disabled ((props.is_submitting) || (props.is_validating))
                  ∷ [])
                nothing)))
        <> (when (is_set s.json_error)
            (element "div" [] ((text "* ") <> (text (or_default s.json_error "")))))
        <> (buttons props))))
