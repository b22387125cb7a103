-- ===== src/Publisher/View.antt =====
-- The markup of frontend/src/components/CoreFlow/CoreFlowPublisher.tsx but for its fields.
use nats_demo.Common.{◌==◌, Bool, ◌||◌, [], ◌∷◌, length, is_set, or_default, if◌then◌else◌}
use nats_demo.Html.{
  Html, nothing, text, element, ◌<>◌, when, choose, each, within, attr, submits, disabled, on_click,
  on_submit, on_change,
}
use nats_demo.Publisher.Form.{PublishedReceipt, Form, subject}
use nats_demo.Publisher.Acting.{PublishEvent, show_info, set_content_type, set_source, send, batch}
use nats_demo.Publisher.Fields.{msg_id_field, custom_headers, job_fields, type_field, payload_field}

-- The properties that the markup reads; `informs` tells whether `onShowInfo` was given.
pub record PublisherProps : Type 0 where
  pub informs : Bool
  pub is_submitting : Bool

-- The title, and the button marked (i)
unfoldable pub heading : PublisherProps → Html PublishEvent
heading props = within "div" "panel-header" (
    (element "div" [] (
      (element "span" [] (text "STAGE 1")) <> (within "h2" "panel-title" (text "Publish Message"))))
    <> (when props.informs (
        element "button"
          (attr "type" "button"
            ∷ attr "class" "node-info-btn"
            ∷ on_click (show_info "submit-job")
            ∷ attr "title" "Learn about NATS Message Publishing and Envelope Headers"
            ∷ [])
          (text "(i)"))))

-- The transport, which is always the same
unfoldable pub transport : Html PublishEvent
transport = element "div" [] (
    element "div" [] (
      (element "div" []
        ((element "span" [] nothing) <> (element "strong" [] (text "Transport: NATS JetStream"))))
      <> (element "span" [] (text "Stream: JOBS"))))

-- The three buttons that publish
unfoldable pub actions : PublisherProps → Form → Html PublishEvent
actions props s = element "div" [] (
    (element "button"
      (submits
        ∷ attr "class" "btn btn-primary"
        ∷ disabled ((props.is_submitting) || (s.is_batch_publishing))
        ∷ [])
      (choose props.is_submitting (element "span" [] (text "Publishing..."))
        (element "span" [] (text "Publish Message ->"))))
    <> (element "button"
        (attr "type" "button"
          ∷ on_click (batch 3)
          ∷ disabled ((props.is_submitting) || (s.is_batch_publishing))
          ∷ attr "title"
              "Publish a burst of 3 concurrent messages to test out-of-order execution, hole safety, or consumer batch fetch"
          ∷ [])
        (text (if s.is_batch_publishing then "3x..." else "Batch (3 Jobs)")))
    <> (element "button"
        (attr "type" "button"
          ∷ on_click (batch 6)
          ∷ disabled ((props.is_submitting) || (s.is_batch_publishing))
          ∷ attr "title"
              "Publish a burst of 6 concurrent messages to demonstrate worker pool throughput and horizontal scaling"
          ∷ [])
        (text (if s.is_batch_publishing then "6x..." else "Batch (6 Jobs)"))))

-- One message of the log
unfoldable pub receipt_row : PublishedReceipt → Html PublishEvent
receipt_row item = element "div" [] (
    (element "div" [] (
      (element "span" [] (text "[OK]"))
      <> (element "span" [] (text item.job_id))
      <> (element "span" [] ((text "[") <> (text item.subject) <> (text "]")))
      <> (element "span" [] (text "(") <> (text item.delivery_mode) <> (text ")"))))
    <> (element "span" [] (text item.timestamp)))

-- The log of what was published
unfoldable pub history : Form → Html PublishEvent
history s = element "div" [] (
    (element "div" [] (text "Message Publication Log:"))
    <> (choose ((length s.published_history) == 0)
        (element "div" [] (text "No messages published yet in this session."))
        (element "div" [] (each (λ item. receipt_row item) s.published_history))))

-- The publisher
unfoldable pub view : PublisherProps → Form → Html PublishEvent
view props s = within "div" "panel" (
    (heading props)
    <> transport
    <> (element "form" (on_submit send ∷ []) (
        (element "div" [] (
          (within "label" "form-label" (text "Subject:"))
          <> (element "input"
              (attr "type" "text"
                ∷ attr "class" "form-input code"
                ∷ attr "value" subject
                ∷ attr "readOnly" ""
                ∷ attr "title"
                    "Subject is the target topic for NATS publication. Fixed to jobs.submitted in this demo."
                ∷ [])
              nothing)))
        <> (msg_id_field s)
        <> (element "div" [] (
            (within "label" "form-label" (text "Content-Type:"))
            <> (element "input"
                (attr "type" "text"
                  ∷ attr "class" "form-input"
                  ∷ attr "value" s.content_type
                  ∷ on_change set_content_type
                  ∷ attr "placeholder" "application/json"
                  ∷ [])
                nothing)))
        <> (element "div" [] (
            (within "label" "form-label" (text "X-Source:"))
            <> (element "input"
                (attr "type" "text"
                  ∷ attr "class" "form-input code"
                  ∷ attr "value" s.source
                  ∷ on_change set_source
                  ∷ attr "placeholder" "e.g. job-service"
                  ∷ [])
                nothing)))
        <> (element "div" [] (
            (within "label" "form-label" (text "X-Delivery-Mode:"))
            <> (element "input"
                (attr "type" "text"
                  ∷ attr "class" "form-input code"
                  ∷ attr "value" "JETSTREAM"
                  ∷ attr "readOnly" ""
                  ∷ [])
                nothing)))
        <> (custom_headers s)
        <> (element "div" [] (text "Payload"))
        <> (job_fields s)
        <> (type_field s)
        <> (payload_field s)
        <> (when (is_set s.json_error)
            (element "div" [] ((text "* ") <> (text (or_default s.json_error "")))))
        <> (actions props s)))
    <> (history s))
