-- ===== src/DeadLetters/View.antt =====
-- The markup of frontend/src/components/DLQPanel.tsx; `informs` tells whether it was given `onShowInfo`.
use nats_demo.Common.{
  ℕ, Bool, [], ◌∷◌, none, some, ◌==◌, ◌+s◌, decimal, String, str_eq, ltb, length, substring,
  if◌then◌else◌,
}
use nats_demo.Html.{
  Html, nothing, text, element, ◌<>◌, when, choose, each, within, attr, disabled, on_click,
  on_change,
}
use nats_demo.Api.{DlqMessage}
use nats_demo.DeadLetters.{
  DlqPanel, is_initialized, stored_count, setup_disabled, cleanup_disabled, reprocess_disabled,
  purge_disabled,
}
use nats_demo.DeadLetters.Acting.{
  DlqEvent, show_info, refresh, setup, cleanup, send_failing, reprocess_all, purge,
  set_max_attempts, reprocess_single,
}

-- `dlqStatus?.pending ?? 0`
unfoldable pub pending_count : DlqPanel → ℕ
pending_count s = elim (s.dlq_status) [ none ↦ 0 | some d ↦ d.pending ]

-- `timestamp ? timestamp.substring(11, 19) : '-'`
unfoldable pub clock_of : String → String
clock_of timestamp = if str_eq timestamp "" then "-" else substring 11 8 timestamp

-- The title, the button marked (i) and that of refreshing
unfoldable pub heading : Bool → DlqPanel → Html DlqEvent
heading informs s = within "div" "panel-header" (
    (element "div" [] (
      (within "h2" "panel-title" (text "Dead Letter Queue"))
      <> (when informs (
          element "button"
            (attr "type" "button"
              ∷ attr "class" "node-info-btn"
              ∷ on_click (show_info "dead-letter-queue")
              ∷ attr "title" "Learn about JetStream Dead Letter Queue"
              ∷ [])
            (text "(i)")))))
    <> (element "button"
        (attr "type" "button"
          ∷ attr "class" "btn btn-secondary"
          ∷ on_click refresh
          ∷ disabled s.is_loading_dlq
          ∷ attr "title" "Refresh DLQ Stream and Consumer Status"
          ∷ [])
        (text (if s.is_loading_dlq then "Checking..." else "Refresh"))))

-- What the panel needs at the broker, and its two buttons
unfoldable pub lifecycle : DlqPanel → Html DlqEvent
lifecycle s = element "div" [] (
    (element "div" [] (
      (element "div" [] (
        (element "span" [] (text "Capability Scope:"))
        <> (element "span" []
            (text (if is_initialized s then "READY (JOBS_DLQ ACTIVE)" else "NOT PROVISIONED")))))
      <> (element "div" [] (
          (element "button"
            (attr "type" "button"
              ∷ attr "class" "btn btn-secondary"
              ∷ on_click setup
              ∷ disabled (setup_disabled s)
              ∷ attr "title" "Provision JOBS_DLQ stream and consumer in NATS"
              ∷ [])
            (text (if s.is_setting_up then "Provisioning..." else "Setup Prerequisites")))
          <> (element "button"
              (attr "type" "button"
                ∷ attr "class" "btn btn-secondary"
                ∷ on_click cleanup
                ∷ disabled (cleanup_disabled s)
                ∷ attr "title"
                    "Delete JOBS_DLQ stream and return NATS broker to clean default state"
                ∷ [])
              (text (if s.is_cleaning_up then "Cleaning..." else "Cleanup")))))))
    <> (element "div" [] (
        choose (is_initialized s)
          (element "span" [] (
            (element "code" [] (text "JOBS_DLQ"))
            <> (text " stream and ")
            <> (element "code" [] (text "dlq-inspector"))
            <> (text " are provisioned. Click ")
            <> (element "strong" [] (text "Cleanup"))
            <> (text " when done to avoid broker clutter.")))
          (element "span" [] (
            (text
              "Secondary objects are kept unprovisioned to ensure the primary NATS Demo CLI is clean. Click ")
            <> (element "strong" [] (text "Setup Prerequisites"))
            <> (text " to test DLQ."))))))

-- The stream and the consumer, with their counts
unfoldable pub resources : DlqPanel → Html DlqEvent
resources s = element "div" [] (
    (within "div" "readonly-box" (
      (element "span" [] (text "DLQ Stream"))
      <> (element "div" [] (
          (within "span" "mono-cell" (text "JOBS_DLQ"))
          <> (within "span" "node-badge" (
              (text (decimal (stored_count s)))
              <> (text " ")
              <> (text (if ((stored_count s) == 1) then "msg" else "msgs"))))))))
    <> (within "div" "readonly-box" (
        (element "span" [] (text "Consumer"))
        <> (element "div" [] (
            (within "span" "mono-cell" (text "dlq-inspector"))
            <> (within "span" "node-badge"
                ((text (decimal (pending_count s))) <> (text " pend"))))))))

-- The number of attempts, and the failing job
unfoldable pub simulation : DlqPanel → Html DlqEvent
simulation s = within "div" "form-group" (
    (within "label" "form-label" (
      (element "span" [] (text "Max Delivery Attempts"))
      <> (element "span" [] (text "Threshold before DLQ"))))
    <> (element "div" [] (
        (element "input"
          (attr "type" "number"
            ∷ attr "min" "1"
            ∷ attr "max" "10"
            ∷ attr "class" "input-field"
            ∷ attr "value" (decimal s.max_attempts)
            ∷ on_change set_max_attempts
            ∷ disabled s.is_submitting
            ∷ [])
          nothing)
        <> (element "button"
            (attr "type" "button"
              ∷ attr "class" "btn btn-danger"
              ∷ on_click send_failing
              ∷ disabled s.is_submitting
              ∷ [])
            (text (if s.is_submitting then "Simulating Failure..." else "Send Failing Job")))))
    <> (element "span" [] (
        (text "Fails and NAKs on each delivery attempt. At attempt ")
        <> (text (decimal s.max_attempts))
        <> (text ", the processor routes it to JOBS_DLQ and ACKs the original message."))))

-- Reprocessing all messages, and purging them
unfoldable pub operations : DlqPanel → Html DlqEvent
operations s = element "div" [] (
    (element "button"
      (attr "type" "button"
        ∷ attr "class" "btn btn-primary"
        ∷ on_click reprocess_all
        ∷ disabled (reprocess_disabled s)
        ∷ attr "title" "Replay all DLQ messages back into JOBS stream without failure simulation"
        ∷ [])
      (element "span" [] (
        text (
          if s.is_reprocessing
          then "Reprocessing..."
          else "Reprocess DLQ Messages (" +s (decimal (stored_count s)) +s ")"))))
    <> (element "button"
        (attr "type" "button"
          ∷ attr "class" "btn btn-secondary"
          ∷ on_click purge
          ∷ disabled (purge_disabled s)
          ∷ attr "title" "Purge all messages from JOBS_DLQ stream"
          ∷ [])
        (element "span" [] (text (if s.is_purging then "Purging..." else "Purge")))))

-- One message
unfoldable pub message_row : DlqPanel → DlqMessage → Html DlqEvent
message_row s msg = element "div" [] (
    (element "div" [] (
      (within "span" "mono-cell" (text msg.job_id))
      <> (element "div" [] (
          (element "span" [] (text (clock_of msg.timestamp)))
          <> (element "button"
              (attr "type" "button"
                ∷ attr "class" "btn btn-secondary"
                ∷ on_click (reprocess_single msg.job_id)
                ∷ disabled s.is_reprocessing
                ∷ attr "title" ("Replay " +s msg.job_id +s " back into JOBS stream")
                ∷ [])
              (text "Reprocess"))))))
    <> (element "div" [] (
        (element "span" (attr "title" msg.failure_reason ∷ []) (text msg.failure_reason))
        <> (within "span" "node-badge" ((text (decimal msg.delivery_attempts)) <> (text " att"))))))

-- The messages in the queue, each with its button
unfoldable pub captured : DlqPanel → Html DlqEvent
captured s = element "div" [] (
    (element "div" [] (
      (element "span" [] (text "MESSAGES IN JOBS_DLQ (")
        <> (text (decimal (length s.dlq_messages)))
        <> (text ")"))
      <> (when (ltb 0 (length s.dlq_messages))
          (element "span" [] ((text (decimal (length s.dlq_messages))) <> (text " captured"))))))
    <> (choose ((length s.dlq_messages) == 0)
        (element "div" [] (
          text
            "No messages in JOBS_DLQ. Click \"Send Failing Job\" to observe redeliveries and DLQ isolation."))
        (element "div" [] (each (λ msg. message_row s msg) s.dlq_messages))))

-- The panel
unfoldable pub view : Bool → DlqPanel → Html DlqEvent
view informs s = within "section" "panel dlq-panel" (
    (heading informs s)
    <> (element "div" [] (
        (text "Isolates failed messages into stream")
        <> (text " ")
        <> (within "span" "mono-cell" (text "JOBS_DLQ"))
        <> (text " ")
        <> (text "after exhausting delivery attempts.")))
    <> (lifecycle s)
    <> (resources s)
    <> (simulation s)
    <> (operations s)
    <> (captured s))
