-- ===== src/DelayedRetry/View.antt =====
-- The markup of frontend/src/components/DelayedRetryPanel.tsx.
use nats_demo.Common.{Bool, ◌||◌, [], ◌∷◌, ◌+s◌, decimal, is_set, or_default, if◌then◌else◌}
use nats_demo.Html.{
  Html, nothing, text, element, ◌<>◌, when, within, attr, disabled, on_click, on_change,
}
use nats_demo.DelayedRetry.{DelayedRetry}
use nats_demo.DelayedRetry.Acting.{
  RetryEvent, show_info, set_nak_job_id, set_nak_delay, set_ack_wait_job_id, set_sched_job_id,
  set_sched_delay, trigger_nak, trigger_ack_wait, trigger_schedule,
}

-- The properties that the markup reads; `informs` tells whether `onShowInfo` was given.
pub record RetryProps : Type 0 where
  pub informs : Bool
  pub is_submitting : Bool

-- The title, and the button marked (i)
unfoldable pub heading : RetryProps → Html RetryEvent
heading props = within "div" "panel-header" (
    element "div" [] (
      (within "h2" "panel-title" (text "Delayed & Retry Delivery Lab"))
      <> (when props.informs (
          element "button"
            (attr "type" "button"
              ∷ attr "class" "node-info-btn"
              ∷ on_click (show_info "delayed-retry-delivery")
              ∷ attr "title" "Learn about Delayed and Retry Delivery in NATS"
              ∷ [])
            (text "(i)")))))

-- The card of an explicit delay
unfoldable pub nak_card : RetryProps → DelayedRetry → Html RetryEvent
nak_card props s = element "div" [] (
    (element "div" [] (
      (element "div" [] (
        (element "span" [] (text "Scenario 1: Explicit Retry"))
        <> (within "span" "badge badge-info" (text "JetStream"))))
      <> (element "h3" [] (text "NAK with Delay"))
      <> (element "p" [] (
          (text
            "Worker handles transient failure and explicitly requests a redelivery backoff window via ")
          <> (element "code" [] (text "msg.NakWithDelay(5s)"))
          <> (text ".")))
      <> (element "div" [] (
          (element "div" [] (text "t=0s: Delivered -> Worker NAKs"))
          <> (element "div" [] (text "t=0s-5s: Quiet backoff window"))
          <> (element "div" [] (text "t=5s: Redelivered & Completed"))))
      <> (within "div" "form-group" (
          (within "label" "form-label" (text "Job ID"))
          <> (element "input"
              (attr "type" "text"
                ∷ attr "class" "form-input"
                ∷ attr "value" s.nak_job_id
                ∷ on_change set_nak_job_id
                ∷ attr "placeholder" "nak-job-101"
                ∷ [])
              nothing)))
      <> (within "div" "form-group" (
          (within "label" "form-label" (text "Retry Delay (Seconds)"))
          <> (element "select"
              (attr "class" "form-select"
                ∷ attr "value" (decimal s.nak_delay_sec)
                ∷ on_change set_nak_delay
                ∷ [])
              ((element "option" (attr "value" (decimal 3) ∷ []) (text "3 Seconds"))
                <> (element "option" (attr "value" (decimal 5) ∷ [])
                    (text "5 Seconds (Recommended)"))
                <> (element "option" (attr "value" (decimal 10) ∷ []) (text "10 Seconds"))))))))
    <> (element "div" [] (
        (element "button"
          (attr "type" "button"
            ∷ attr "class" "btn btn-primary"
            ∷ on_click trigger_nak
            ∷ disabled ((s.is_submitting_nak) || (props.is_submitting))
            ∷ [])
          (text (
            if s.is_submitting_nak
            then "Submitting..."
            else "Trigger NAK with " +s (decimal s.nak_delay_sec) +s "s Delay")))
        <> (when (is_set s.nak_status) (element "div" [] (text (or_default s.nak_status "")))))))

-- The card of a missing acknowledgement
unfoldable pub ack_wait_card : RetryProps → DelayedRetry → Html RetryEvent
ack_wait_card props s = element "div" [] (
    (element "div" [] (
      (element "div" [] (
        (element "span" [] (text "Scenario 2: Missing ACK"))
        <> (within "span" "badge badge-warning" (text "Consumer"))))
      <> (element "h3" [] (text "AckWait Timeout"))
      <> (element "p" [] (
          (text "Worker receives the message but crashes/hangs without calling ACK. JetStream ")
          <> (element "code" [] (text "AckWait (5s)"))
          <> (text " timer fires and redelivers.")))
      <> (element "div" [] (
          (element "div" [] (text "t=0s: Delivered to Worker-1"))
          <> (element "div" [] (text "t=0s-5s: Worker hangs (No ACK)"))
          <> (element "div" [] (text "t=5s: Redelivered to Worker-2"))))
      <> (within "div" "form-group" (
          (within "label" "form-label" (text "Job ID"))
          <> (element "input"
              (attr "type" "text"
                ∷ attr "class" "form-input"
                ∷ attr "value" s.ack_wait_job_id
                ∷ on_change set_ack_wait_job_id
                ∷ attr "placeholder" "ackwait-job-101"
                ∷ [])
              nothing)))
      <> (within "div" "form-group" (
          (within "label" "form-label" (text "Consumer AckWait Timer"))
          <> (within "div" "mono-cell" (text "AckWait = 5s (Fixed Consumer Setting)"))))))
    <> (element "div" [] (
        (element "button"
          (attr "type" "button"
            ∷ attr "class" "btn btn-primary"
            ∷ on_click trigger_ack_wait
            ∷ disabled ((s.is_submitting_ack_wait) || (props.is_submitting))
            ∷ [])
          (text (
            if s.is_submitting_ack_wait
            then "Simulating..."
            else "Trigger Missing ACK (5s AckWait)")))
        <> (when (is_set s.ack_wait_status)
            (element "div" [] (text (or_default s.ack_wait_status "")))))))

-- The card of a delayed publication
unfoldable pub schedule_card : RetryProps → DelayedRetry → Html RetryEvent
schedule_card props s = element "div" [] (
    (element "div" [] (
      (element "div" [] (
        (element "span" [] (text "Scenario 3: Deferred Publish"))
        <> (within "span" "badge badge-purple" (text "App Scheduler"))))
      <> (element "h3" [] (text "Scheduled Delivery"))
      <> (element "p" [] (
          text
            "Demonstrates application-level scheduled delivery. Message is held by an application timer and published only when due."))
      <> (element "div" [] (
          (element "div" [] (text "t=0s: Registered as SCHEDULED"))
          <> (element "div" [] (text "t=0s-5s: App Timer waits"))
          <> (element "div" [] (text "t=5s: Published & Delivered"))))
      <> (within "div" "form-group" (
          (within "label" "form-label" (text "Job ID"))
          <> (element "input"
              (attr "type" "text"
                ∷ attr "class" "form-input"
                ∷ attr "value" s.sched_job_id
                ∷ on_change set_sched_job_id
                ∷ attr "placeholder" "sched-job-101"
                ∷ [])
              nothing)))
      <> (within "div" "form-group" (
          (within "label" "form-label" (text "Schedule Delay (Seconds)"))
          <> (element "select"
              (attr "class" "form-select"
                ∷ attr "value" (decimal s.sched_delay_sec)
                ∷ on_change set_sched_delay
                ∷ [])
              ((element "option" (attr "value" (decimal 3) ∷ []) (text "3 Seconds"))
                <> (element "option" (attr "value" (decimal 5) ∷ [])
                    (text "5 Seconds (Recommended)"))
                <> (element "option" (attr "value" (decimal 10) ∷ []) (text "10 Seconds"))))))))
    <> (element "div" [] (
        (element "button"
          (attr "type" "button"
            ∷ attr "class" "btn btn-primary"
            ∷ on_click trigger_schedule
            ∷ disabled ((s.is_scheduling) || (props.is_submitting))
            ∷ [])
          (text (
            if s.is_scheduling
            then "Scheduling..."
            else "Schedule Job (" +s (decimal s.sched_delay_sec) +s "s Delay)")))
        <> (when (is_set s.sched_status)
            (element "div" [] (text (or_default s.sched_status "")))))))

-- The three in a sentence each
unfoldable pub footer : Html RetryEvent
footer = element "div" [] (
    element "div" [] (
      (element "div" [] (
        (element "strong" [] (text "NAK + Delay:"))
        <> (text " \"Worker says: retry me after X seconds.\"")))
      <> (element "div" [] (
          (element "strong" [] (text "AckWait:"))
          <> (text " \"Broker says: no ACK received in 5s; redelivering.\"")))
      <> (element "div" [] (
          (element "strong" [] (text "Scheduler:"))
          <> (text " \"App says: do not publish to NATS until scheduled time.\"")))))

-- The panel
unfoldable pub view : RetryProps → DelayedRetry → Html RetryEvent
view props s = within "div" "panel" (
    (heading props)
    <> (element "div" [] (text "Compare explicit retry delays (")
        <> (element "code" [] (text "msg.NakWithDelay"))
        <> (text "), missing ACK timeouts (")
        <> (element "code" [] (text "AckWait"))
        <> (text "), and application-level scheduled releases."))
    <> (element "div" [] ((nak_card props s) <> (ack_wait_card props s) <> (schedule_card props s)))
    <> footer)
