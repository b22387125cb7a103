-- ===== src/Replay/View.antt =====
-- The markup of frontend/src/components/ReplayPanel.tsx but for its fields.
use nats_demo.Common.{
  not, String, [], ◌∷◌, Option, none, some, ◌==◌, ◌+s◌, decimal, ltb, is_set, is_some, or_text,
  or_default, if◌then◌else◌,
}
use nats_demo.Html.{
  Html, text, element, ◌<>◌, when, within, attr, submits, disabled, on_click, on_submit,
}
use nats_demo.Api.{JetStreamInfo}
use nats_demo.Replay.{ReplayForm, total_messages, first_seq, last_seq}
use nats_demo.Replay.Acting.{ReplayEvent, show_info, refresh, submit}
use nats_demo.Replay.Fields.{ReplayProps, is_sequence, position, sequence_fields, time_fields, pace}

-- `jetstreamInfo?.stream || 'JOBS'`
unfoldable pub shown_stream : Option JetStreamInfo → String
shown_stream none = "JOBS"
shown_stream (some info) = or_text info.stream "JOBS"

-- The two parts of the reply that are shown
unfoldable pub result_status : ReplayForm → String
result_status s = elim (s.result) [ none ↦ "" | some r ↦ r.status ]

unfoldable pub result_consumer : ReplayForm → String
result_consumer s = elim (s.result) [ none ↦ "" | some r ↦ r.consumer ]

-- The title, and the buttons of information and of refreshing
unfoldable pub heading : ReplayProps → ReplayForm → Html ReplayEvent
heading props s = within "div" "panel-header" (
    (element "div" [] (
      (within "h2" "panel-title" (text "JetStream Replay"))
      <> (when props.informs (
          element "button"
            (attr "type" "button"
              ∷ attr "class" "node-info-btn"
              ∷ on_click (show_info "jetstream-replay")
              ∷ attr "title" "Learn about JetStream Replay"
              ∷ [])
            (text "(i)")))))
    <> (when props.refreshes (
        element "button"
          (attr "type" "button"
            ∷ attr "class" "btn btn-secondary"
            ∷ on_click refresh
            ∷ disabled props.is_refreshing
            ∷ [])
          (text (if props.is_refreshing then "Checking..." else "Refresh")))))

-- The stream, with what it holds
unfoldable pub stored : ReplayProps → ReplayForm → Html ReplayEvent
stored props s = within "div" "form-group" (
    (within "label" "form-label" (text "Stream"))
    <> (within "div" "readonly-box" (
        (element "div" [] (
          (within "span" "mono-cell" (text (shown_stream props.jetstream_info)))
          <> (within "span" "node-badge" (
              (text (decimal (total_messages props.jetstream_info)))
              <> (text " stored ")
              <> (text (if ((total_messages props.jetstream_info) == 1) then "msg" else "msgs"))))))
        <> (element "span" [] (
            text (
              if ltb 0 (last_seq props.jetstream_info)
              then "Seq #"
                +s (decimal (first_seq props.jetstream_info))
                +s " - #"
                +s (decimal (last_seq props.jetstream_info))
              else "Stream Empty"))))))

-- The panel
unfoldable pub view : ReplayProps → ReplayForm → Html ReplayEvent
view props s = within "div" "panel" (
    (heading props s)
    <> (element "form" (on_submit submit ∷ []) (
        (stored props s)
        <> (when ((total_messages props.jetstream_info) == 0) (
            element "div" [] (
              (text "No historical messages currently stored in ")
              <> (element "strong" [] (text (shown_stream props.jetstream_info)))
              <> (text
                  ". Submit jobs first via the Pub/Sub panel to populate the stream for replay."))))
        <> (position props s)
        <> (when (is_sequence s) (sequence_fields props s))
        <> (when (not (is_sequence s)) (time_fields props s))
        <> (pace props s)
        <> (when (is_set s.error)
            (element "div" [] ((text "* ") <> (text (or_default s.error "")))))
        <> (when (is_some s.result) (
            element "div" [] (
              (text "* Replay: ")
              <> (text (result_status s))
              <> (text " (Consumer: ")
              <> (text (result_consumer s))
              <> (text ")"))))
        <> (element "button" (submits ∷ attr "class" "btn btn-primary" ∷ disabled s.is_loading ∷ [])
            (text (if s.is_loading then "Triggering..." else "Start Replay"))))))
