-- ===== src/Replay/Fields.antt =====
-- The fields in the markup of frontend/src/components/ReplayPanel.tsx.
use nats_demo.Common.{Bool, true, false, not, [], ◌∷◌, Option, decimal, ltb}
use nats_demo.Html.{
  Html, nothing, text, element, ◌<>◌, when, within, attr, checked, disabled, on_change,
}
use nats_demo.Api.{JetStreamInfo, sequence, time, instant, original}
use nats_demo.Replay.{ReplayForm, total_messages, first_seq, last_seq}
use nats_demo.Replay.Acting.{
  ReplayEvent, set_start_seq, set_end_seq, set_start_time, set_end_time, set_from, set_mode,
}

-- The properties that the markup reads; `informs` and `refreshes` tell whether `onShowInfo` and
-- `onRefresh` were given.
pub record ReplayProps : Type 0 where
  pub informs : Bool
  pub refreshes : Bool
  pub is_refreshing : Bool
  pub jetstream_info : Option JetStreamInfo

unfoldable pub is_sequence : ReplayForm → Bool
is_sequence s = elim (s.replay_from) [ sequence ↦ true | time ↦ false ]

unfoldable pub is_instant : ReplayForm → Bool
is_instant s = elim (s.replay_mode) [ instant ↦ true | original ↦ false ]

-- From where to replay
unfoldable pub position : ReplayProps → ReplayForm → Html ReplayEvent
position props s = within "div" "form-group" (
    (within "label" "form-label" (text "Replay From"))
    <> (element "div" [] (
        (within "label" "radio-label" (
          (element "input"
            (attr "type" "radio"
              ∷ attr "name" "replayFrom"
              ∷ attr "value" "sequence"
              ∷ checked (is_sequence s)
              ∷ on_change (λ v. set_from sequence)
              ∷ disabled s.is_loading
              ∷ [])
            nothing)
          <> (element "span" [] (text "Sequence"))))
        <> (within "label" "radio-label" (
            (element "input"
              (attr "type" "radio"
                ∷ attr "name" "replayFrom"
                ∷ attr "value" "time"
                ∷ checked (not (is_sequence s))
                ∷ on_change (λ v. set_from time)
                ∷ disabled s.is_loading
                ∷ [])
              nothing)
            <> (element "span" [] (text "Time")))))))

-- The range by sequence
unfoldable pub sequence_fields : ReplayProps → ReplayForm → Html ReplayEvent
sequence_fields props s = within "div" "form-row-2col" (
    (within "div" "form-group" (
      (element "div" [] (
        (element "label" (attr "class" "form-label" ∷ attr "htmlFor" "startSeq" ∷ [])
          (text "Start Sequence"))
        <> (when (ltb 0 (total_messages props.jetstream_info)) (
            element "span" []
              ((text "First: #") <> (text (decimal (first_seq props.jetstream_info))))))))
      <> (element "input"
          (attr "id" "startSeq"
            ∷ attr "type" "number"
            ∷ attr "min" "1"
            ∷ attr "class" "form-input code"
            ∷ attr "value" s.start_seq
            ∷ on_change set_start_seq
            ∷ disabled s.is_loading
            ∷ [])
          nothing)))
    <> (within "div" "form-group" (
        (element "div" [] (
          (element "label" (attr "class" "form-label" ∷ attr "htmlFor" "endSeq" ∷ [])
            (text "End Sequence"))
          <> (when (ltb 0 (total_messages props.jetstream_info)) (
              element "span" []
                ((text "Last: #") <> (text (decimal (last_seq props.jetstream_info))))))))
        <> (element "input"
            (attr "id" "endSeq"
              ∷ attr "type" "number"
              ∷ attr "min" "1"
              ∷ attr "class" "form-input code"
              ∷ attr "value" s.end_seq
              ∷ on_change set_end_seq
              ∷ disabled s.is_loading
              ∷ [])
            nothing))))

-- The range by time
unfoldable pub time_fields : ReplayProps → ReplayForm → Html ReplayEvent
time_fields props s = within "div" "form-row-2col" (
    (within "div" "form-group" (
      (element "label" (attr "class" "form-label" ∷ attr "htmlFor" "startTime" ∷ [])
        (text "Start Time"))
      <> (element "input"
          (attr "id" "startTime"
            ∷ attr "type" "datetime-local"
            ∷ attr "class" "form-input code"
            ∷ attr "value" s.start_time
            ∷ on_change set_start_time
            ∷ disabled s.is_loading
            ∷ [])
          nothing)))
    <> (within "div" "form-group" (
        (element "label" (attr "class" "form-label" ∷ attr "htmlFor" "endTime" ∷ [])
          (text "End Time"))
        <> (element "input"
            (attr "id" "endTime"
              ∷ attr "type" "datetime-local"
              ∷ attr "class" "form-input code"
              ∷ attr "value" s.end_time
              ∷ on_change set_end_time
              ∷ disabled s.is_loading
              ∷ [])
            nothing))))

-- At what pace to replay
unfoldable pub pace : ReplayProps → ReplayForm → Html ReplayEvent
pace props s = within "div" "form-group" (
    (within "label" "form-label" (text "Replay Mode"))
    <> (element "div" [] (
        (within "label" "radio-label" (
          (element "input"
            (attr "type" "radio"
              ∷ attr "name" "replayMode"
              ∷ attr "value" "instant"
              ∷ checked (is_instant s)
              ∷ on_change (λ v. set_mode instant)
              ∷ disabled s.is_loading
              ∷ [])
            nothing)
          <> (element "span" [] (text "Instant"))))
        <> (within "label" "radio-label" (
            (element "input"
              (attr "type" "radio"
                ∷ attr "name" "replayMode"
                ∷ attr "value" "original"
                ∷ checked (not (is_instant s))
                ∷ on_change (λ v. set_mode original)
                ∷ disabled s.is_loading
                ∷ [])
              nothing)
            <> (element "span" [] (text "Original Timing")))))))
