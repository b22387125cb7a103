-- ===== src/Deduplication/View.antt =====
-- The markup of frontend/src/components/DeduplicationPanel.tsx, and what its elements start.
use nats_demo.Common.{ℕ, Bool, true, false, String, [], ◌∷◌, is_set, or_default, if◌then◌else◌}
use nats_demo.Task.{Task, done, update}
use nats_demo.Html.{
  Html, nothing, text, element, ◌<>◌, when, within, attr, disabled, on_click, on_submit, on_change,
}
use nats_demo.Platform.{Platform}
use nats_demo.Props.{Ask, Answer}
use nats_demo.Deduplication.{Deduplication, handle_publish}

pub data DedupEvent : Type 0 where
  show_info set_msg_id : String → DedupEvent
  publish : (is_duplicate_attempt : Bool) → DedupEvent

-- Nothing is drawn at random.
module _ (js : Platform) where
  unfoldable pub react :
      DedupEvent → (draw : ℕ) → Deduplication → Task Deduplication Ask Answer (Unit {0})
  react (show_info topic) draw s = done tt
  react (set_msg_id v) draw s = update (λ s'. record s' { msg_id = v })
  react (publish is_duplicate_attempt) draw s = handle_publish js s is_duplicate_attempt

-- The properties that the markup reads; `informs` tells whether `onShowInfo` was given.
pub record DedupProps : Type 0 where
  pub informs : Bool
  pub is_submitting : Bool

-- The title, and the button marked (i)
unfoldable pub heading : DedupProps → Html DedupEvent
heading props = within "div" "panel-header" (
    element "div" [] (
      (within "h2" "panel-title" (text "Message Deduplication"))
      <> (when props.informs (
          element "button"
            (attr "type" "button"
              ∷ attr "class" "node-info-btn"
              ∷ on_click (show_info "message-deduplication")
              ∷ attr "title" "Learn about Message Deduplication"
              ∷ [])
            (text "(i)")))))

-- The settings of the stream
unfoldable pub settings : Html DedupEvent
settings = element "div" [] (
    (element "div" [] (
      (element "div" [] (text "Stream Config:"))
      <> (within "div" "mono-cell" (text "Duplicates = 2m 0s (120s window)"))))
    <> (element "div" [] (
        (element "div" [] (text "Message ID Header:"))
        <> (within "div" "mono-cell" (text "Nats-Msg-Id"))))
    <> (element "div" [] (
        (element "div" [] (text "Target Stream:"))
        <> (within "div" "mono-cell" (text "JOBS (Subject: jobs.submitted)")))))

-- The identifier, and the two buttons
unfoldable pub form : DedupProps → Deduplication → Html DedupEvent
form props s = element "form" (on_submit (publish false) ∷ []) (
    (within "div" "form-group" (
      (element "label" (attr "class" "form-label" ∷ attr "htmlFor" "dedupMsgId" ∷ [])
        (text "Message ID (Nats-Msg-Id)"))
      <> (element "input"
          (attr "id" "dedupMsgId"
            ∷ attr "type" "text"
            ∷ attr "class" "form-input code"
            ∷ attr "value" s.msg_id
            ∷ on_change set_msg_id
            ∷ attr "placeholder" "e.g. dedup-msg-101"
            ∷ disabled props.is_submitting
            ∷ [])
          nothing)))
    <> (when (is_set s.error_message)
        (element "div" [] ((text "* ") <> (text (or_default s.error_message "")))))
    <> (when (is_set s.status_message) (element "div" [] (text (or_default s.status_message ""))))
    <> (within "div" "btn-group" (
        (element "button"
          (attr "type" "button"
            ∷ attr "class" "btn btn-primary"
            ∷ disabled props.is_submitting
            ∷ on_click (publish false)
            ∷ [])
          (text (if props.is_submitting then "Publishing..." else "Publish (1st)")))
        <> (element "button"
            (attr "type" "button"
              ∷ attr "class" "btn btn-secondary"
              ∷ disabled props.is_submitting
              ∷ on_click (publish true)
              ∷ [])
            (text (if props.is_submitting then "Publishing..." else "Publish Duplicate"))))))

-- The panel
unfoldable pub view : DedupProps → Deduplication → Html DedupEvent
view props s = within "div" "panel" (
    (heading props)
    <> (element "div" []
        (text "Demonstrates JetStream server-side message deduplication using Nats-Msg-Id."))
    <> settings
    <> (form props s))
