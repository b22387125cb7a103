-- ===== src/Publisher/Fields.antt =====
-- The fields in the markup of frontend/src/components/CoreFlow/CoreFlowPublisher.tsx.
use nats_demo.Common.{◌==◌, [], ◌∷◌, ◌+s◌, decimal, length, ltb, if◌then◌else◌}
use nats_demo.Html.{
  Html, nothing, text, element, ◌<>◌, when, choose, each, within, attr, on_click, on_change,
}
use nats_demo.Publisher.Headers.{CustomHeader, key_field, value_field}
use nats_demo.Publisher.Form.{Form}
use nats_demo.Publisher.Acting.{
  PublishEvent, set_nats_msg_id, set_job_id, set_job_type, set_payload_str, remove_header,
  update_header, toggle_headers, add_header, regen_msg_id, regen_id, format_payload, reset_payload,
}

-- The identifier for deduplication, which may be empty
unfoldable pub msg_id_field : Form → Html PublishEvent
msg_id_field s = element "div" [] (
    (within "label" "form-label" (text "Nats-Msg-Id:"))
    <> (element "div" [] (
        (element "input"
          (attr "type" "text"
            ∷ attr "class" "form-input code"
            ∷ attr "value" s.nats_msg_id
            ∷ on_change set_nats_msg_id
            ∷ attr "placeholder" "optional (click Regen to set)"
            ∷ attr "title"
                "Optional NATS deduplication header. Safe to leave empty if dedup is not required."
            ∷ [])
          nothing)
        <> (element "button"
            (attr "type" "button"
              ∷ on_click regen_msg_id
              ∷ attr "title" "Generate Nats-Msg-Id for deduplication testing"
              ∷ [])
            (text "Regen")))))

-- One custom header
unfoldable pub header_row : CustomHeader → Html PublishEvent
header_row hdr = element "div" [] (
    (element "input"
      (attr "type" "text"
        ∷ attr "placeholder" "Header Key (e.g. X-Priority)"
        ∷ attr "class" "form-input code"
        ∷ attr "value" hdr.key
        ∷ on_change (λ v. update_header hdr.id key_field v)
        ∷ [])
      nothing)
    <> (element "input"
        (attr "type" "text"
          ∷ attr "placeholder" "Value (e.g. high)"
          ∷ attr "class" "form-input code"
          ∷ attr "value" hdr.value
          ∷ on_change (λ v. update_header hdr.id value_field v)
          ∷ [])
        nothing)
    <> (element "button"
        (attr "type" "button" ∷ on_click (remove_header hdr.id) ∷ attr "title" "Remove header" ∷ [])
        (text "x")))

-- The custom headers, shown where asked for
unfoldable pub custom_headers : Form → Html PublishEvent
custom_headers s = element "div" [] (
    (within "label" "form-label" (text "Custom Headers:"))
    <> (element "div" [] (
        (element "div" [] (
          (element "button" (attr "type" "button" ∷ on_click toggle_headers ∷ []) (
            (element "span" []
              (text (if s.show_advanced_headers then "[-] Hide" else "[+] Add / Manage")))
            <> (element "span" [] (
                text (
                  if ltb 0 (length s.custom_headers)
                  then "(" +s (decimal (length s.custom_headers)) +s ")"
                  else "")))))
          <> (when s.show_advanced_headers (
              element "button" (attr "type" "button" ∷ on_click add_header ∷ [])
                (text "+ Add Header")))))
        <> (when s.show_advanced_headers (
            element "div" [] (
              choose ((length s.custom_headers) == 0)
                (element "div" [] (
                  text
                    "No custom headers added. Click \"+ Add Header\" to append key-value pairs."))
                (element "div" [] (each (λ hdr. header_row hdr) s.custom_headers))))))))

-- The job's identifier
unfoldable pub job_fields : Form → Html PublishEvent
job_fields s = element "div" [] (
    (within "label" "form-label" (text "Job ID:"))
    <> (element "div" [] (
        (element "input"
          (attr "type" "text"
            ∷ attr "class" "form-input code"
            ∷ attr "value" s.job_id
            ∷ on_change set_job_id
            ∷ attr "placeholder" "e.g. job-101"
            ∷ attr "required" ""
            ∷ [])
          nothing)
        <> (element "button"
            (attr "type" "button" ∷ on_click regen_id ∷ attr "title" "Regenerate Job ID" ∷ [])
            (text "Regen")))))

-- The job's type
unfoldable pub type_field : Form → Html PublishEvent
type_field s = element "div" [] (
    (within "label" "form-label" (text "Job Type:"))
    <> (element "select"
        (attr "class" "form-select" ∷ attr "value" s.job_type ∷ on_change set_job_type ∷ [])
        ((element "option" (attr "value" "image-processing" ∷ []) (text "image-processing"))
          <> (element "option" (attr "value" "data-sync" ∷ []) (text "data-sync"))
          <> (element "option" (attr "value" "email-alert" ∷ []) (text "email-alert")))))

-- The payload
unfoldable pub payload_field : Form → Html PublishEvent
payload_field s = element "div" [] (
    (element "div" [] (
      (within "label" "form-label" (text "Payload (JSON):"))
      <> (element "div" [] (
          (element "button" (attr "type" "button" ∷ on_click format_payload ∷ [])
            (text "Format JSON"))
          <> (element "button" (attr "type" "button" ∷ on_click reset_payload ∷ [])
              (text "Reset Default"))))))
    <> (element "textarea"
        (attr "class" "form-textarea code"
          ∷ attr "value" s.payload_str
          ∷ on_change set_payload_str
          ∷ [])
        nothing))
