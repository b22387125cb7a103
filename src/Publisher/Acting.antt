-- ===== src/Publisher/Acting.antt =====
-- What the elements of frontend/src/components/CoreFlow/CoreFlowPublisher.tsx start.
use nats_demo.Common.{ℕ, false, not, String, [], none, ◌+s◌, decimal}
use nats_demo.Task.{Result, done, update}
use nats_demo.Api.{Json}
use nats_demo.Platform.{Platform}
use nats_demo.Publisher.Headers.{
  HeaderField, add_custom_header, update_custom_header, remove_custom_header,
}
use nats_demo.Publisher.Form.{
  Form, FormHandler, regen_job_id, regen_nats_msg_id, format_payload_json, reset_to_default_payload,
}
use nats_demo.Publisher.Send.{handle_send, handle_batch_publish}

pub data PublishEvent : Type 0 where
  show_info set_nats_msg_id set_content_type set_source set_job_id set_job_type set_payload_str :
      String → PublishEvent
  remove_header : (id : String) → PublishEvent
  update_header : (id : String) → HeaderField → String → PublishEvent
  toggle_headers add_header regen_msg_id regen_id format_payload reset_payload send : PublishEvent
  batch : (count : ℕ) → PublishEvent

-- What a handler finds that starts at the n-th moment: the number it draws, the identifier it makes for
-- a header, and the time at each of its receipts
pub record Moments : Type 0 where
  pub drawn : ℕ → ℕ
  pub row_id : ℕ → String
  pub time : ℕ → ℕ → String

-- What the component is given by JavaScript, with the default payload as it is printed
pub record Given : Type 0 where
  pub js : Platform
  pub parse_json : String → Result Json
  pub print_json : Json → String
  pub default_payload : String
  pub moments : Moments

-- `s` is the state of the render whose element is used.
unfoldable pub react : Given → PublishEvent → (moment : ℕ) → Form → FormHandler
react w (show_info topic) n s = done tt
react w (set_nats_msg_id v) n s = update (λ s'. record s' { nats_msg_id = v })
react w (set_content_type v) n s = update (λ s'. record s' { content_type = v })
react w (set_source v) n s = update (λ s'. record s' { source = v })
react w (set_job_id v) n s = update (λ s'. record s' { job_id = v })
react w (set_job_type v) n s = update (λ s'. record s' { job_type = v })
react w (set_payload_str v) n s = update (λ s'. record s' { payload_str = v })
react w (remove_header id) n s =
    update (λ s'. record s' { custom_headers = remove_custom_header id s'.custom_headers })
react w (update_header id field v) n s =
    update (λ s'. record s' { custom_headers = update_custom_header id field v s'.custom_headers })
react w toggle_headers n s =
    update (λ s'. record s' { show_advanced_headers = not s.show_advanced_headers })
react w add_header n s =
    update (λ s'. record s' {
      custom_headers = add_custom_header (w.moments.row_id n) s'.custom_headers;
    })
react w regen_msg_id n s = update (regen_nats_msg_id (w.moments.drawn n))
react w regen_id n s = update (regen_job_id (w.moments.drawn n))
react w format_payload n s = update (format_payload_json w.parse_json w.print_json)
react w reset_payload n s = update (reset_to_default_payload w.default_payload)
react w send n s = handle_send w.js w.parse_json s (w.moments.drawn n) (w.moments.time n 0)
react w (batch count) n s =
    handle_batch_publish w.js w.parse_json s count (w.moments.drawn n) (w.moments.time n)

-- As it is mounted: `drawn` and `default_payload` are the first number and the payload's text.
abbrev pub initial : (drawn : ℕ) → (default_payload : String) → Form
initial drawn default_payload = record {
  job_id = "job-" +s decimal drawn;
  job_type = "image-processing";
  nats_msg_id = "";
  source = "job-service";
  content_type = "application/json";
  custom_headers = [];
  payload_str = default_payload;
  json_error = none;
  published_history = [];
  show_advanced_headers = false;
  is_batch_publishing = false;
}
