-- ===== src/Publisher/Form.antt =====
-- The state of the publisher, frontend/src/components/CoreFlow/CoreFlowPublisher.tsx, and its
-- handlers that ask nothing of others. The delivery mode and the subject cannot be edited.
use nats_demo.Common.{ℕ, Bool, String, List, [], ◌∷◌, Option, none, some, ◌+s◌, decimal, take}
use nats_demo.Task.{Task, Result, ok, err, message}
use nats_demo.Api.{Json}
use nats_demo.Props.{Ask, Answer}
use nats_demo.Publisher.Headers.{CustomHeader}

pub record PublishedReceipt : Type 0 where
  pub job_id : String
  pub type : String
  pub subject : String
  pub delivery_mode : String
  pub msg_id : String
  pub timestamp : String

pub record Form : Type 0 where
  pub job_id : String
  pub job_type : String
  pub nats_msg_id : String
  pub source : String
  pub content_type : String
  pub custom_headers : List CustomHeader
  pub payload_str : String
  pub json_error : Option String
  pub published_history : List PublishedReceipt
  pub show_advanced_headers : Bool
  pub is_batch_publishing : Bool

abbrev pub FormHandler : Type 0
FormHandler = Task Form Ask Answer (Unit {0})

abbrev pub subject : String
subject = "jobs.submitted"

-- `setPublishedHistory((prev) => [receipt, ...prev.slice(0, 7)])`
unfoldable pub push_receipt : PublishedReceipt → Form → Form
push_receipt receipt s = record s { published_history = receipt ∷ take 7 s.published_history }

abbrev pub set_json_error : Option String → Form → Form
set_json_error e s = record s { json_error = e }

-- `num` is the number that the handler draws from 100 to 999.
unfoldable pub regen_job_id : ℕ → Form → Form
regen_job_id num s = record s { job_id = "job-" +s decimal num }

unfoldable pub regen_nats_msg_id : ℕ → Form → Form
regen_nats_msg_id num s = record s { nats_msg_id = "msg-" +s decimal num }

-- `JSON.parse` and `JSON.stringify(…, null, 2)` are given.
module _ (parse_json : String → Result Json) (print_json : Json → String) where
  unfoldable pub format_payload_json : Form → Form
  format_payload_json s = elim (parse_json s.payload_str) [
    | ok parsed ↦ record s { payload_str = print_json parsed; json_error = none }
    | err e ↦ set_json_error (some ("Invalid JSON: " +s message e)) s
  ]

-- The default payload is printed by `JSON.stringify`.
unfoldable pub reset_to_default_payload : (default_payload : String) → Form → Form
reset_to_default_payload default_payload s = record s {
  payload_str = default_payload;
  job_type = "image-processing";
  custom_headers = [];
  json_error = none;
}
