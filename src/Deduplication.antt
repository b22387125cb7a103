-- ===== src/Deduplication.antt =====
-- The panel of deduplication, frontend/src/components/DeduplicationPanel.tsx: its state and the
-- publication of a message or of its duplicate.
pub mod Laws
pub mod View
mod Busy
mod Tests
use nats_demo.Common.{Bool, true, false, String, Option, none, some, ◌+s◌, str_eq, if◌then◌else◌}
use nats_demo.Task.{Task, message_or, update, catching, ◌>>=◌, ◌>>◌}
use nats_demo.Api.{Job, bool, str, obj, end, field}
use nats_demo.Platform.{Platform}
use nats_demo.Props.{Ask, Answer, await_submit}

pub record Deduplication : Type 0 where
  pub msg_id : String
  pub status_message : Option String
  pub error_message : Option String

abbrev pub set_status : Option String → Deduplication → Deduplication
set_status o s = record s { status_message = o }

abbrev pub set_error : Option String → Deduplication → Deduplication
set_error o s = record s { error_message = o }

module _ (js : Platform) where
  unfoldable pub dedup_job : Deduplication → Bool → Job
  dedup_job f is_duplicate_attempt = record {
    job_id = js.trim f.msg_id;
    type = some "deduplication-test";
    subject = none;
    delivery_mode = some "JETSTREAM";
    msg_id = none;
    source = none;
    content_type = none;
    headers = none;
    payload = obj (
        field "file" (str "dedup-sample.dat") (
          field "simulate_failure" (bool false) (
            field "note"
              (str (
                if is_duplicate_attempt
                then "Duplicate retry simulation"
                else "First message write"))
              end)));
    trace_id = none;
  }

  unfoldable pub published_message : Deduplication → Bool → String
  published_message f is_duplicate_attempt =
      if is_duplicate_attempt
      then "Duplicate message published with ID \""
        +s js.trim f.msg_id
        +s "\". Check Activity Log for [DEDUPLICATED] event."
      else "1st message stored with ID \""
        +s js.trim f.msg_id
        +s "\". Click \"Publish Duplicate\" to verify deduplication."

  -- `f` is the state of the render that made the handler.
  unfoldable pub handle_publish : Deduplication → Bool → Task Deduplication Ask Answer (Unit {0})
  handle_publish f is_duplicate_attempt = do
    update (set_error none)
    update (set_status none)
    if str_eq (js.trim f.msg_id) ""
        then update (set_error (some "Message ID is required"))
        else catching
            (do
              await_submit (dedup_job f is_duplicate_attempt)
              update (set_status (some (published_message f is_duplicate_attempt))))
            (λ e. update (set_error (some (message_or e "Publish failed"))))
