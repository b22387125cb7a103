-- ===== src/Publisher/Send.antt =====
-- `handleSend` and `handleBatchPublish` of frontend/src/components/CoreFlow/CoreFlowPublisher.tsx.
-- A handler reads the fields of the render that made it, which is the argument `f`; what it sets goes
-- to the state. Random numbers and times are arguments.
use nats_demo.Common.{
  ℕ, zero, suc, Bool, true, false, String, Option, none, some, ◌+s◌, decimal, str_eq, or_text,
  or_default, if◌then◌else◌,
}
use nats_demo.Task.{
  Result, Failure, error, syntax_error, message_or, done, settle, update, catching, finally, ◌>>=◌,
  ◌>>◌,
}
use nats_demo.Api.{Job, Json}
use nats_demo.Platform.{Platform}
use nats_demo.Props.{await_submit}
use nats_demo.Publisher.NextId.{match_suffix, successor_text, following, next_id}
use nats_demo.Publisher.Headers.{headers_map, headers_field}
use nats_demo.Publisher.Form.{
  PublishedReceipt, Form, FormHandler, subject, push_receipt, set_json_error,
}

-- The `catch` of `handleSend`
abbrev pub send_error : Failure → String
send_error (syntax_error m) = "Invalid JSON: " +s m
send_error (error m) = or_text m "Publish failed"

module _ (js : Platform) (parse_json : String → Result Json) where
  -- `x.trim() || d`
  abbrev trimmed : String → String → String
  trimmed x d = or_text (js.trim x) d

  -- `x.trim() || undefined`
  abbrev trimmed_field : String → Option String
  trimmed_field x = if str_eq (js.trim x) "" then none else some (js.trim x)

  unfoldable pub send_job : Form → Json → Job
  send_job f parsed = record {
    job_id = js.trim f.job_id;
    type = some (trimmed f.job_type "generic-message");
    subject = some (js.trim subject);
    delivery_mode = some "JETSTREAM";
    msg_id = trimmed_field f.nats_msg_id;
    source = some (trimmed f.source "job-service");
    content_type = some (trimmed f.content_type "application/json");
    headers = headers_field (headers_map js f.custom_headers);
    payload = parsed;
    trace_id = none;
  }

  unfoldable pub send_receipt : Job → String → PublishedReceipt
  send_receipt job time = record {
    job_id = job.job_id;
    type = or_default job.type "generic-message";
    subject = js.trim subject;
    delivery_mode = "JETSTREAM";
    msg_id = or_default job.msg_id "(omitted)";
    timestamp = time;
  }

  -- The identifiers for the next run; `num` is drawn where the job's has no number to count up.
  unfoldable pub renumber : Form → ℕ → Form → Form
  renumber f num s = elim (match_suffix f.job_id) [
    | some found ↦ record s {
      job_id = following js found;
      nats_msg_id =
          if str_eq (js.trim f.nats_msg_id) ""
          then s.nats_msg_id
          else elim (next_id js f.nats_msg_id) [
            | some next ↦ next
            | none ↦ "msg-" +s successor_text js found.1
          ];
    }
    | none ↦ record s {
      job_id = "job-" +s decimal num;
      nats_msg_id =
          if str_eq (js.trim f.nats_msg_id) "" then s.nats_msg_id else "msg-" +s decimal num;
    }
  ]

  unfoldable pub handle_send : Form → (num : ℕ) → (time : String) → FormHandler
  handle_send f num time = do
    update (set_json_error none)
    if str_eq (js.trim f.job_id) ""
        then update (set_json_error (some "job_id is required"))
        else catching
            (do
              parsed ← settle (parse_json f.payload_str)
              await_submit (send_job f parsed)
              update (push_receipt (send_receipt (send_job f parsed) time))
              update (renumber f num))
            (λ e. update (set_json_error (some (send_error e))))

  unfoldable pub batch_job : Form → Json → ℕ → ℕ → Job
  batch_job f parsed base i = record {
    job_id = "job-" +s decimal base +s "-" +s decimal i;
    type = some (trimmed f.job_type "generic-message");
    subject = some (trimmed subject "jobs.submitted");
    delivery_mode = some "JETSTREAM";
    msg_id = some ("msg-" +s decimal base +s "-" +s decimal i);
    source = some (trimmed f.source "job-service");
    content_type = some (trimmed f.content_type "application/json");
    headers = headers_field (headers_map js f.custom_headers);
    payload = parsed;
    trace_id = none;
  }

  unfoldable pub batch_receipt : Job → String → PublishedReceipt
  batch_receipt job time = record {
    job_id = job.job_id;
    type = or_default job.type "generic-message";
    subject = trimmed subject "jobs.submitted";
    delivery_mode = "JETSTREAM";
    msg_id = or_default job.msg_id job.job_id;
    timestamp = time;
  }

  -- The loop from `i`, with `k` jobs to go; `times i` is the time at which the i-th is receipted.
  unfoldable pub batch_from : Form → Json → ℕ → (ℕ → String) → ℕ → ℕ → FormHandler
  batch_from f parsed base times zero i = done tt
  batch_from f parsed base times (suc k) i = await_submit (batch_job f parsed base i) >>= λ _.
      (update (push_receipt (batch_receipt (batch_job f parsed base i) (times i))) >>= λ _.
      batch_from f parsed base times k (suc i))

  abbrev set_batch_publishing : Bool → Form → Form
  set_batch_publishing b s = record s { is_batch_publishing = b }

  unfoldable pub handle_batch_publish : Form → ℕ → (base : ℕ) → (ℕ → String) → FormHandler
  handle_batch_publish f count base times = do
    update (set_batch_publishing true)
    update (set_json_error none)
    finally
        (catching
          (do parsed ← settle (parse_json f.payload_str); batch_from f parsed base times count 1)
          (λ e. update (set_json_error (some (message_or e "Batch publish failed")))))
        (set_batch_publishing false)
