-- ===== src/DelayedRetry.antt =====
-- The panel of delayed retries, frontend/src/components/DelayedRetryPanel.tsx: its state and its three
-- handlers. What it tells through `onAlert` is collected in `alerts`, newest first: whether it is a
-- success, and the text.
pub mod Laws
pub mod Outcomes
pub mod Acting
pub mod Kinds
pub mod View
pub mod Presses
mod Tests
use nats_demo.Common.{
  ℕ, Bool, true, false, String, List, ◌∷◌, Option, none, some, ◌+s◌, decimal, str_eq, if◌then◌else◌,
}
use nats_demo.Task.{
  Task, Result, Failure, message_or, call, done, settle, update, catching, finally, ◌>>=◌, ◌>>◌,
}
use nats_demo.Api.{
  Job, Json, Fields, bool, num, str, obj, end, field, ScheduleJobRequest, ScheduleJobResponse,
}
use nats_demo.Platform.{Platform}

-- `onSubmitJob`, and `scheduleJob` of frontend/src/api/demoApi.ts, as they settle
pub data RetryAsk : Type 0 where
  submit : Job → RetryAsk
  schedule : ScheduleJobRequest → RetryAsk

abbrev pub RetryAnswer : RetryAsk → Type 0
RetryAnswer (submit job) = Result (Unit {0})
RetryAnswer (schedule req) = Result ScheduleJobResponse

pub record DelayedRetry : Type 0 where
  pub nak_job_id : String
  pub nak_delay_sec : ℕ
  pub is_submitting_nak : Bool
  pub nak_status : Option String
  pub ack_wait_job_id : String
  pub is_submitting_ack_wait : Bool
  pub ack_wait_status : Option String
  pub sched_job_id : String
  pub sched_delay_sec : ℕ
  pub is_scheduling : Bool
  pub sched_status : Option String
  pub alerts : List (Bool × String)

abbrev pub RetryHandler : Type 0
RetryHandler = Task DelayedRetry RetryAsk RetryAnswer (Unit {0})

abbrev alert : Bool → String → RetryHandler
alert success text = update (λ s. record s { alerts = (success, text) ∷ s.alerts })

-- `f` is the state of the render that made the handler, `n` the random number that it draws.
module _ (js : Platform) where
  unfoldable pub nak_job : DelayedRetry → Job
  nak_job f = record {
    job_id = js.trim f.nak_job_id;
    type = some "image-processing";
    subject = none;
    delivery_mode = some "JETSTREAM";
    msg_id = none;
    source = none;
    content_type = none;
    headers = none;
    payload = obj (
        field "file" (str "image-nak-test.jpg") (
          field "simulate_failure" (bool true) (
            field "simulate_failure_count" (num 1)
              (field "nak_delay_seconds" (num f.nak_delay_sec) end))));
    trace_id = none;
  }

  abbrev pub nak_message : DelayedRetry → String
  nak_message f =
      "Job "
      +s js.trim f.nak_job_id
      +s " submitted with "
      +s decimal f.nak_delay_sec
      +s "s NAK delay. Worker will NAK on attempt #1, waiting "
      +s decimal f.nak_delay_sec
      +s "s before redelivery."

  abbrev nak_failed : Failure → RetryHandler
  nak_failed e = do
    update (λ s. record s {
      nak_status = some ("Error: " +s message_or e "Failed to submit NAK demo job");
    })
    alert false (message_or e "Failed to submit NAK demo job")

  -- `handleTriggerNak`
  unfoldable pub handle_trigger_nak : DelayedRetry → ℕ → RetryHandler
  handle_trigger_nak f n = if str_eq (js.trim f.nak_job_id) "" then done tt else (do
    update (λ s. record s { is_submitting_nak = true })
    update (λ s. record s { nak_status = none })
    finally
        (catching
          (do
            call (submit (nak_job f)) (λ r. settle r)
            update (λ s. record s { nak_status = some (nak_message f) })
            alert true (nak_message f)
            update (λ s. record s { nak_job_id = "nak-job-" +s decimal n }))
          nak_failed)
        (λ s. record s { is_submitting_nak = false }))

  unfoldable pub ack_wait_job : DelayedRetry → Job
  ack_wait_job f = record {
    job_id = js.trim f.ack_wait_job_id;
    type = some "data-sync";
    subject = none;
    delivery_mode = some "JETSTREAM";
    msg_id = none;
    source = none;
    content_type = none;
    headers = none;
    payload = obj (field "file" (str "ackwait-test.dat") (field "simulate_no_ack" (bool true) end));
    trace_id = none;
  }

  abbrev pub ack_wait_message : DelayedRetry → String
  ack_wait_message f =
      "Job "
      +s js.trim f.ack_wait_job_id
      +s " submitted. Worker will receive and intentionally skip ACK."
      +s " JetStream AckWait (5s) will trigger redelivery to another worker."

  abbrev ack_wait_failed : Failure → RetryHandler
  ack_wait_failed e = do
    update (λ s. record s {
      ack_wait_status = some ("Error: " +s message_or e "Failed to submit AckWait demo job");
    })
    alert false (message_or e "Failed to submit AckWait demo job")

  -- `handleTriggerAckWait`
  unfoldable pub handle_trigger_ack_wait : DelayedRetry → ℕ → RetryHandler
  handle_trigger_ack_wait f n = if str_eq (js.trim f.ack_wait_job_id) "" then done tt else (do
    update (λ s. record s { is_submitting_ack_wait = true })
    update (λ s. record s { ack_wait_status = none })
    finally
        (catching
          (do
            call (submit (ack_wait_job f)) (λ r. settle r)
            update (λ s. record s { ack_wait_status = some (ack_wait_message f) })
            alert true (ack_wait_message f)
            update (λ s. record s { ack_wait_job_id = "ackwait-job-" +s decimal n }))
          ack_wait_failed)
        (λ s. record s { is_submitting_ack_wait = false }))

  unfoldable pub schedule_request : DelayedRetry → ScheduleJobRequest
  schedule_request f = record {
    job_id = js.trim f.sched_job_id;
    type = "email-alert";
    payload = some (
        obj (
          field "recipient" (str "user@example.com")
            (field "scheduled_delay" (num f.sched_delay_sec) end)));
    delivery_mode = some "JETSTREAM";
    deliver_after_seconds = some f.sched_delay_sec;
    deliver_at = none;
  }

  abbrev schedule_failed : Failure → RetryHandler
  schedule_failed e = do
    update
        (λ s. record s { sched_status = some ("Error: " +s message_or e "Failed to schedule job") })
    alert false (message_or e "Failed to schedule job")

  -- `new Date(text).toLocaleTimeString()` is given.
  module _ (local_time : String → String) where
    abbrev pub schedule_message : ScheduleJobResponse → String
    schedule_message resp =
        "Job "
        +s resp.job_id
        +s " scheduled! Application timer will wait "
        +s decimal resp.delay_seconds
        +s "s before publishing to NATS at "
        +s local_time resp.scheduled_for
        +s "."

    -- `handleTriggerSchedule`
    unfoldable pub handle_trigger_schedule : DelayedRetry → ℕ → RetryHandler
    handle_trigger_schedule f n = if str_eq (js.trim f.sched_job_id) "" then done tt else (do
      update (λ s. record s { is_scheduling = true })
      update (λ s. record s { sched_status = none })
      finally
          (catching
            (do
              resp ← call (schedule (schedule_request f)) (λ r. settle r)
              update (λ s. record s { sched_status = some (schedule_message resp) })
              alert true (schedule_message resp)
              update (λ s. record s { sched_job_id = "sched-job-" +s decimal n }))
            schedule_failed)
          (λ s. record s { is_scheduling = false }))
