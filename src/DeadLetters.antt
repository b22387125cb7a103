-- ===== src/DeadLetters.antt =====
-- The panel of the dead-letter queue, frontend/src/components/DLQPanel.tsx: its state, the poll of the
-- queue's status and messages, and its five actions. What it tells its parent is collected in `told`,
-- newest first, and the calls of `setTimeout` in `timers`, newest first.
pub mod Alerts
pub mod Poll
pub mod Acting
pub mod View
pub mod Kinds
pub mod Handling
pub mod Presses
mod Tests
use nats_demo.Common.{
  ℕ, Bool, true, false, not, ◌||◌, ◌==◌, String, List, [], ◌∷◌, Option, none, some, ◌+s◌, decimal,
  or_text,
}
use nats_demo.Task.{Task, Failure, message_or, done, update, catching, finally, ◌>>=◌, ◌>>◌}
use nats_demo.Task.Together.{Together, TogetherReply, alone, all}
use nats_demo.Api.{
  Job, Json, Fields, bool, num, str, obj, end, field, DlqStatus, DlqMessage, Fetch, Reply,
}
use nats_demo.Api.Jobs.{submit_job}
use nats_demo.Api.Queue.{
  fetch_dlq_status, fetch_dlq_messages, reprocess_dlq_messages, purge_dlq, setup_dlq, cleanup_dlq,
}

-- The calls of `onAlert` (a success or an error, and its text), `onActivityUpdated`, `onRefreshAll`
pub data Told : Type 0 where
  alert_success alert_error : String → Told
  activity_updated refresh_all : Told

-- What a timer runs
pub data Later : Type 0 where
  tell_activity poll_dlq : Later

pub record DlqPanel : Type 0 where
  pub max_attempts : ℕ
  pub is_submitting : Bool
  pub is_reprocessing : Bool
  pub is_purging : Bool
  pub is_loading_dlq : Bool
  pub is_setting_up : Bool
  pub is_cleaning_up : Bool
  pub dlq_status : Option DlqStatus
  pub dlq_messages : List DlqMessage
  pub told : List Told
  pub timers : List (ℕ × Later)

abbrev pub DlqHandler : Type 0
DlqHandler = Task DlqPanel (Together Fetch) (TogetherReply Reply) (Unit {0})

abbrev pub tell : Told → DlqHandler
tell t = update (λ s. record s { told = t ∷ s.told })

abbrev pub after : ℕ → Later → DlqHandler
after ms l = update (λ s. record s { timers = (ms, l) ∷ s.timers })

-- A failure of the poll is ignored.
unfoldable pub fetch_dlq_data : DlqHandler
fetch_dlq_data = do
  update (λ s. record s { is_loading_dlq = true })
  finally
      (catching
        (do
          loaded ← all fetch_dlq_status fetch_dlq_messages
          update (λ s. record s { dlq_status = some loaded.0 })
          update (λ s. record s { dlq_messages = loaded.1 }))
        (λ e. done tt))
      (λ s. record s { is_loading_dlq = false })

unfoldable pub handle_setup_prerequisites : DlqHandler
handle_setup_prerequisites = do
  update (λ s. record s { is_setting_up = true })
  finally
      (catching
        (do
          res ← alone setup_dlq
          tell (alert_success (or_text res.message "JOBS_DLQ stream and consumer provisioned."))
          fetch_dlq_data
          tell refresh_all)
        (λ e. tell (alert_error (message_or e "Failed to setup DLQ prerequisites"))))
      (λ s. record s { is_setting_up = false })

unfoldable pub handle_cleanup_prerequisites : DlqHandler
handle_cleanup_prerequisites = do
  update (λ s. record s { is_cleaning_up = true })
  finally
      (catching
        (do
          res ← alone cleanup_dlq
          tell (alert_success (or_text res.message "JOBS_DLQ stream removed from NATS broker."))
          fetch_dlq_data
          tell refresh_all)
        (λ e. tell (alert_error (message_or e "Failed to cleanup DLQ prerequisites"))))
      (λ s. record s { is_cleaning_up = false })

-- `max_attempts` is that of the render that made the handler, `suffix` the random number that it draws.
unfoldable pub failing_job : (max_attempts suffix : ℕ) → Job
failing_job max_attempts suffix = record {
  job_id = "job-fail-" +s decimal suffix;
  type = some "image-processing";
  subject = none;
  delivery_mode = some "JETSTREAM";
  msg_id = none;
  source = none;
  content_type = none;
  headers = none;
  payload = obj (
      field "file" (str "corrupt-image.dat") (
        field "simulate_failure" (bool true) (
          field "simulate_failure_count" (num 0)
            (field "max_delivery_attempts" (num max_attempts) end))));
  trace_id = none;
}

unfoldable pub handle_send_failing_job : (max_attempts suffix : ℕ) → DlqHandler
handle_send_failing_job max_attempts suffix = do
  update (λ s. record s { is_submitting = true })
  finally
      (catching
        (do
          res ← alone (submit_job (failing_job max_attempts suffix))
          tell (
              alert_success (
                "Submitted failing job job-fail-"
                +s decimal suffix
                +s " (Max delivery attempts: "
                +s decimal max_attempts
                +s ")"))
          tell activity_updated
          after 1000 tell_activity
          after 2500 tell_activity
          after 4000 tell_activity
          tell refresh_all
          after 1500 poll_dlq
          after 3500 poll_dlq)
        (λ e.
          tell (alert_error ("Failed to submit failing job: " +s message_or e "Unknown error"))))
      (λ s. record s { is_submitting = false })

-- What follows the alert of a reprocessing
abbrev reprocessed : DlqHandler
reprocessed = do
  tell activity_updated
  after 600 tell_activity
  after 1500 tell_activity
  fetch_dlq_data
  tell refresh_all

unfoldable pub handle_reprocess_all : DlqHandler
handle_reprocess_all = do
  update (λ s. record s { is_reprocessing = true })
  finally
      (catching
        (do
          res ← alone (reprocess_dlq_messages none)
          tell (
              alert_success (
                or_text res.message (
                  "Reprocessed "
                  +s decimal res.reprocessed
                  +s " messages from JOBS_DLQ back into JOBS stream")))
          reprocessed)
        (λ e.
          tell
            (alert_error ("Failed to reprocess DLQ messages: " +s message_or e "Unknown error"))))
      (λ s. record s { is_reprocessing = false })

unfoldable pub handle_reprocess_single : String → DlqHandler
handle_reprocess_single job_id = do
  update (λ s. record s { is_reprocessing = true })
  finally
      (catching
        (do
          res ← alone (reprocess_dlq_messages (some job_id))
          tell (
              alert_success
                ("Reprocessed " +s job_id +s " back into JOBS stream (recovered from DLQ)"))
          reprocessed)
        (λ e.
          tell (
            alert_error
              ("Failed to reprocess " +s job_id +s ": " +s message_or e "Unknown error"))))
      (λ s. record s { is_reprocessing = false })

unfoldable pub handle_purge : DlqHandler
handle_purge = do
  update (λ s. record s { is_purging = true })
  finally
      (catching
        (do
          res ← alone purge_dlq
          tell (alert_success "JOBS_DLQ stream purged successfully")
          tell activity_updated
          fetch_dlq_data
          tell refresh_all)
        (λ e. tell (alert_error ("Failed to purge DLQ: " +s message_or e "Unknown error"))))
      (λ s. record s { is_purging = false })

-- `dlqStatus?.messages ?? 0`
unfoldable pub stored_count : DlqPanel → ℕ
stored_count s = elim (s.dlq_status) [ none ↦ 0 | some d ↦ d.messages ]

-- `dlqStatus?.initialized`, as a condition
unfoldable pub is_initialized : DlqPanel → Bool
is_initialized s = elim (s.dlq_status) [
  | none ↦ false
  | some d ↦ elim (d.initialized) [ none ↦ false | some b ↦ b ]
]

-- The `disabled` of the buttons
unfoldable pub setup_disabled : DlqPanel → Bool
setup_disabled s = s.is_setting_up || is_initialized s

unfoldable pub cleanup_disabled : DlqPanel → Bool
cleanup_disabled s = s.is_cleaning_up || not (is_initialized s)

unfoldable pub reprocess_disabled : DlqPanel → Bool
reprocess_disabled s = s.is_reprocessing || (stored_count s == 0)

unfoldable pub purge_disabled : DlqPanel → Bool
purge_disabled s = s.is_purging || (stored_count s == 0)
