-- ===== src/App/Jobs.antt =====
-- The handlers of frontend/src/App.tsx that act on jobs, the stream and the processor.
use nats_demo.Common.{
  ℕ, Bool, true, false, String, List, [], ◌∷◌, Option, none, some, ◌+s◌, or_text,
}
use nats_demo.Task.{Failure, fail, done, message_or, update, catching, finally, ◌>>=◌, ◌>>◌}
use nats_demo.Api.{
  Job, JobStatusResponse, Activity, business, ValidationResult, ReplayRequest, ReplayResponse,
}
use nats_demo.Api.Jobs.{submit_job, validate_job, reset_jobs_stream}
use nats_demo.Api.Control.{update_processor_state, replay_jobs}
use nats_demo.App.State.{
  State, Handler, Refresh, activity_refresh, status_refresh, set_error, set_success,
}
use nats_demo.App.Refresh.{refresh_status, refresh_activity}

abbrev pub set_submitting : Bool → State → State
set_submitting b s = record s { is_submitting = b }

abbrev pub set_validating : Bool → State → State
set_validating b s = record s { is_validating = b }

abbrev pub set_resetting_stream : Bool → State → State
set_resetting_stream b s = record s { is_resetting_stream = b }

-- `setTimeout(() => …, ms)`
abbrev pub after : ℕ → List Refresh → State → State
after ms calls s = record s { timers = (ms, calls) ∷ s.timers }

-- The record that a submission adds to the log at once, stamped with the local time.
abbrev pub new_activity : Job → JobStatusResponse → String → Activity
new_activity job res local_time = record {
  timestamp = local_time;
  job_id = res.job_id;
  event = or_text res.status "SUBMITTED";
  subject = "jobs.submitted";
  worker = "";
  delivery_count = 1;
  delivery_mode = job.delivery_mode;
  sequence = none;
  msg_id = none;
  job_type = none;
  trace_id = none;
  category = some business;
  action = some "Published by Client";
}

abbrev pub submitted_message : Job → String
submitted_message job = "Job \"" +s job.job_id +s "\" submitted successfully."

-- `throw err` after the banner
abbrev pub show_and_throw : {A : Type 0} → String → Failure → Handler A
show_and_throw default e = do update (set_error (some (message_or e default))); fail e

unfoldable pub handle_job_submit : Job → (local_time : String) → Handler (Unit {0})
handle_job_submit job local_time = do
  update (set_submitting true)
  update (set_error none)
  update (set_success none)
  finally
      (catching
        (do
          res ← submit_job job
          update (set_success (some (submitted_message job)))
          update (λ s. record s { activities = new_activity job res local_time ∷ s.activities })
          update (after 500 (activity_refresh true ∷ status_refresh true ∷ [])))
        (show_and_throw "Job submission failed"))
      (set_submitting false)

unfoldable pub handle_toggle_processor : Bool → Handler (Unit {0})
handle_toggle_processor enabled = do
  update (set_error none)
  update (set_success none)
  catching
      (do
        res ← update_processor_state enabled
        update (set_success (some ("Processor state changed to " +s res.status)))
        refresh_status true)
      (λ e. update (set_error (some (message_or e "Failed to toggle processor state"))))

-- `${text}` for a text that may be missing
abbrev pub shown : Option String → String
shown none = "undefined"
shown (some t) = t

-- The banner that a validation result puts up.
unfoldable pub show_validation : ValidationResult → State → State
show_validation res s = elim (res.timed_out) [
  | some true ↦
      set_error (some "Request timeout: No response received from processor service (is it ON?)") s
  | _ ↦ elim (res.valid) [
    | some false ↦ set_error (some ("Validation Failed: " +s shown res.message)) s
    | _ ↦ set_success (some ("Validation Success: " +s shown res.message)) s
  ]
]

unfoldable pub handle_job_validate : Job → Handler (Unit {0})
handle_job_validate job = do
  update (set_validating true)
  update (set_error none)
  update (set_success none)
  finally
      (catching (do res ← validate_job job; update (show_validation res))
        (show_and_throw "Validation failed"))
      (set_validating false)

unfoldable pub handle_reset_stream : Handler (Unit {0})
handle_reset_stream = do
  update (set_resetting_stream true)
  update (set_error none)
  finally
      (catching
        (do
          res ← reset_jobs_stream
          update (
              set_success (
                some
                  (or_text res.message "JOBS stream recreated successfully. Sequence reset to 1.")))
          refresh_status true
          refresh_activity true)
        (λ e. update (set_error (some (message_or e "Failed to recreate JOBS stream")))))
      (set_resetting_stream false)

-- A failure is left to the replay panel.
unfoldable pub handle_trigger_replay : ReplayRequest → Handler ReplayResponse
handle_trigger_replay req = do
  res ← replay_jobs req
  update (after 400 (activity_refresh false ∷ []))
  update (after 1500 (activity_refresh false ∷ []))
  done res
