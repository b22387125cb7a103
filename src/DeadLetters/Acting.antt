-- ===== src/DeadLetters/Acting.antt =====
-- What the elements of frontend/src/components/DLQPanel.tsx start, and what its timers call.
use nats_demo.Common.{ℕ, String, Option, none, some, max}
use nats_demo.Task.{done, update}
use nats_demo.DeadLetters.{
  DlqPanel, DlqHandler, tell, activity_updated, fetch_dlq_data, handle_setup_prerequisites,
  handle_cleanup_prerequisites, handle_send_failing_job, handle_reprocess_all,
  handle_reprocess_single, handle_purge,
}

-- The events of the elements, and what the panel's interval and timers call: `poll` and
-- `activity_due`.
pub data DlqEvent : Type 0 where
  show_info : String → DlqEvent
  refresh setup cleanup send_failing reprocess_all purge poll activity_due : DlqEvent
  set_max_attempts : String → DlqEvent
  reprocess_single : String → DlqEvent

-- `Math.max(1, n || 1)`, for the number that `parseInt` reads; one below zero counts as missing.
unfoldable pub attempts_of : Option ℕ → ℕ
attempts_of none = 1
attempts_of (some n) = max 1 n

-- What an event starts. `parse_int` is JavaScript's, and `suffix` the random number that a failing
-- job's identifier is made of.
unfoldable pub react : (String → Option ℕ) → DlqEvent → (suffix : ℕ) → DlqPanel → DlqHandler
react parse_int (show_info topic) suffix s = done tt
react parse_int refresh suffix s = fetch_dlq_data
react parse_int poll suffix s = fetch_dlq_data
react parse_int activity_due suffix s = tell activity_updated
react parse_int setup suffix s = handle_setup_prerequisites
react parse_int cleanup suffix s = handle_cleanup_prerequisites
react parse_int send_failing suffix s = handle_send_failing_job s.max_attempts suffix
react parse_int reprocess_all suffix s = handle_reprocess_all
react parse_int (reprocess_single job_id) suffix s = handle_reprocess_single job_id
react parse_int purge suffix s = handle_purge
react parse_int (set_max_attempts value) suffix s =
    update (λ s'. record s' { max_attempts = attempts_of (parse_int value) })
