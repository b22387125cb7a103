-- ===== src/DelayedRetry/Acting.antt =====
-- What the elements of frontend/src/components/DelayedRetryPanel.tsx start, and the state that the panel
-- is mounted in.
use nats_demo.Common.{ℕ, false, String, [], none, ◌+s◌, decimal}
use nats_demo.Task.{done, update}
use nats_demo.Platform.{Platform}
use nats_demo.DelayedRetry.{
  DelayedRetry, RetryHandler, handle_trigger_nak, handle_trigger_ack_wait, handle_trigger_schedule,
}

pub data RetryEvent : Type 0 where
  show_info set_nak_job_id set_nak_delay set_ack_wait_job_id set_sched_job_id set_sched_delay :
      String → RetryEvent
  trigger_nak trigger_ack_wait trigger_schedule : RetryEvent

-- `to_number` is JavaScript's `Number`, of the choices that the panel shows; `draw` the random number of
-- the next identifier.
module _ (js : Platform) (local_time : String → String) (to_number : String → ℕ) where
  unfoldable pub react : RetryEvent → (draw : ℕ) → DelayedRetry → RetryHandler
  react (show_info topic) draw s = done tt
  react (set_nak_job_id v) draw s = update (λ s'. record s' { nak_job_id = v })
  react (set_nak_delay v) draw s = update (λ s'. record s' { nak_delay_sec = to_number v })
  react (set_ack_wait_job_id v) draw s = update (λ s'. record s' { ack_wait_job_id = v })
  react (set_sched_job_id v) draw s = update (λ s'. record s' { sched_job_id = v })
  react (set_sched_delay v) draw s = update (λ s'. record s' { sched_delay_sec = to_number v })
  react trigger_nak draw s = handle_trigger_nak js s draw
  react trigger_ack_wait draw s = handle_trigger_ack_wait js s draw
  react trigger_schedule draw s = handle_trigger_schedule js local_time s draw

-- The three numbers are drawn at random.
abbrev pub initial : (nak ack_wait sched : ℕ) → DelayedRetry
initial nak ack_wait sched = record {
  nak_job_id = "nak-job-" +s decimal nak;
  nak_delay_sec = 5;
  is_submitting_nak = false;
  nak_status = none;
  ack_wait_job_id = "ackwait-job-" +s decimal ack_wait;
  is_submitting_ack_wait = false;
  ack_wait_status = none;
  sched_job_id = "sched-job-" +s decimal sched;
  sched_delay_sec = 5;
  is_scheduling = false;
  sched_status = none;
  alerts = [];
}
