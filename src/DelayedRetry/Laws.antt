-- ===== src/DelayedRetry/Laws.antt =====
-- What the three demonstrations ask for.
use nats_demo.Common.{◌≡◌, refl, ℕ, false, String, some, str_eq, Bool-cases, inl, inr}
use nats_demo.Task.{ok, err, Asks, update, settle, catching, finally, ◌>>=◌}
use nats_demo.Platform.{Platform}
use nats_demo.DelayedRetry.{
  RetryAsk, submit, schedule, DelayedRetry, nak_job, ack_wait_job, schedule_request,
  handle_trigger_nak, handle_trigger_ack_wait, handle_trigger_schedule,
}

module _ (js : Platform) (local_time : String → String) where
  -- Every job has a name, and is kept by the stream so that it can be delivered again.
  abbrev pub IsKept : RetryAsk → Type 0
  IsKept (submit job) = (str_eq job.job_id "" ≡ false) × (job.delivery_mode ≡ some "JETSTREAM")
  IsKept (schedule req) = (str_eq req.job_id "" ≡ false) × (req.delivery_mode ≡ some "JETSTREAM")

  nak-Asks : (f : DelayedRetry) (n : ℕ) → Asks IsKept (handle_trigger_nak js f n)
  unfolding handle_trigger_nak nak_job update settle catching finally Asks ◌>>=◌
  nak-Asks f n = elim (Bool-cases (str_eq (js.trim f.nak_job_id) "")) [
    | inl blank ↦ rw blank tt
    | inr named ↦ rw named ((named, refl), elim [ ok x ↦ tt | err e ↦ tt ])
  ]

  ack_wait-Asks : (f : DelayedRetry) (n : ℕ) → Asks IsKept (handle_trigger_ack_wait js f n)
  unfolding handle_trigger_ack_wait ack_wait_job update settle catching finally Asks ◌>>=◌
  ack_wait-Asks f n = elim (Bool-cases (str_eq (js.trim f.ack_wait_job_id) "")) [
    | inl blank ↦ rw blank tt
    | inr named ↦ rw named ((named, refl), elim [ ok x ↦ tt | err e ↦ tt ])
  ]

  schedule-Asks :
      (f : DelayedRetry) (n : ℕ) → Asks IsKept (handle_trigger_schedule js local_time f n)
  unfolding handle_trigger_schedule schedule_request update settle catching finally Asks ◌>>=◌
  schedule-Asks f n = elim (Bool-cases (str_eq (js.trim f.sched_job_id) "")) [
    | inl blank ↦ rw blank tt
    | inr named ↦ rw named ((named, refl), elim [ ok x ↦ tt | err e ↦ tt ])
  ]

  -- Whatever is typed into the panel, each of the three demonstrations asks for nothing but a job
  -- whose name is not empty and that the stream delivers.
  pub triggers-IsKept :
      (f : DelayedRetry) (n : ℕ)
      → Asks IsKept (handle_trigger_nak js f n)
        × Asks IsKept (handle_trigger_ack_wait js f n)
        × Asks IsKept (handle_trigger_schedule js local_time f n)
  triggers-IsKept f n = (nak-Asks f n, ack_wait-Asks f n, schedule-Asks f n)
