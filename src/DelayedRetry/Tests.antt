-- ===== src/DelayedRetry/Tests.antt =====
-- The panel's theorems at filled fields.
use nats_demo.Common.{◌≡◌, String, ℕ, inl}
use nats_demo.Html.Offering.{Way, Way-Offers, inside, first, rest, use_it}
use nats_demo.Html.{is_disabled, Fires}
use nats_demo.Panel.{start, mount, later, press}
use nats_demo.Panel.Exclusive.{owners, one_if}
use nats_demo.Panel.Kinds.{owns}
use nats_demo.DelayedRetry.Acting.{trigger_nak, react, initial}
use nats_demo.DelayedRetry.View.{RetryProps, view, nak_card}
use nats_demo.DelayedRetry.Kinds.{submitting_nak, flag, kinds}
use nats_demo.DelayedRetry.Presses.{RetryLive, Reach-one_demonstration}
use nats_demo.Common.{refl}
use nats_demo.Task.{error, err}
use nats_demo.Task.Given.{EnsuresGiven}
use nats_demo.DelayedRetry.Outcomes.{
  KeepsAlerts, Announces, scheduling, demonstrate, verdict, demonstrate-Announces,
}
use nats_demo.Common.{false, [], none}
use nats_demo.Platform.Plain.{plain}
use nats_demo.DelayedRetry.{RetryAsk, RetryAnswer, submit, schedule, DelayedRetry}

abbrev panel : DelayedRetry
panel = record {
  nak_job_id = "nak-job-1";
  nak_delay_sec = 5;
  is_submitting_nak = false;
  nak_status = none;
  ack_wait_job_id = "ackwait-job-2";
  is_submitting_ack_wait = false;
  ack_wait_status = none;
  sched_job_id = "sched-job-3";
  sched_delay_sec = 5;
  is_scheduling = false;
  sched_status = none;
  alerts = [];
}

-- The service refuses every request.
abbrev refusing : (q : RetryAsk) → RetryAnswer q
refusing (submit job) = err (error "Service Unavailable")
refusing (schedule req) = err (error "Service Unavailable")

demonstrate-Announces_example :
    EnsuresGiven refusing KeepsAlerts
      (Announces scheduling (verdict plain (λ t. t) scheduling refusing panel) panel)
      (demonstrate plain (λ t. t) scheduling panel 500)
      panel
demonstrate-Announces_example =
    demonstrate-Announces plain (λ t. t) refusing scheduling panel panel 500 refl

abbrev shown : RetryProps
shown = record { informs = false; is_submitting = false }

abbrev five : String → ℕ
five text = 5

-- The first demonstration is started, and the reply is still to come.
abbrev pressed : RetryLive
pressed =
    start trigger_nak (react plain (λ t. t) five trigger_nak 500 (initial 1 2 3))
      (record { state = initial 1 2 3; waiting = [] })

nak_offered : Way trigger_nak (view shown (initial 1 2 3))
unfolding view nak_card is_disabled Fires
nak_offered =
    inside (
      rest
        (rest (first (inside (first (inside (rest (inside (first (use_it refl (inl refl)))))))))))

Reach-one_demonstration_example :
    owners (flag submitting_nak) (owns kinds submitting_nak) pressed.waiting
    ≡ one_if (flag submitting_nak pressed.state)
Reach-one_demonstration_example =
    Reach-one_demonstration plain (λ t. t) five submitting_nak 1 2 3 pressed
      (later mount (press shown trigger_nak 500 (Way-Offers nak_offered)))
