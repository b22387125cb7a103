-- ===== src/DeadLetters/Tests.antt =====
-- The theorems of the panel of the dead-letter queue at a panel and at a network that is down.
use nats_demo.Common.{String, Option, inl, refl}
use nats_demo.Html.Offering.{Way, Way-Offers, inside, first, rest, use_it}
use nats_demo.Html.{is_disabled, Fires}
use nats_demo.Panel.{start, mount, later, press}
use nats_demo.Panel.Exclusive.{owners, one_if}
use nats_demo.Panel.Kinds.{owns}
use nats_demo.DeadLetters.Acting.{send_failing, react}
use nats_demo.DeadLetters.View.{view, simulation}
use nats_demo.DeadLetters.Kinds.{submitting, flag, kinds}
use nats_demo.DeadLetters.Presses.{initial, DlqLive, Reach-one_at_a_time}
use nats_demo.Common.{ℕ, ◌≡◌, false, [], none}
use nats_demo.Task.{error, err, ok, run, Ensures}
use nats_demo.Task.Together.{Together, one, two, TogetherReply}
use nats_demo.Api.{Fetch, Reply}
use nats_demo.DeadLetters.{DlqPanel, fetch_dlq_data}
use nats_demo.DeadLetters.Alerts.{KeepsTold, AlertsOnce, reprocess, handle, handle-AlertsOnce}
use nats_demo.DeadLetters.Poll.{fetch_dlq_data-shown}

abbrev panel : DlqPanel
panel = record {
  max_attempts = 3;
  is_submitting = false;
  is_reprocessing = false;
  is_purging = false;
  is_loading_dlq = false;
  is_setting_up = false;
  is_cleaning_up = false;
  dlq_status = none;
  dlq_messages = [];
  told = [];
  timers = [];
}

handle-AlertsOnce_example :
    Ensures KeepsTold (AlertsOnce (reprocess "job-7") panel) (handle (reprocess "job-7")) panel
handle-AlertsOnce_example = handle-AlertsOnce (reprocess "job-7") panel

abbrev down : ℕ → (q : Together Fetch) → TogetherReply Reply q
down n (one q) = err (error "Failed to fetch")
down n (two p q) = (err (error "Failed to fetch"), err (error "Failed to fetch"))

fetch_dlq_data-shown_example : run down 0 fetch_dlq_data panel ≡ (panel, ok tt)
fetch_dlq_data-shown_example = fetch_dlq_data-shown down 0 panel

-- The failing job's button is pressed, and a poll comes while its handler waits.
abbrev no_number : String → Option ℕ
no_number s = none

abbrev pressed : DlqLive
pressed =
    start send_failing (react no_number send_failing 7 initial)
      (record { state = initial; waiting = [] })

send_offered : Way send_failing (view false initial)
unfolding view simulation is_disabled Fires
send_offered = inside (
    rest
      (rest (rest (rest (first (inside (rest (first (inside (rest (use_it refl (inl refl))))))))))))

Reach-one_at_a_time_example :
    owners (flag submitting) (owns kinds submitting) pressed.waiting
    ≡ one_if (flag submitting pressed.state)
Reach-one_at_a_time_example =
    Reach-one_at_a_time no_number submitting pressed
      (later mount (press false send_failing 7 (Way-Offers send_offered)))
