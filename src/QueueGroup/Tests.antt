-- ===== src/QueueGroup/Tests.antt =====
-- The panel's theorems at its first state.
use nats_demo.Common.{refl}
use nats_demo.Common.{inl, ℕ, String, Option}
use nats_demo.Html.Offering.{Way, Way-Offers, inside, first, rest, use_it}
use nats_demo.Html.{is_disabled, Fires}
use nats_demo.Panel.{start, mount, later, press}
use nats_demo.Panel.Exclusive.{owners, one_if}
use nats_demo.Panel.Kinds.{owns}
use nats_demo.QueueGroup.Acting.{send, react, initial}
use nats_demo.QueueGroup.View.{QueueProps, view}
use nats_demo.QueueGroup.Kinds.{sending, flag, kinds}
use nats_demo.QueueGroup.Presses.{QueueLive, Reach-one_of_each}
use nats_demo.Common.{◌≡◌, refl, false, [], none}
use nats_demo.Task.{ok, err, error}
use nats_demo.Task.Given.{outcome, EnsuresGiven}
use nats_demo.Api.{Fetch, Reply}
use nats_demo.Api.Queue.{update_queue_group_workers}
use nats_demo.QueueGroup.{QueueGroup, handle_workers_change}
use nats_demo.QueueGroup.Outcomes.{KeepsGroup, Reported, handle_workers_change-Reported}

abbrev panel : QueueGroup
panel = record {
  status = none;
  workers = 1;
  message_count = 10;
  is_updating_workers = false;
  is_sending = false;
  is_resetting = false;
  last_batch = [];
  signals = [];
}

-- No service can be reached.
abbrev down : (q : Fetch) → Reply q
down q = err (error "Failed to fetch")

handle_workers_change-Reported_example :
    EnsuresGiven down KeepsGroup
      (λ s' out.
        (out ≡ ok tt)
        × (s'.is_updating_workers ≡ false)
        × Reported (outcome down (update_queue_group_workers 3)) panel s')
      (handle_workers_change panel 3)
      panel
handle_workers_change-Reported_example = handle_workers_change-Reported down panel panel 3 refl

abbrev shown : QueueProps
shown = record { is_embedded = false }

abbrev no_number : String → Option ℕ
no_number s = none

-- The messages are sent, and the reply is still to come.
abbrev pressed : QueueLive
pressed = start send (react no_number send 0 initial) (record { state = initial; waiting = [] })

send_offered : Way send (view (λ n t. 0) shown initial)
unfolding view is_disabled Fires
send_offered = inside (rest (rest (rest (rest (rest (first (use_it refl (inl refl))))))))

Reach-one_of_each_example :
    owners (flag sending) (owns kinds sending) pressed.waiting ≡ one_if (flag sending pressed.state)
Reach-one_of_each_example =
    Reach-one_of_each (λ n t. 0) no_number sending pressed
      (later mount (press shown send 0 (Way-Offers send_offered)))
