-- ===== src/QueueGroup/Acting.antt =====
-- What the elements of frontend/src/components/QueueGroupPanel.tsx start, and the state that the panel
-- is mounted in.
use nats_demo.Common.{ℕ, false, String, [], Option, none, some, max}
use nats_demo.Task.{done, update}
use nats_demo.QueueGroup.{
  QueueGroup, QueueHandler, fetch_status, handle_workers_change, handle_reset_distribution,
  handle_send_messages,
}

-- `poll` is what the panel's interval calls.
pub data QueueEvent : Type 0 where
  show_info type_count : String → QueueEvent
  change_workers pick_count : ℕ → QueueEvent
  reset send poll : QueueEvent

-- `Math.max(1, n || 1)`, for the number that `parseInt` reads; one below zero counts as missing.
unfoldable pub count_of : Option ℕ → ℕ
count_of none = 1
count_of (some n) = max 1 n

unfoldable pub react : (String → Option ℕ) → QueueEvent → (draw : ℕ) → QueueGroup → QueueHandler
react parse_int (show_info topic) draw s = done tt
react parse_int (type_count value) draw s =
    update (λ s'. record s' { message_count = count_of (parse_int value) })
react parse_int (pick_count count) draw s = update (λ s'. record s' { message_count = count })
react parse_int (change_workers w) draw s = handle_workers_change s w
react parse_int reset draw s = handle_reset_distribution
react parse_int send draw s = handle_send_messages s
react parse_int poll draw s = fetch_status

abbrev pub initial : QueueGroup
initial = record {
  status = none;
  workers = 1;
  message_count = 10;
  is_updating_workers = false;
  is_sending = false;
  is_resetting = false;
  last_batch = [];
  signals = [];
}
