-- ===== src/Replay/Acting.antt =====
-- What the elements of frontend/src/components/ReplayPanel.tsx start, and the state that the form is
-- mounted in.
use nats_demo.Common.{ℕ, false, String, none}
use nats_demo.Task.{done, update, ◌>>◌}
use nats_demo.Api.{ReplayMode, ReplaySource, instant, sequence}
use nats_demo.Replay.{Number, ReplayForm, ReplayHandler, handle_submit}

pub data ReplayEvent : Type 0 where
  show_info set_start_seq set_end_seq set_start_time set_end_time : String → ReplayEvent
  set_from : ReplaySource → ReplayEvent
  set_mode : ReplayMode → ReplayEvent
  refresh submit : ReplayEvent

-- `refresh` is the root component's. Nothing is drawn at random.
unfoldable pub react :
    (parse_int time_ms : String → Number) → ReplayEvent → (draw : ℕ) → ReplayForm → ReplayHandler
react parse_int time_ms (show_info topic) draw s = done tt
react parse_int time_ms refresh draw s = done tt
react parse_int time_ms (set_from source) draw s = do
  update (λ s'. record s' { replay_from = source })
  update (λ s'. record s' { error = none })
react parse_int time_ms (set_mode mode) draw s = update (λ s'. record s' { replay_mode = mode })
react parse_int time_ms (set_start_seq v) draw s = update (λ s'. record s' { start_seq = v })
react parse_int time_ms (set_end_seq v) draw s = update (λ s'. record s' { end_seq = v })
react parse_int time_ms (set_start_time v) draw s = update (λ s'. record s' { start_time = v })
react parse_int time_ms (set_end_time v) draw s = update (λ s'. record s' { end_time = v })
react parse_int time_ms submit draw s = handle_submit parse_int time_ms s

-- The times are those of an hour ago and of now.
abbrev pub initial : (hour_ago now : String) → ReplayForm
initial hour_ago now = record {
  replay_from = sequence;
  start_seq = "1";
  end_seq = "100";
  start_time = hour_ago;
  end_time = now;
  replay_mode = instant;
  is_loading = false;
  result = none;
  error = none;
}
