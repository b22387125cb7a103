-- ===== src/Replay/Tests.antt =====
-- The replay form's theorems at a range that is asked for.
use nats_demo.Common.{refl}
use nats_demo.Common.{◌≡◌, [], inl, inr}
use nats_demo.Html.Offering.{Way, Way-Offers, inside, rest, submit_it}
use nats_demo.Html.{Submits, Posts, is_submitter, is_disabled}
use nats_demo.Panel.{start, mount, later, press}
use nats_demo.Panel.Exclusive.{owners, one_if}
use nats_demo.Panel.Kinds.{owns}
use nats_demo.Replay.Acting.{submit, react, initial}
use nats_demo.Replay.Fields.{ReplayProps}
use nats_demo.Replay.View.{view}
use nats_demo.Replay.Kinds.{loading, kinds, is_loading}
use nats_demo.Replay.Presses.{ReplayLive, Reach-one_replay}
use nats_demo.Common.{String, none, str_eq, if◌then◌else◌, false}
use nats_demo.Task.{Asks}
use nats_demo.Api.{sequence, instant}
use nats_demo.Replay.{Number, nan, plus, ReplayForm, handle_submit}
use nats_demo.Replay.Laws.{IsSound, handle_submit-IsSound}

-- It reads two numbers.
abbrev read_number : String → Number
read_number s = if str_eq s "1" then plus 1 else if str_eq s "100" then plus 100 else nan

abbrev form : ReplayForm
form = record {
  replay_from = sequence;
  start_seq = "1";
  end_seq = "100";
  start_time = "";
  end_time = "";
  replay_mode = instant;
  is_loading = false;
  result = none;
  error = none;
}

handle_submit-IsSound_example :
    Asks (IsSound read_number) (handle_submit read_number read_number form)
handle_submit-IsSound_example = handle_submit-IsSound read_number read_number form

abbrev shown : ReplayProps
shown = record { informs = false; refreshes = false; is_refreshing = false; jetstream_info = none }

-- The form is submitted, and the reply is still to come.
abbrev pressed : ReplayLive
pressed =
    start submit (react read_number read_number submit 0 (initial "" ""))
      (record { state = initial "" ""; waiting = [] })

submit_offered : Way submit (view shown (initial "" ""))
unfolding Submits Posts view is_disabled is_submitter
submit_offered =
    inside (
      rest
        (submit_it (inr (inr (inr (inr (inr (inr (inr (inr (inl (refl, refl)))))))))) (inl refl)))

Reach-one_replay_example :
    owners is_loading (owns kinds loading) pressed.waiting ≡ one_if pressed.state.is_loading
Reach-one_replay_example =
    Reach-one_replay read_number read_number "" "" pressed
      (later mount (press shown submit 0 (Way-Offers submit_offered)))
