-- ===== src/Replay/Presses.antt =====
-- What can be pressed in frontend/src/components/ReplayPanel.tsx while a replay is asked for.
use nats_demo.Common.{◌≡◌, refl, false, String, arith}
use nats_demo.Task.{Result}
use nats_demo.Html.{is_disabled, is_submitter}
use nats_demo.Html.Guarded.{Guarded, Held, Posted, Sound}
use nats_demo.Panel.{Live, Reach}
use nats_demo.Panel.Exclusive.{owners, one_if}
use nats_demo.Panel.Kinds.{owns, IsFree, owners_of_kind}
use nats_demo.Api.{ReplayRequest, ReplayResponse}
use nats_demo.Replay.{Number, ReplayForm}
use nats_demo.Replay.Acting.{ReplayEvent, react, initial}
use nats_demo.Replay.Fields.{ReplayProps, position, sequence_fields, time_fields, pace}
use nats_demo.Replay.View.{view, heading, stored}
use nats_demo.Replay.Kinds.{loading, kinds, is_loading, react-Acts}

-- Nothing is offered that would start a second one: the fields and the button by which the form can be
-- submitted are disabled meanwhile.
module _ (props : ReplayProps) (s : ReplayForm) where
  abbrev Idle : Type 0
  Idle = s.is_loading ≡ false

  heading-Guarded : Guarded (IsFree kinds s) (heading props s)
  unfolding Guarded heading is_disabled Sound Posted
  heading-Guarded = search depth 20

  stored-Guarded : Guarded (IsFree kinds s) (stored props s)
  unfolding Guarded stored is_disabled Sound Posted
  stored-Guarded = search depth 30

  stored-Held : Held (IsFree kinds s) Idle (stored props s)
  unfolding Held stored is_disabled is_submitter
  stored-Held = ground arith

  position-Guarded : Guarded (IsFree kinds s) (position props s)
  unfolding Guarded position is_disabled Sound Posted
  position-Guarded = search depth 30

  position-Held : Held (IsFree kinds s) Idle (position props s)
  unfolding Held position is_disabled is_submitter
  position-Held = ground arith

  sequence_fields-Guarded : Guarded (IsFree kinds s) (sequence_fields props s)
  unfolding Guarded sequence_fields is_disabled Sound Posted
  sequence_fields-Guarded = search depth 30

  sequence_fields-Held : Held (IsFree kinds s) Idle (sequence_fields props s)
  unfolding Held sequence_fields is_disabled is_submitter
  sequence_fields-Held = ground arith

  time_fields-Guarded : Guarded (IsFree kinds s) (time_fields props s)
  unfolding Guarded time_fields is_disabled Sound Posted
  time_fields-Guarded = search depth 30

  time_fields-Held : Held (IsFree kinds s) Idle (time_fields props s)
  unfolding Held time_fields is_disabled is_submitter
  time_fields-Held = ground arith

  pace-Guarded : Guarded (IsFree kinds s) (pace props s)
  unfolding Guarded pace is_disabled Sound Posted
  pace-Guarded = search depth 30

  pace-Held : Held (IsFree kinds s) Idle (pace props s)
  unfolding Held pace is_disabled is_submitter
  pace-Held = ground arith

  view-Guarded : Guarded (IsFree kinds s) (view props s)
  unfolding Guarded view is_disabled is_submitter Sound Posted Held
  view-Guarded = ground (
    arith, heading-Guarded, stored-Guarded, stored-Held, position-Guarded, position-Held,
    sequence_fields-Guarded, sequence_fields-Held, time_fields-Guarded, time_fields-Held,
    pace-Guarded, pace-Held,
  )

abbrev pub ReplayLive : Type 0
ReplayLive = Live ReplayForm ReplayRequest (λ q. Result ReplayResponse) ReplayEvent

-- Nothing comes without the user.
pub data Background : ReplayEvent → Type 0 where

-- Whatever is typed and pressed while a replay is asked for, Enter in a field included, no second one is
-- asked for: there is one exactly while the form shows that it waits.
pub Reach-one_replay :
    (parse_int time_ms : String → Number) (hour_ago now : String) (d : ReplayLive)
    → Reach view (react parse_int time_ms) Background (initial hour_ago now) d
    → owners is_loading (owns kinds loading) d.waiting ≡ one_if d.state.is_loading
Reach-one_replay parse_int time_ms hour_ago now d r =
    owners_of_kind kinds
      (record {
        acts = react-Acts parse_int time_ms;
        guarded = view-Guarded;
        idle = λ e b. elim b [ ];
      })
      loading refl r
