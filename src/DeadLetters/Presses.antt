-- ===== src/DeadLetters/Presses.antt =====
-- What can be pressed in frontend/src/components/DLQPanel.tsx while its handlers wait.
use nats_demo.Common.{ℕ, ◌≡◌, refl, Bool, false, String, [], Option, none, arith}
use nats_demo.Task.Together.{Together, TogetherReply}
use nats_demo.Html.{is_disabled}
use nats_demo.Html.Guarded.{Guarded, Posted, Sound, Guarded-each}
use nats_demo.Panel.{Live, Reach}
use nats_demo.Panel.Exclusive.{owners, one_if}
use nats_demo.Panel.Kinds.{KeepsKinds, owns, IsFree, owners_of_kind}
use nats_demo.Api.{Fetch, Reply, DlqMessage}
use nats_demo.DeadLetters.{
  DlqPanel, setup_disabled, cleanup_disabled, reprocess_disabled, purge_disabled,
}
use nats_demo.DeadLetters.Acting.{DlqEvent, poll, activity_due, react}
use nats_demo.DeadLetters.View.{
  view, heading, lifecycle, resources, simulation, operations, captured, message_row,
}
use nats_demo.DeadLetters.Kinds.{
  DlqKind, submitting, reprocessing, purging, setting_up, cleaning_up, flag, kind, kinds,
}
use nats_demo.DeadLetters.Handling.{react-Acts}

-- No button is offered while the flag is on of what it starts.
module _ (s : DlqPanel) where
  message_row-Guarded : (msg : DlqMessage) → Guarded (IsFree kinds s) (message_row s msg)
  unfolding Guarded message_row is_disabled Sound Posted
  message_row-Guarded msg = search depth 20

  heading-Guarded : (informs : Bool) → Guarded (IsFree kinds s) (heading informs s)
  unfolding Guarded heading is_disabled Sound Posted
  heading-Guarded informs = search depth 20

  lifecycle-Guarded : Guarded (IsFree kinds s) (lifecycle s)
  unfolding Guarded lifecycle is_disabled Sound Posted setup_disabled cleanup_disabled
  lifecycle-Guarded = ground arith

  resources-Guarded : Guarded (IsFree kinds s) (resources s)
  unfolding Guarded resources is_disabled Sound Posted
  resources-Guarded = search depth 20

  simulation-Guarded : Guarded (IsFree kinds s) (simulation s)
  unfolding Guarded simulation is_disabled Sound Posted
  simulation-Guarded = search depth 20

  operations-Guarded : Guarded (IsFree kinds s) (operations s)
  unfolding Guarded operations is_disabled Sound Posted reprocess_disabled purge_disabled
  operations-Guarded = ground arith

  captured-Guarded : Guarded (IsFree kinds s) (captured s)
  unfolding Guarded captured is_disabled Sound Posted
  captured-Guarded =
      let rows = Guarded-each (IsFree kinds s) (message_row s) s.dlq_messages message_row-Guarded in
      search depth 20

  view-Guarded : (informs : Bool) → Guarded (IsFree kinds s) (view informs s)
  unfolding Guarded view is_disabled Sound Posted
  view-Guarded informs =
      search
        (
          heading-Guarded, lifecycle-Guarded, resources-Guarded, simulation-Guarded,
          operations-Guarded, captured-Guarded,
        )
        depth 20

-- What comes without the user
pub data Background : DlqEvent → Type 0 where
  polling : Background poll
  telling : Background activity_due

-- The panel as it is mounted
abbrev pub initial : DlqPanel
initial = record {
  max_attempts = 3;
  is_submitting = false;
  is_reprocessing = false;
  is_purging = false;
  is_loading_dlq = false;
  is_setting_up = false;
  is_cleaning_up = false;
  dlq_status = none;
  dlq_messages = [];
  told = [];
  timers = [];
}

idle : {e : DlqEvent} → Background e → kind e ≡ none
idle polling = refl
idle telling = refl

panel : (parse_int : String → Option ℕ) → KeepsKinds kinds view (react parse_int) Background
panel parse_int = record {
  acts = react-Acts parse_int;
  guarded = λ informs s. view-Guarded s informs;
  idle = λ e b. idle b;
}

initially_off : (κ : DlqKind) → flag κ initial ≡ false
initially_off submitting = refl
initially_off reprocessing = refl
initially_off purging = refl
initially_off setting_up = refl
initially_off cleaning_up = refl

abbrev pub DlqLive : Type 0
DlqLive = Live DlqPanel (Together Fetch) (TogetherReply Reply) DlqEvent

-- However the user presses what the panel offers while handlers wait, and whatever its polls and the
-- replies are: of the handlers that send, reprocess, purge, set up or clean up, one at most of each
-- kind is in progress, and its flag is on exactly while it is.
pub Reach-one_at_a_time :
    (parse_int : String → Option ℕ) (κ : DlqKind) (d : DlqLive)
    → Reach view (react parse_int) Background initial d
    → owners (flag κ) (owns kinds κ) d.waiting ≡ one_if (flag κ d.state)
Reach-one_at_a_time parse_int κ d r = owners_of_kind kinds (panel parse_int) κ (initially_off κ) r
