-- ===== src/Console/Acting.antt =====
-- What the elements and the timers of frontend/src/components/CoreFlow/CoreFlowProcessor.tsx start.
use nats_demo.Common.{ℕ, Bool, true, false, not, String, Option, none, if◌then◌else◌}
use nats_demo.Task.{done, update}
use nats_demo.Api.{ConsumerStatus, FailureScenario}
use nats_demo.Console.{
  Console, ConsoleHandler, LabTab, part_a, refresh_direct_data, handle_scale_workers, handle_toggle,
  handle_set_scenario, handle_restart,
}

pub data ConsoleEvent : Type 0 where
  show_info : (topic : String) → ConsoleEvent
  toggle_on toggle_off restart toggle_lab copy_cli : ConsoleEvent
  scale : Option ConsumerStatus → (count : ℕ) → ConsoleEvent
  show_tab : LabTab → ConsoleEvent
  set_scenario : FailureScenario → ConsoleEvent
  -- The interval, and the timer that follows a copy
  poll copy_over : ConsoleEvent

-- `s` is the state of the render whose element is used. Nothing is drawn at random.
unfoldable pub react : ConsoleEvent → (draw : ℕ) → Console → ConsoleHandler
react (show_info topic) draw s = done tt
react toggle_on draw s = if s.is_processing then done tt else handle_toggle s
react toggle_off draw s = if not s.is_processing then done tt else handle_toggle s
react restart draw s = handle_restart
react toggle_lab draw s =
    update (λ s'. record s' { is_failure_lab_open = not s.is_failure_lab_open })
react copy_cli draw s = update (λ s'. record s' { copied_cli = true })
react (scale consumer count) draw s = handle_scale_workers consumer s count
react (show_tab tab) draw s = update (λ s'. record s' { failure_lab_tab = tab })
react (set_scenario sc) draw s = handle_set_scenario sc
react poll draw s = refresh_direct_data
react copy_over draw s = update (λ s'. record s' { copied_cli = false })

-- What comes without the user
pub data Background : ConsoleEvent → Type 0 where
  polling : Background poll
  copied : Background copy_over

abbrev pub initial : Console
initial = record {
  direct_status = none;
  is_processing = true;
  is_toggling = false;
  is_connected = true;
  is_setting_scenario = false;
  copied_cli = false;
  is_failure_lab_open = false;
  is_scaling = false;
  failure_lab_tab = part_a;
}

-- The properties that the component reads: whether `onShowInfo` was given, what was reported of the
-- consumer, and the name of the stream in the broker's figures
pub record ConsoleProps : Type 0 where
  pub informs : Bool
  pub consumer : Option ConsumerStatus
  pub jetstream_stream : Option String
