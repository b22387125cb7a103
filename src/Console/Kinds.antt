-- ===== src/Console/Kinds.antt =====
-- The flags by which frontend/src/components/CoreFlow/CoreFlowProcessor.tsx disables its buttons, and
-- which of them the handler of an event turns on.
use nats_demo.Common.{◌≡◌, refl, Bool, true, false, Option, none, some, arith, if◌then◌else◌, ℕ}
use nats_demo.Task.{done}
use nats_demo.Task.Keeping.{Maintains-done, Maintains-update, Maintains-step, Maintains-asked}
use nats_demo.Api.{ConsumerStatus, FailureScenario}
use nats_demo.Api.Processor.{
  get_processor_direct_status, restart_processor_worker, update_processor_direct_state,
  update_processor_scenario, update_processor_workers,
}
use nats_demo.Panel.Kinds.{Kinds, Acts, LeavesAll}
use nats_demo.Panel.Taking.{Raises, Raises-Takes, skip-Takes}
use nats_demo.Console.{
  Console, refresh_direct_data, handle_scale_workers, handle_toggle, handle_set_scenario,
  handle_restart,
}
use nats_demo.Console.Acting.{
  ConsoleEvent, show_info, toggle_on, toggle_off, restart, toggle_lab, copy_cli, scale, show_tab,
  set_scenario, poll, copy_over, react,
}

pub data ConsoleKind : Type 0 where
  toggling scaling setting : ConsoleKind

pub record Flags : Type 0 where
  pub is_toggling : Bool
  pub is_scaling : Bool
  pub is_setting_scenario : Bool

abbrev pub flags : Console → Flags
flags s = record {
  is_toggling = s.is_toggling;
  is_scaling = s.is_scaling;
  is_setting_scenario = s.is_setting_scenario;
}

abbrev pub among : ConsoleKind → Flags → Bool
among toggling f = f.is_toggling
among scaling f = f.is_scaling
among setting f = f.is_setting_scenario

abbrev pub flag : ConsoleKind → Console → Bool
flag κ s = among κ (flags s)

abbrev pub set_flag : ConsoleKind → Bool → Console → Console
set_flag toggling b s = record s { is_toggling = b }
set_flag scaling b s = record s { is_scaling = b }
set_flag setting b s = record s { is_setting_scenario = b }

abbrev pub same : ConsoleKind → ConsoleKind → Bool
same toggling toggling = true
same scaling scaling = true
same setting setting = true
same _ _ = false

abbrev pub kind : ConsoleEvent → Option ConsoleKind
kind toggle_on = some toggling
kind toggle_off = some toggling
kind (scale consumer count) = some scaling
kind (set_scenario sc) = some setting
kind _ = none

pub same_eq : (κ μ : ConsoleKind) → same κ μ ≡ true → κ ≡ μ
same_eq toggling μ h = ground arith
same_eq scaling μ h = ground arith
same_eq setting μ h = ground arith

pub flag-set_flag :
    (κ μ : ConsoleKind) (b : Bool) (s : Console)
    → flag κ (set_flag μ b s) ≡ (if same κ μ then b else flag κ s)
flag-set_flag toggling μ b s = ground arith
flag-set_flag scaling μ b s = ground arith
flag-set_flag setting μ b s = ground arith

abbrev pub kinds : Kinds Console ConsoleEvent
kinds = record {
  Kind = ConsoleKind;
  same = same;
  flag = flag;
  set_flag = set_flag;
  kind = kind;
  same_eq = same_eq;
  flag-set_flag = flag-set_flag;
}

poll-LeavesAll : LeavesAll kinds refresh_direct_data
unfolding refresh_direct_data get_processor_direct_status
poll-LeavesAll κ b =
    Maintains-asked _ _ _ _
      (λ status.
        Maintains-step _ _ (λ s i. i)
          (Maintains-step _ _ (λ s i. i) (Maintains-update _ (λ s i. i))))
      (λ e. Maintains-update _ (λ s i. i))

restart-LeavesAll : LeavesAll kinds handle_restart
unfolding handle_restart restart_processor_worker
restart-LeavesAll κ b =
    Maintains-asked _ _ _ _ (λ res. poll-LeavesAll κ b) (λ e. Maintains-done _ tt)

scale-Acts :
    (consumer : Option ConsumerStatus) (f s : Console) (n : ℕ)
    → Acts kinds (some scaling) s (handle_scale_workers consumer f n)
unfolding handle_scale_workers update_processor_workers
scale-Acts consumer f s n = skip-Takes kinds scaling s _ _ (
    Raises-Takes kinds _ s _ refl (record {
      body = _;
      shape = refl;
      leaves =
          λ κ b. Maintains-asked _ _ _ _ (λ res. poll-LeavesAll κ b) (λ e. Maintains-done _ tt);
    }))

toggle-Raises : (f : Console) → Raises kinds toggling (handle_toggle f)
unfolding handle_toggle update_processor_direct_state
toggle-Raises f = record {
  body = _;
  shape = refl;
  leaves = λ κ b.
      Maintains-asked _ _ _ _ (λ res. Maintains-step _ _ (λ s i. i) (poll-LeavesAll κ b))
        (λ e. Maintains-done _ tt);
}

toggle-Acts :
    (c : Bool) (f s : Console)
    → Acts kinds (some toggling) s (if c then done tt else handle_toggle f)
toggle-Acts c f s =
    skip-Takes kinds toggling s c _ (Raises-Takes kinds _ s _ refl (toggle-Raises f))

scenario-Raises : (sc : FailureScenario) → Raises kinds setting (handle_set_scenario sc)
unfolding handle_set_scenario update_processor_scenario
scenario-Raises sc = record {
  body = _;
  shape = refl;
  leaves = λ κ b. Maintains-asked _ _ _ _ (λ res. poll-LeavesAll κ b) (λ e. Maintains-done _ tt);
}

pub react-Acts :
    (e : ConsoleEvent) (draw : ℕ) (s : Console) → Acts kinds (kind e) s (react e draw s)
unfolding react
react-Acts (show_info topic) draw s = λ κ b. Maintains-done _ tt
react-Acts toggle_on draw s = toggle-Acts _ s s
react-Acts toggle_off draw s = toggle-Acts _ s s
react-Acts restart draw s = restart-LeavesAll
react-Acts toggle_lab draw s = λ κ b. Maintains-update _ (λ s' i. i)
react-Acts copy_cli draw s = λ κ b. Maintains-update _ (λ s' i. i)
react-Acts (scale consumer n) draw s = scale-Acts consumer s s n
react-Acts (show_tab tab) draw s = λ κ b. Maintains-update _ (λ s' i. i)
react-Acts (set_scenario sc) draw s = Raises-Takes kinds _ s _ refl (scenario-Raises sc)
react-Acts poll draw s = poll-LeavesAll
react-Acts copy_over draw s = λ κ b. Maintains-update _ (λ s' i. i)
