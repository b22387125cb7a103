-- ===== src/Console.antt =====
-- The processor console, frontend/src/components/CoreFlow/CoreFlowProcessor.tsx: its state, its
-- handlers and the values that it shows. What a failing handler writes to the browser's console is
-- left out.
pub mod Laws
pub mod Display
pub mod Acting
pub mod Lab
pub mod View
pub mod Kinds
pub mod Presses
mod Tests
use nats_demo.Common.{
  ℕ, Bool, true, false, not, ◌||◌, String, Option, none, some, ◌==◌, str_eq, or_default,
  if◌then◌else◌,
}
use nats_demo.Task.{Task, done, update, catching, finally, ◌>>=◌, ◌>>◌}
use nats_demo.Api.{
  Fetch, Reply, ProcessorDirectStatus, ConsumerStatus, JetStreamInfo, FailureScenario, normal,
}
use nats_demo.Api.Processor.{
  get_processor_direct_status, restart_processor_worker, update_processor_direct_state,
  update_processor_scenario, update_processor_workers,
}

pub data LabTab : Type 0 where
  part_a part_b : LabTab

pub record Console : Type 0 where
  pub direct_status : Option ProcessorDirectStatus
  pub is_processing : Bool
  pub is_toggling : Bool
  pub is_connected : Bool
  pub is_setting_scenario : Bool
  pub copied_cli : Bool
  pub is_failure_lab_open : Bool
  pub is_scaling : Bool
  pub failure_lab_tab : LabTab

abbrev pub ConsoleHandler : Type 0
ConsoleHandler = Task Console Fetch Reply (Unit {0})

-- `n || d` for a number that may be missing: zero counts as missing.
abbrev pub or_number : Option ℕ → ℕ → ℕ
or_number none d = d
or_number (some n) d = if n == 0 then d else n

abbrev direct_workers : Option ProcessorDirectStatus → Option ℕ
direct_workers none = none
direct_workers (some d) = d.workers

abbrev consumer_workers : Option ConsumerStatus → ℕ
consumer_workers none = 1
consumer_workers (some c) = or_number (some c.workers) 1

-- `workerCount`
unfoldable pub worker_count : Option ConsumerStatus → Console → ℕ
worker_count consumer s = or_number (direct_workers s.direct_status) (consumer_workers consumer)

-- `activeScenario`
unfoldable pub active_scenario : Console → FailureScenario
active_scenario s = elim (s.direct_status) [
  | none ↦ normal
  | some d ↦ elim (d.scenario) [ none ↦ normal | some sc ↦ sc ]
]

-- `goroutineStatus`
unfoldable pub goroutine_status : Console → String
goroutine_status s =
    let shown = if s.is_processing then "RUNNING" else "PAUSED" in
    elim (s.direct_status) [ none ↦ shown | some d ↦ or_default d.goroutine_status shown ]

-- `activeGoroutines`, where a reported zero counts
unfoldable pub active_goroutines : Option ConsumerStatus → Console → ℕ
active_goroutines consumer s =
    let assumed = if s.is_processing then worker_count consumer s else 0 in
    elim (s.direct_status) [
      | none ↦ assumed
      | some d ↦ elim (d.active_goroutines) [ none ↦ assumed | some n ↦ n ]
    ]

-- `ackWaitSeconds`
unfoldable pub ack_wait_seconds : Console → ℕ
ack_wait_seconds s = elim (s.direct_status) [ none ↦ 5 | some d ↦ or_number d.ack_wait_seconds 5 ]

-- `refreshDirectData`
unfoldable pub refresh_direct_data : ConsoleHandler
refresh_direct_data =
    catching
      (do
        status ← get_processor_direct_status
        update (λ s. record s { direct_status = some status })
        update (λ s. record s { is_processing = status.processing })
        update (λ s. record s { is_connected = true }))
      (λ e. update (λ s. record s { is_connected = false }))

abbrev set_scaling : Bool → Console → Console
set_scaling b s = record s { is_scaling = b }

abbrev set_toggling : Bool → Console → Console
set_toggling b s = record s { is_toggling = b }

abbrev set_setting_scenario : Bool → Console → Console
set_setting_scenario b s = record s { is_setting_scenario = b }

-- `handleScaleWorkers`; `f` is the state of the render that made the handler.
unfoldable pub handle_scale_workers : Option ConsumerStatus → Console → ℕ → ConsoleHandler
handle_scale_workers consumer f new_count =
    if new_count == worker_count consumer f || f.is_scaling then done tt else (do
      update (set_scaling true)
      finally
          (catching (do status ← update_processor_workers new_count; refresh_direct_data)
            (λ e. done tt))
          (set_scaling false))

-- `handleToggle`
unfoldable pub handle_toggle : Console → ConsoleHandler
handle_toggle f = do
  update (set_toggling true)
  finally
      (catching
        (do
          res ← update_processor_direct_state (not f.is_processing)
          update (λ s. record s { is_processing = res.processing })
          refresh_direct_data)
        (λ e. done tt))
      (set_toggling false)

-- `handleSetScenario`
unfoldable pub handle_set_scenario : FailureScenario → ConsoleHandler
handle_set_scenario sc = do
  update (set_setting_scenario true)
  finally
      (catching (do res ← update_processor_scenario sc true; refresh_direct_data) (λ e. done tt))
      (set_setting_scenario false)

-- `handleRestart`
unfoldable pub handle_restart : ConsoleHandler
handle_restart = catching (do res ← restart_processor_worker; refresh_direct_data) (λ e. done tt)
