-- ===== src/Api/Processor.antt =====
-- The functions of frontend/src/api/demoApi.ts that call processor-service on port 8082.
use nats_demo.Common.{ℕ, Bool, String, List, if◌then◌else◌}
use nats_demo.Task.{Task, ok, err}
use nats_demo.Api.Types.{ProcessorDirectEvent, FailureScenario, ProcessorDirectStatus}
use nats_demo.Api.Http.{
  Fetch, Reply, request, is_ok, plain_error, ScenarioReply, DirectStateReply, get_processor_events,
  delete_processor_events, get_processor_status, put_processor_scenario, post_processor_restart,
  put_processor_workers, put_direct_state,
}

module _ {S : Type 0} where
  -- `getProcessorDirectEvents`
  unfoldable pub get_processor_direct_events : Task S Fetch Reply (List ProcessorDirectEvent)
  get_processor_direct_events = request get_processor_events λ response.
      if is_ok response
      then response.json
      else err (plain_error "Failed to fetch processor events" response)

  -- `clearProcessorDirectEvents`
  unfoldable pub clear_processor_direct_events : Task S Fetch Reply (Unit {0})
  clear_processor_direct_events = request delete_processor_events λ response.
      if is_ok response
      then ok tt
      else err (plain_error "Failed to clear processor events" response)

  -- `getProcessorDirectStatus`
  unfoldable pub get_processor_direct_status : Task S Fetch Reply ProcessorDirectStatus
  get_processor_direct_status = request get_processor_status λ response.
      if is_ok response
      then response.json
      else err (plain_error "Failed to fetch processor status" response)

  -- `updateProcessorScenario`
  unfoldable pub update_processor_scenario :
      FailureScenario → Bool → Task S Fetch Reply ScenarioReply
  update_processor_scenario scenario once =
      request (put_processor_scenario scenario once) λ response.
        if is_ok response
        then response.json
        else err (plain_error "Failed to update processor scenario" response)

  -- `restartProcessorWorker`
  unfoldable pub restart_processor_worker : Task S Fetch Reply String
  restart_processor_worker = request post_processor_restart λ response.
      if is_ok response
      then response.json
      else err (plain_error "Failed to restart processor worker" response)

  -- `updateProcessorWorkers`
  unfoldable pub update_processor_workers : ℕ → Task S Fetch Reply ProcessorDirectStatus
  update_processor_workers workers = request (put_processor_workers workers) λ response.
      if is_ok response
      then response.json
      else err (plain_error "Failed to update processor workers" response)

  -- `updateProcessorDirectState`
  unfoldable pub update_processor_direct_state : Bool → Task S Fetch Reply DirectStateReply
  update_processor_direct_state enabled = request (put_direct_state enabled) λ response.
      if is_ok response
      then response.json
      else err (plain_error "Failed to update processor state" response)
