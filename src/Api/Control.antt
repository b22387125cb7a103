-- ===== src/Api/Control.antt =====
-- The functions of frontend/src/api/demoApi.ts that call demo-control-service on port 8080:
-- activities, replay, addressing, the processor switch and the consumer.
use nats_demo.Common.{Bool, List, Option, none, some, if◌then◌else◌, []}
use nats_demo.Task.{Task, Result, ok, err}
use nats_demo.Api.Types.{
  Activity, ReplayRequest, ReplayResponse, AddressingSubscription, AddressingEvent,
  ProcessorStateResponse, ConsumerStatus,
}
use nats_demo.Api.Http.{
  Fetch, Reply, request, is_ok, detailed_error, get_activities, delete_activities, post_jobs_replay,
  get_subscriptions, get_messaging_activity, put_processor_state, get_consumer,
}

-- `data.subscriptions || []`
abbrev or_empty : {A : Type 0} → Option (List A) → List A
or_empty none = []
or_empty (some l) = l

abbrev map_result : {A B : Type 0} → (A → B) → Result A → Result B
map_result f (ok a) = ok (f a)
map_result f (err e) = err e

module _ {S : Type 0} where
  -- `getActivity`
  unfoldable pub get_activity : Task S Fetch Reply (List Activity)
  get_activity = request get_activities λ response.
      if is_ok response
      then response.json
      else err (detailed_error "Failed to fetch activity logs" response)

  -- `clearActivity`
  unfoldable pub clear_activity : Task S Fetch Reply (Unit {0})
  clear_activity = request delete_activities λ response.
      if is_ok response
      then ok tt
      else err (detailed_error "Failed to clear activity logs" response)

  -- `replayJobs`
  unfoldable pub replay_jobs : ReplayRequest → Task S Fetch Reply ReplayResponse
  replay_jobs req = request (post_jobs_replay req) λ response.
      if is_ok response
      then response.json
      else err (detailed_error "Failed to trigger replay" response)

  -- `getAddressingSubscriptions`
  unfoldable pub get_addressing_subscriptions : Task S Fetch Reply (List AddressingSubscription)
  get_addressing_subscriptions = request get_subscriptions λ response.
      if is_ok response
      then map_result or_empty response.json
      else err (detailed_error "Failed to fetch addressing subscriptions" response)

  -- `getAddressingActivity`
  unfoldable pub get_addressing_activity : Task S Fetch Reply (List AddressingEvent)
  get_addressing_activity = request get_messaging_activity λ response.
      if is_ok response
      then map_result or_empty response.json
      else err (detailed_error "Failed to fetch addressing activity" response)

  -- `updateProcessorState`
  unfoldable pub update_processor_state : Bool → Task S Fetch Reply ProcessorStateResponse
  update_processor_state enabled = request (put_processor_state enabled) λ response.
      if is_ok response
      then response.json
      else err (detailed_error "Failed to update processor state" response)

  -- `getConsumerStatus`
  unfoldable pub get_consumer_status : Task S Fetch Reply ConsumerStatus
  get_consumer_status = request get_consumer λ response.
      if is_ok response
      then response.json
      else err (detailed_error "Failed to fetch consumer status" response)
