-- ===== src/App/State.antt =====
-- The state that `App` of frontend/src/App.tsx keeps in its `useState` hooks.
use nats_demo.Common.{ℕ, Bool, false, String, List, [], ◌∷◌, Option, none, if◌then◌else◌}
use nats_demo.Task.{Task}
use nats_demo.Api.{
  ServiceStatus, unknown, disconnected, ServiceState, JetStreamInfo, ConsumerStatus, DlqStatus,
  QueueGroupStatus, Activity, JobDetailResponse, AddressingSubscription, AddressingEvent, Fetch,
  Reply,
}

-- What a timer runs when it fires; the argument is `silent`.
pub data Refresh : Type 0 where
  activity_refresh status_refresh : Bool → Refresh

-- `timers` collects the calls of `setTimeout` in order, newest first: the delay in milliseconds
-- and what it runs. The view and the open info topic are left to the components that set them.
pub record State : Type 0 where
  pub services : List ServiceStatus
  pub jetstream_info : Option JetStreamInfo
  pub consumer_status : Option ConsumerStatus
  pub dlq_status : Option DlqStatus
  pub queue_group_status : Option QueueGroupStatus
  pub activities : List Activity
  pub error : Option String
  pub success : Option String
  pub is_submitting : Bool
  pub is_validating : Bool
  pub is_refreshing_status : Bool
  pub is_refreshing_activity : Bool
  pub is_resetting_stream : Bool
  pub selected_job_id : Option String
  pub selected_job_detail : Option JobDetailResponse
  pub is_loading_inspector : Bool
  pub inspector_error : Option String
  pub subscriptions : List AddressingSubscription
  pub addressing_events : List AddressingEvent
  pub is_refreshing_addressing : Bool
  pub timers : List (ℕ × List Refresh)

abbrev service : String → ServiceState → String → ServiceStatus
service name status details = record {
  name = name;
  status = status;
  details = details;
  processing = none;
  workers = none;
}

abbrev pub default_services : List ServiceStatus
default_services =
    service "NATS Server (4222)" unknown "Status API not implemented"
    ∷ service "Demo Control (8080)" unknown "Status API not implemented"
    ∷ service "Job Service (8081)" unknown "Status API not implemented"
    ∷ service "processor-service" unknown "Status API not implemented"
    ∷ []

-- What the status bar shows while the gateway cannot be reached.
abbrev pub unreachable_services : List ServiceStatus
unreachable_services =
    service "NATS Server (4222)" disconnected "Demo backend is unreachable"
    ∷ service "job-service (8080)" disconnected "Job backend is unreachable"
    ∷ service "processor-service" disconnected "Demo backend is unreachable"
    ∷ []

abbrev pub initial_state : State
initial_state = record {
  services = default_services;
  jetstream_info = none;
  consumer_status = none;
  dlq_status = none;
  queue_group_status = none;
  activities = [];
  error = none;
  success = none;
  is_submitting = false;
  is_validating = false;
  is_refreshing_status = false;
  is_refreshing_activity = false;
  is_resetting_stream = false;
  selected_job_id = none;
  selected_job_detail = none;
  is_loading_inspector = false;
  inspector_error = none;
  subscriptions = [];
  addressing_events = [];
  is_refreshing_addressing = false;
  timers = [];
}

-- An asynchronous handler of `App`.
abbrev pub Handler : Type 0 → Type 0
Handler A = Task State Fetch Reply A

abbrev pub set_error : Option String → State → State
set_error e s = record s { error = e }

abbrev pub set_success : Option String → State → State
set_success m s = record s { success = m }

-- `if (!silent) f`
abbrev pub unless : Bool → (State → State) → State → State
unless silent f s = if silent then s else f s
