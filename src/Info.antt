-- ===== src/Info.antt =====
-- The texts behind the buttons marked (i): frontend/src/content/natsInfo.ts, the key that
-- frontend/src/App.tsx keeps of the one that is shown, and frontend/src/components/InfoPopover.tsx.
pub mod Types
mod Services
mod Processing
mod Panels
mod Laws
use nats_demo.Common.{String, List, [], ◌∷◌, Option, none, some, str_eq, if◌then◌else◌}
pub use Types.*
use nats_demo.Info.Services.{
  react_ui_info, job_service_info, demo_control_service_info, demo_service_info, nats_server_info,
  jobs_stream_info, jetstream_engine_info, dead_letter_queue_info,
}
use nats_demo.Info.Processing.{
  jobs_dlq_info, consumer_info, processor_service_info, platform_status_info, submit_job_info,
  message_deduplication_info, request_reply_info,
}
use nats_demo.Info.Panels.{
  jetstream_replay_info, activity_log_info, job_details_info, subject_addressing_info,
  metrics_observability_info, queue_groups_info, delayed_retry_delivery_info,
}

unfoldable pub nats_components_info : List (String × NatsComponentInfo)
nats_components_info =
    ("react-ui", react_ui_info)
    ∷ ("job-service", job_service_info)
    ∷ ("demo-control-service", demo_control_service_info)
    ∷ ("demo-service", demo_service_info)
    ∷ ("nats-server", nats_server_info)
    ∷ ("jobs-stream", jobs_stream_info)
    ∷ ("jetstream-engine", jetstream_engine_info)
    ∷ ("dead-letter-queue", dead_letter_queue_info)
    ∷ ("jobs-dlq", jobs_dlq_info)
    ∷ ("consumer", consumer_info)
    ∷ ("processor-service", processor_service_info)
    ∷ ("platform-status", platform_status_info)
    ∷ ("submit-job", submit_job_info)
    ∷ ("message-deduplication", message_deduplication_info)
    ∷ ("request-reply", request_reply_info)
    ∷ ("jetstream-replay", jetstream_replay_info)
    ∷ ("activity-log", activity_log_info)
    ∷ ("job-details", job_details_info)
    ∷ ("subject-addressing", subject_addressing_info)
    ∷ ("metrics-observability", metrics_observability_info)
    ∷ ("queue-groups", queue_groups_info)
    ∷ ("delayed-retry-delivery", delayed_retry_delivery_info)
    ∷ []

-- `record[key]`
unfoldable pub entry_of : List (String × NatsComponentInfo) → String → Option NatsComponentInfo
entry_of [] key = none
entry_of ((k, info) ∷ l) key = if str_eq k key then some info else entry_of l key

-- `activeInfoKey ? NATS_COMPONENTS_INFO[activeInfoKey] : null`, which the popover shows
unfoldable pub shown_info : Option String → Option NatsComponentInfo
shown_info none = none
shown_info (some key) = if str_eq key "" then none else entry_of nats_components_info key

-- `handleKeyDown`, with `onClose` as `setActiveInfoKey(null)`
unfoldable pub handle_key_down : String → Option String → Option String
handle_key_down key active = if str_eq key "Escape" then none else active

-- The buttons, by the panel that they stand in
pub data InfoButton : Type 0 where
  request_reply_panel queue_group_panel core_flow_nats_cli core_flow_processor core_flow_publisher
        job_panel delayed_retry_panel replay_panel addressing_panel observability_panel dlq_panel
        activity_panel job_inspector_panel deduplication_panel status_panel :
      InfoButton

abbrev request_reply_panel_key : String
request_reply_panel_key = "request-reply"

abbrev queue_group_panel_key : String
queue_group_panel_key = "queue-groups"

abbrev core_flow_nats_cli_key : String
core_flow_nats_cli_key = "jetstream-engine"

abbrev core_flow_processor_key : String
core_flow_processor_key = "processor-service"

abbrev core_flow_publisher_key : String
core_flow_publisher_key = "submit-job"

abbrev job_panel_key : String
job_panel_key = "submit-job"

abbrev delayed_retry_panel_key : String
delayed_retry_panel_key = "delayed-retry-delivery"

abbrev replay_panel_key : String
replay_panel_key = "jetstream-replay"

abbrev addressing_panel_key : String
addressing_panel_key = "subject-addressing"

abbrev observability_panel_key : String
observability_panel_key = "metrics-observability"

abbrev dlq_panel_key : String
dlq_panel_key = "dead-letter-queue"

abbrev activity_panel_key : String
activity_panel_key = "activity-log"

abbrev job_inspector_panel_key : String
job_inspector_panel_key = "job-details"

abbrev deduplication_panel_key : String
deduplication_panel_key = "message-deduplication"

abbrev status_panel_key : String
status_panel_key = "platform-status"

-- What a button passes to `onShowInfo`, which is `setActiveInfoKey`
unfoldable pub info_key : InfoButton → String
info_key request_reply_panel = request_reply_panel_key
info_key queue_group_panel = queue_group_panel_key
info_key core_flow_nats_cli = core_flow_nats_cli_key
info_key core_flow_processor = core_flow_processor_key
info_key core_flow_publisher = core_flow_publisher_key
info_key job_panel = job_panel_key
info_key delayed_retry_panel = delayed_retry_panel_key
info_key replay_panel = replay_panel_key
info_key addressing_panel = addressing_panel_key
info_key observability_panel = observability_panel_key
info_key dlq_panel = dlq_panel_key
info_key activity_panel = activity_panel_key
info_key job_inspector_panel = job_inspector_panel_key
info_key deduplication_panel = deduplication_panel_key
info_key status_panel = status_panel_key
