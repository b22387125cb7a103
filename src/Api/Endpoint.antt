-- ===== src/Api/Endpoint.antt =====
-- The method and the address of each request of frontend/src/api/demoApi.ts. An identifier stands in
-- the address as it is.
use nats_demo.Common.{String, ◌+s◌}
use nats_demo.Api.Http.{
  Fetch, get_processor_events, delete_processor_events, get_processor_status,
  put_processor_scenario, post_processor_restart, put_processor_workers, put_direct_state,
  post_jobs, post_stream_reset, post_jobs_schedule, post_jobs_validate, get_job, post_jobs_queue,
  get_status, get_activities, delete_activities, post_jobs_replay, get_subscriptions,
  get_messaging_activity, put_processor_state, get_consumer, get_dlq_status, get_dlq_messages,
  post_dlq_reprocess, post_dlq_purge, post_dlq_setup, post_dlq_cleanup, get_queue_group,
  post_queue_group_reset, put_queue_group,
}

pub data Method : Type 0 where
  get post put delete : Method

abbrev demo_control_url : String
demo_control_url = "http://localhost:8080"

abbrev job_service_url : String
job_service_url = "http://localhost:8081"

abbrev processor_service_url : String
processor_service_url = "http://localhost:8082"

unfoldable pub endpoint : Fetch → Method × String
endpoint get_processor_events = (get, processor_service_url +s "/processor/events")
endpoint delete_processor_events = (delete, processor_service_url +s "/processor/events")
endpoint get_processor_status = (get, processor_service_url +s "/processor/status")
endpoint (put_processor_scenario sc once) = (put, processor_service_url +s "/processor/scenario")
endpoint post_processor_restart = (post, processor_service_url +s "/processor/restart")
endpoint (put_processor_workers n) = (put, processor_service_url +s "/processor/workers")
endpoint (put_direct_state b) = (put, processor_service_url +s "/processor/state")
endpoint (post_jobs job) = (post, job_service_url +s "/jobs")
endpoint post_stream_reset = (post, job_service_url +s "/stream/reset")
endpoint (post_jobs_schedule req) = (post, job_service_url +s "/jobs/schedule")
endpoint (post_jobs_validate job) = (post, job_service_url +s "/jobs/validate")
endpoint (get_job job_id) = (get, job_service_url +s "/jobs/" +s job_id)
endpoint (post_jobs_queue n) = (post, job_service_url +s "/jobs/queue")
endpoint get_status = (get, demo_control_url +s "/status")
endpoint get_activities = (get, demo_control_url +s "/activities")
endpoint delete_activities = (delete, demo_control_url +s "/activities")
endpoint (post_jobs_replay req) = (post, demo_control_url +s "/jobs/replay")
endpoint get_subscriptions = (get, demo_control_url +s "/messaging/subscriptions")
endpoint get_messaging_activity = (get, demo_control_url +s "/messaging/activity")
endpoint (put_processor_state b) = (put, demo_control_url +s "/processor/state")
endpoint get_consumer = (get, demo_control_url +s "/consumer")
endpoint get_dlq_status = (get, demo_control_url +s "/dlq/status")
endpoint get_dlq_messages = (get, demo_control_url +s "/dlq/messages")
endpoint (post_dlq_reprocess job_id) = (post, demo_control_url +s "/dlq/reprocess")
endpoint post_dlq_purge = (post, demo_control_url +s "/dlq/purge")
endpoint post_dlq_setup = (post, demo_control_url +s "/dlq/setup")
endpoint post_dlq_cleanup = (post, demo_control_url +s "/dlq/cleanup")
endpoint get_queue_group = (get, demo_control_url +s "/queue-group")
endpoint post_queue_group_reset = (post, demo_control_url +s "/queue-group/reset")
endpoint (put_queue_group n) = (put, demo_control_url +s "/queue-group")
