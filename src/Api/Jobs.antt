-- ===== src/Api/Jobs.antt =====
-- The functions of frontend/src/api/demoApi.ts that call job-service on port 8081.
use nats_demo.Common.{ℕ, String, none, some, if◌then◌else◌, ◌==◌, ◌+s◌, true}
use nats_demo.Task.{Task, ok, err}
use nats_demo.Api.Types.{
  Job, JobStatusResponse, ScheduleJobRequest, ScheduleJobResponse, ValidationResult,
  JobDetailResponse, QueuePublishResponse,
}
use nats_demo.Api.Http.{
  Fetch, Reply, request, is_ok, detailed_error, StreamResetReply, post_jobs, post_stream_reset,
  post_jobs_schedule, post_jobs_validate, get_job, post_jobs_queue,
}

-- What a validation reports when no responder answered in time (HTTP 504).
abbrev no_responder : ValidationResult
no_responder = record {
  valid = none;
  message = none;
  error = some "No response received from processor service";
  timed_out = some true;
}

module _ {S : Type 0} where
  -- `submitJob`
  unfoldable pub submit_job : Job → Task S Fetch Reply JobStatusResponse
  submit_job job = request (post_jobs job) λ response.
      if is_ok response then response.json else err (detailed_error "Failed to submit job" response)

  -- `resetJobsStream`
  unfoldable pub reset_jobs_stream : Task S Fetch Reply StreamResetReply
  reset_jobs_stream = request post_stream_reset λ response.
      if is_ok response
      then response.json
      else err (detailed_error "Failed to recreate stream" response)

  -- `scheduleJob`
  unfoldable pub schedule_job : ScheduleJobRequest → Task S Fetch Reply ScheduleJobResponse
  schedule_job req = request (post_jobs_schedule req) λ response.
      if is_ok response
      then response.json
      else err (detailed_error "Failed to schedule job" response)

  -- `validateJob`
  unfoldable pub validate_job : Job → Task S Fetch Reply ValidationResult
  validate_job job = request (post_jobs_validate job) λ response.
      if response.status == 504
      then ok no_responder
      else if is_ok response
      then response.json
      else err (detailed_error "Failed to validate job" response)

  -- `getJobDetail`
  unfoldable pub get_job_detail : String → Task S Fetch Reply JobDetailResponse
  get_job_detail job_id = request (get_job job_id) λ response.
      if is_ok response
      then response.json
      else err (detailed_error ("Failed to fetch job detail for \"" +s job_id +s "\"") response)

  -- `sendQueueTestMessages`
  unfoldable pub send_queue_test_messages : ℕ → Task S Fetch Reply QueuePublishResponse
  send_queue_test_messages count = request (post_jobs_queue count) λ response.
      if is_ok response
      then response.json
      else err (detailed_error "Failed to send queue test messages" response)
