-- ===== src/Api/Queue.antt =====
-- The functions of frontend/src/api/demoApi.ts for the dead-letter queue and the queue group.
use nats_demo.Common.{ℕ, String, List, Option, none, some, if◌then◌else◌, str_eq}
use nats_demo.Task.{Task, err}
use nats_demo.Api.Types.{DlqStatus, DlqMessage, QueueGroupStatus}
use nats_demo.Api.Http.{
  Fetch, Reply, request, is_ok, detailed_error, ReprocessReply, PurgeReply, SetupReply,
  get_dlq_status, get_dlq_messages, post_dlq_reprocess, post_dlq_purge, post_dlq_setup,
  post_dlq_cleanup, get_queue_group, put_queue_group, post_queue_group_reset,
}

-- `jobId ? { job_id: jobId } : {}`: the empty text asks for all messages, as no text does.
abbrev non_empty : Option String → Option String
non_empty none = none
non_empty (some s) = if str_eq s "" then none else some s

module _ {S : Type 0} where
  -- `getDLQStatus`
  unfoldable pub fetch_dlq_status : Task S Fetch Reply DlqStatus
  fetch_dlq_status = request get_dlq_status λ response.
      if is_ok response
      then response.json
      else err (detailed_error "Failed to fetch DLQ status" response)

  -- `getDLQMessages`
  unfoldable pub fetch_dlq_messages : Task S Fetch Reply (List DlqMessage)
  fetch_dlq_messages = request get_dlq_messages λ response.
      if is_ok response
      then response.json
      else err (detailed_error "Failed to fetch DLQ messages" response)

  -- `reprocessDLQMessages`
  unfoldable pub reprocess_dlq_messages : Option String → Task S Fetch Reply ReprocessReply
  reprocess_dlq_messages job_id = request (post_dlq_reprocess (non_empty job_id)) λ response.
      if is_ok response
      then response.json
      else err (detailed_error "Failed to reprocess DLQ messages" response)

  -- `purgeDLQ`
  unfoldable pub purge_dlq : Task S Fetch Reply PurgeReply
  purge_dlq = request post_dlq_purge λ response.
      if is_ok response
      then response.json
      else err (detailed_error "Failed to purge DLQ stream" response)

  -- `setupDLQ`
  unfoldable pub setup_dlq : Task S Fetch Reply SetupReply
  setup_dlq = request post_dlq_setup λ response.
      if is_ok response
      then response.json
      else err (detailed_error "Failed to setup DLQ prerequisites" response)

  -- `cleanupDLQ`
  unfoldable pub cleanup_dlq : Task S Fetch Reply SetupReply
  cleanup_dlq = request post_dlq_cleanup λ response.
      if is_ok response
      then response.json
      else err (detailed_error "Failed to cleanup DLQ prerequisites" response)

  -- `getQueueGroupStatus`
  unfoldable pub get_queue_group_status : Task S Fetch Reply QueueGroupStatus
  get_queue_group_status = request get_queue_group λ response.
      if is_ok response
      then response.json
      else err (detailed_error "Failed to fetch queue group status" response)

  -- `updateQueueGroupWorkers`
  unfoldable pub update_queue_group_workers : ℕ → Task S Fetch Reply QueueGroupStatus
  update_queue_group_workers workers = request (put_queue_group workers) λ response.
      if is_ok response
      then response.json
      else err (detailed_error "Failed to update queue group workers" response)

  -- `resetQueueGroupDistribution`
  unfoldable pub reset_queue_group_distribution : Task S Fetch Reply QueueGroupStatus
  reset_queue_group_distribution = request post_queue_group_reset λ response.
      if is_ok response
      then response.json
      else err (detailed_error "Failed to reset queue group distribution" response)
