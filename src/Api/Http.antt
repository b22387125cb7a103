-- ===== src/Api/Http.antt =====
-- Requests and replies of frontend/src/api/demoApi.ts. `Fetch` has a constructor for each call of
-- `fetch`; a reply is a network failure or a response whose body has been read. Between the head of
-- a response and its body the client runs no code, so the two waits are one.
use nats_demo.Common.{ℕ, Bool, ◌&&◌, String, List, Option, ltb, leb, ◌+s◌, decimal}
use nats_demo.Task.{Failure, error, Result, ok, err, Task, call, settle}
use nats_demo.Api.Types.{
  Job, JobStatusResponse, Activity, JetStreamInfo, DlqStatus, DlqMessage, ProcessorDirectEvent,
  FailureScenario, ProcessorDirectStatus, ScheduleJobRequest, ScheduleJobResponse, ValidationResult,
  JobDetailResponse, ReplayRequest, ReplayResponse, AddressingSubscription, AddressingEvent,
  ProcessorStateResponse, ConsumerStatus, QueueGroupStatus, QueuePublishResponse,
}

-- The objects returned by `GET /status`, as far as the client reads them. `services` is none where
-- the field is no array.
pub record RawService : Type 0 where
  pub name : String
  pub status : String
  pub processing : Option Bool
  pub workers : Option ℕ

pub record RawStatus : Type 0 where
  pub nats_status : Option String
  pub services : Option (List RawService)
  pub jetstream : Option JetStreamInfo

-- Replies whose type is written inline.
pub record ScenarioReply : Type 0 where
  pub status : String
  pub scenario : String
  pub once : Bool

pub record DirectStateReply : Type 0 where
  pub status : String
  pub processing : Bool

pub record StreamResetReply : Type 0 where
  pub status : String
  pub message : String
  pub stream : String

pub record ReprocessReply : Type 0 where
  pub reprocessed : ℕ
  pub jobs : List String
  pub message : String

pub record PurgeReply : Type 0 where
  pub purged : Bool
  pub stream : String
  pub message : String

pub record SetupReply : Type 0 where
  pub success : Bool
  pub message : String
  pub initialized : Bool

pub data Fetch : Type 0 where
  get_processor_events delete_processor_events get_processor_status : Fetch
  put_processor_scenario : FailureScenario → (once : Bool) → Fetch
  post_processor_restart : Fetch
  put_processor_workers : ℕ → Fetch
  put_direct_state : Bool → Fetch
  post_jobs : Job → Fetch
  post_stream_reset : Fetch
  post_jobs_schedule : ScheduleJobRequest → Fetch
  post_jobs_validate : Job → Fetch
  get_job : String → Fetch
  post_jobs_queue : ℕ → Fetch
  get_status get_activities delete_activities : Fetch
  post_jobs_replay : ReplayRequest → Fetch
  get_subscriptions get_messaging_activity : Fetch
  put_processor_state : Bool → Fetch
  get_consumer get_dlq_status get_dlq_messages : Fetch
  post_dlq_reprocess : Option String → Fetch
  post_dlq_purge post_dlq_setup post_dlq_cleanup : Fetch
  get_queue_group post_queue_group_reset : Fetch
  put_queue_group : ℕ → Fetch

abbrev pub Body : Fetch → Type 0
Body get_processor_events = List ProcessorDirectEvent
Body delete_processor_events = Unit {0}
Body get_processor_status = ProcessorDirectStatus
Body (put_processor_scenario _ _) = ScenarioReply
Body post_processor_restart = String
Body (put_processor_workers _) = ProcessorDirectStatus
Body (put_direct_state _) = DirectStateReply
Body (post_jobs _) = JobStatusResponse
Body post_stream_reset = StreamResetReply
Body (post_jobs_schedule _) = ScheduleJobResponse
Body (post_jobs_validate _) = ValidationResult
Body (get_job _) = JobDetailResponse
Body (post_jobs_queue _) = QueuePublishResponse
Body get_status = RawStatus
Body get_activities = List Activity
Body delete_activities = Unit {0}
Body (post_jobs_replay _) = ReplayResponse
Body get_subscriptions = Option (List AddressingSubscription)
Body get_messaging_activity = Option (List AddressingEvent)
Body (put_processor_state _) = ProcessorStateResponse
Body get_consumer = ConsumerStatus
Body get_dlq_status = DlqStatus
Body get_dlq_messages = List DlqMessage
Body (post_dlq_reprocess _) = ReprocessReply
Body post_dlq_purge = PurgeReply
Body post_dlq_setup = SetupReply
Body post_dlq_cleanup = SetupReply
Body get_queue_group = QueueGroupStatus
Body post_queue_group_reset = QueueGroupStatus
Body (put_queue_group _) = QueueGroupStatus

-- `text` and `json` are what `response.text()` and `response.json()` settle to.
pub record Response (A : Type 0) : Type 0 where
  pub status : ℕ
  pub status_text : String
  pub text : Result String
  pub json : Result A

abbrev pub Reply : Fetch → Type 0
Reply q = Result (Response (Body q))

-- `response.ok`, which the Fetch standard defines as a status from 200 to 299.
abbrev pub is_ok : {A : Type 0} → Response A → Bool
is_ok r = leb 200 r.status && ltb r.status 300

-- `await response.text().catch(() => 'Unknown error')`
abbrev pub error_text : {A : Type 0} → Response A → String
error_text r = elim (r.text) [ ok t ↦ t | err _ ↦ "Unknown error" ]

-- The two forms of the message that a function throws when `!response.ok`.
abbrev pub plain_error : {A : Type 0} → String → Response A → Failure
plain_error what r = error (what +s ": " +s r.status_text)

abbrev pub detailed_error : {A : Type 0} → String → Response A → Failure
detailed_error what r =
    error (what +s ": " +s decimal r.status +s " " +s r.status_text +s ". " +s error_text r)

-- A failed `fetch` throws before the response is looked at.
abbrev pub outcome : {A B : Type 0} → (Response A → Result B) → Result (Response A) → Result B
outcome f (ok response) = f response
outcome f (err e) = err e

module _ {S : Type 0} where
  -- `const response = await fetch(…)`, then `f` up to its `return` or `throw`.
  abbrev pub request :
      {B : Type 0} (q : Fetch) → (Response (Body q) → Result B) → Task S Fetch Reply B
  request q f = call q (λ r. settle (outcome f r))
