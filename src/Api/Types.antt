-- ===== src/Api/Types.antt =====
-- The interfaces of frontend/src/api/demoApi.ts. A field `f?: T` is an `Option T`; a union of
-- string literals is an enumeration; numbers that count or index are naturals.
use nats_demo.Common.{ℕ, Bool, true, false, String, List, Option}

-- A value of `any`, such as a job's payload: what JSON can express. Numbers are naturals.
mutual
  pub data Json : Type 0 where
    null : Json
    bool : Bool → Json
    num : ℕ → Json
    str : String → Json
    arr : Items → Json
    obj : Fields → Json

  pub data Items : Type 0 where
    nil : Items
    cons : Json → Items → Items

  pub data Fields : Type 0 where
    end : Fields
    field : String → Json → Fields → Fields

pub record Job : Type 0 where
  pub job_id : String
  pub type : Option String
  pub subject : Option String
  pub delivery_mode : Option String
  pub msg_id : Option String
  pub source : Option String
  pub content_type : Option String
  pub headers : Option (List (String × String))
  pub payload : Json
  pub trace_id : Option String

pub record JobStatusResponse : Type 0 where
  pub job_id : String
  pub status : String
  pub trace_id : Option String

pub data Category : Type 0 where
  business lifecycle : Category

pub record Activity : Type 0 where
  pub timestamp : String
  pub job_id : String
  pub event : String
  pub subject : String
  pub worker : String
  pub delivery_count : ℕ
  pub delivery_mode : Option String
  pub sequence : Option ℕ
  pub msg_id : Option String
  pub job_type : Option String
  pub trace_id : Option String
  pub category : Option Category
  pub action : Option String

pub data ServiceState : Type 0 where
  active connected disconnected unknown running stopped : ServiceState

-- `status === 'disconnected'`
abbrev pub is_disconnected : ServiceState → Bool
is_disconnected disconnected = true
is_disconnected _ = false

pub record ServiceStatus : Type 0 where
  pub name : String
  pub status : ServiceState
  pub details : String
  pub processing : Option Bool
  pub workers : Option ℕ

pub record JetStreamInfo : Type 0 where
  pub stream : String
  pub messages : Option ℕ
  pub bytes : Option ℕ
  pub first_seq : Option ℕ
  pub last_seq : Option ℕ
  pub pending : ℕ

pub record SystemStatusResponse : Type 0 where
  pub services : List ServiceStatus
  pub jetstream : Option JetStreamInfo

pub record DlqStatus : Type 0 where
  pub stream : String
  pub initialized : Option Bool
  pub messages : ℕ
  pub bytes : ℕ
  pub first_seq : ℕ
  pub last_seq : ℕ
  pub consumer : String
  pub pending : ℕ
  pub ack_pending : Option ℕ

pub record DlqMessage : Type 0 where
  pub sequence : ℕ
  pub job_id : String
  pub type : String
  pub original_subject : String
  pub delivery_attempts : ℕ
  pub failure_reason : String
  pub timestamp : String
  pub worker : Option String
  pub payload : Option Json

pub record ProcessorDirectEvent : Type 0 where
  pub job_id : String
  pub job_type : String
  pub tag : String
  pub tag_color : String
  pub details : Option String
  pub timestamp : String
  pub delivery_mode : String
  pub attempt : ℕ

pub data FailureScenario : Type 0 where
  normal crash_before_ack exceed_ack_wait out_of_order_ack nak_message term_message :
      FailureScenario

-- `workers` is optional here, since `getServiceStatus` tests at run time that it is a number.
pub record ProcessorDirectStatus : Type 0 where
  pub status : String
  pub processing : Bool
  pub consumer : String
  pub stream : String
  pub workers : Option ℕ
  pub scenario : Option FailureScenario
  pub goroutine_status : Option String
  pub active_goroutines : Option ℕ
  pub crashed_worker : Option String
  pub ack_wait_seconds : Option ℕ
  pub ack_policy : Option String
  pub ack_floor : Option ℕ
  pub delivered_seq : Option ℕ

pub record ScheduleJobRequest : Type 0 where
  pub job_id : String
  pub type : String
  pub payload : Option Json
  pub delivery_mode : Option String
  pub deliver_after_seconds : Option ℕ
  pub deliver_at : Option String

pub record ScheduleJobResponse : Type 0 where
  pub job_id : String
  pub status : String
  pub scheduled_for : String
  pub delay_seconds : ℕ
  pub trace_id : Option String

pub record ValidationResult : Type 0 where
  pub valid : Option Bool
  pub message : Option String
  pub error : Option String
  pub timed_out : Option Bool

pub record JobHistoryItem : Type 0 where
  pub status : String
  pub timestamp : String

pub record JobDetailResponse : Type 0 where
  pub job_id : String
  pub status : String
  pub delivery_count : ℕ
  pub trace_id : Option String
  pub type : Option String
  pub delivery_mode : Option String
  pub worker : Option String
  pub payload : Option Json
  pub history : List JobHistoryItem

pub data ReplayMode : Type 0 where
  instant original : ReplayMode

pub data ReplaySource : Type 0 where
  sequence time : ReplaySource

pub record ReplayRequest : Type 0 where
  pub start_sequence : Option ℕ
  pub end_sequence : Option ℕ
  pub from_sequence : Option ℕ
  pub to_sequence : Option ℕ
  pub start_time : Option String
  pub end_time : Option String
  pub from_time : Option String
  pub to_time : Option String
  pub replay_mode : Option ReplayMode
  pub replay_from : Option ReplaySource

pub record ReplayResponse : Type 0 where
  pub status : String
  pub consumer : String

pub record AddressingSubscription : Type 0 where
  pub name : String
  pub subject : String

pub record AddressingEvent : Type 0 where
  pub job_id : String
  pub subject : String
  pub received_by : List String
  pub timestamp : String

pub record ProcessorStateResponse : Type 0 where
  pub enabled : Bool
  pub status : String

pub record ConsumerStatus : Type 0 where
  pub name : String
  pub type : String
  pub workers : ℕ
  pub ordering : String
  pub deliver_policy : Option String
  pub ack_policy : Option String
  pub delivery : String
  pub status : String
  pub pending : ℕ
  pub ack_pending : ℕ
  pub redelivered : ℕ
  pub ack_floor : Option ℕ
  pub delivered_seq : Option ℕ
  pub distribution : Option (List (String × ℕ))

pub record QueueGroupStatus : Type 0 where
  pub subject : String
  pub queue_group : String
  pub workers : ℕ
  pub distribution : List (String × ℕ)

pub record QueuePublishResponse : Type 0 where
  pub published : ℕ
  pub subject : String
  -- Declared as always there; the panel reads a missing or null list too.
  pub jobs : Option (List String)
