-- ===== src/Activity/Classify.antt =====
-- Which records of the activity log are business messages and which are telemetry:
-- `isLifecycleActivity` and `isBusinessActivity` of frontend/src/components/ActivityPanel.tsx.
use nats_demo.Common.{
  Bool, true, false, not, ◌||◌, String, List, [], ◌∷◌, none, some, or_text, mem_text,
}
use nats_demo.Api.{Activity, business, lifecycle}
use nats_demo.Platform.{Platform}

-- Worker processing, acknowledgment, transport and simulation events
abbrev pub lifecycle_events : List String
lifecycle_events =
    "RECEIVED" ∷ "DELIVERED" ∷ "REQUEST_RECEIVED" ∷ "PROCESSING" ∷ "ACKED" ∷ "STORED"
    ∷ "DEDUPLICATED" ∷ "NAK_WITH_DELAY" ∷ "ACK_TIMEOUT_SIMULATED" ∷ "DLQ_PUBLISHED" ∷ "REPLAYED"
    ∷ "NO CONSUMER" ∷ "NO_ACTIVE_CONSUMER" ∷ "REQUEST_TIMEOUT" ∷ []

abbrev pub lifecycle_subjects : List String
lifecycle_subjects =
    "jobs.received" ∷ "jobs.queue.received" ∷ "jobs.delivered" ∷ "jobs.processing"
    ∷ "jobs.processing.started" ∷ "jobs.processing.completed" ∷ "jobs.processing.failed"
    ∷ "jobs.acked" ∷ "jobs.stored" ∷ "jobs.deduplicated" ∷ "jobs.nak.delayed" ∷ "jobs.ack.timeout"
    ∷ "jobs.dlq" ∷ "jobs.dlq.published" ∷ "jobs.replayed" ∷ "jobs.noconsumer"
    ∷ "jobs.request.received" ∷ []

module _ (js : Platform) where
  -- By the event's or the subject's name, where the record has no category.
  abbrev pub is_lifecycle_name : Activity → Bool
  is_lifecycle_name act =
      mem_text (js.to_upper_case (or_text act.event "")) lifecycle_events
      || mem_text (js.to_lower_case (or_text act.subject "")) lifecycle_subjects

  unfoldable pub is_lifecycle_activity : Activity → Bool
  is_lifecycle_activity act = elim (act.category) [
    | some lifecycle ↦ true
    | some business ↦ false
    | none ↦ is_lifecycle_name act
  ]

  unfoldable pub is_business_activity : Activity → Bool
  is_business_activity act = elim (act.category) [
    | some business ↦ true
    | some lifecycle ↦ false
    | none ↦ not (is_lifecycle_activity act)
  ]
