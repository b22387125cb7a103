-- ===== src/Badges.antt =====
-- The tables by which a state or an event gets its colour or its name: the two `getBadgeClass` of
-- frontend/src/components/ActivityPanel.tsx and frontend/src/components/JobInspectorPanel.tsx, and
-- `getDisplayLabel` of frontend/src/components/StatusIndicator.tsx.
pub mod Laws
use nats_demo.Common.{String, List, [], ◌∷◌, Option, none, some, str_eq, if◌then◌else◌, or_default}
use nats_demo.Platform.{Platform}

-- `switch (key) { case …: return …; default: return default }`, by the cases in order
abbrev pub switch : List (String × String) → String → String → String
switch [] key default = default
switch ((k, v) ∷ cases) key default = if str_eq key k then v else switch cases key default

unfoldable pub activity_badges : List (String × String)
activity_badges =
    ("PUBLISHED", "badge-submitted")
    ∷ ("SUBMITTED", "badge-submitted")
    ∷ ("REQUEST_SENT", "badge-submitted")
    ∷ ("STORED", "badge-stored")
    ∷ ("DEDUPLICATED", "badge-deduplicated")
    ∷ ("REDELIVERED", "badge-redelivered")
    ∷ ("RECEIVED", "badge-delivered")
    ∷ ("DELIVERED", "badge-delivered")
    ∷ ("REQUEST_RECEIVED", "badge-delivered")
    ∷ ("PROCESSING", "badge-processing")
    ∷ ("REPLY_SENT", "badge-processing")
    ∷ ("SAGA_STARTED", "badge-processing")
    ∷ ("SAGA_STEP", "badge-processing")
    ∷ ("COMPENSATING", "badge-retrying")
    ∷ ("SAGA_COMPENSATING", "badge-retrying")
    ∷ ("COMPLETED", "badge-completed")
    ∷ ("ACKED", "badge-completed")
    ∷ ("REPLY_RECEIVED", "badge-completed")
    ∷ ("SAGA_COMPLETED", "badge-completed")
    ∷ ("SAGA_COMPENSATED", "badge-completed")
    ∷ ("FAILED", "badge-failed")
    ∷ ("NO CONSUMER", "badge-failed")
    ∷ ("NO_ACTIVE_CONSUMER", "badge-failed")
    ∷ ("REQUEST_TIMEOUT", "badge-failed")
    ∷ ("SAGA_FAILED", "badge-failed")
    ∷ ("REPLAYED", "badge-replayed")
    ∷ ("REPROCESSED", "badge-reprocessed")
    ∷ ("DLQ_PUBLISHED", "badge-dlq")
    ∷ ("DLQ", "badge-dlq")
    ∷ []

unfoldable pub inspector_badges : List (String × String)
inspector_badges =
    ("SUBMITTED", "badge-submitted")
    ∷ ("PUBLISHED", "badge-submitted")
    ∷ ("SAGA_STARTED", "badge-submitted")
    ∷ ("STARTED", "badge-submitted")
    ∷ ("OP1_PENDING", "badge-submitted")
    ∷ ("OP2_PENDING", "badge-submitted")
    ∷ ("PROCESSING", "badge-processing")
    ∷ ("OP1_COMPLETED", "badge-processing")
    ∷ ("OP2_COMPLETED", "badge-processing")
    ∷ ("COMPENSATING", "badge-processing")
    ∷ ("COMPLETED", "badge-completed")
    ∷ ("ACKED", "badge-completed")
    ∷ ("COMPENSATED", "badge-completed")
    ∷ ("SAGA_COMPLETED", "badge-completed")
    ∷ ("FAILED", "badge-failed")
    ∷ ("COMPENSATION_FAILED", "badge-failed")
    ∷ ("SAGA_FAILED", "badge-failed")
    ∷ ("DLQ_PUBLISHED", "badge-dlq")
    ∷ []

unfoldable pub activity_badge_class : Platform → String → String
activity_badge_class js event = switch activity_badges (js.to_upper_case event) ""

unfoldable pub inspector_badge_class : Platform → String → String
inspector_badge_class js status = switch inspector_badges (js.to_upper_case status) ""

-- `getDisplayLabel`, for a label that may be missing
unfoldable pub display_label : String → Option String → String
display_label status label = or_default label (
    switch
      (("active", "Active")
        ∷ ("connected", "Connected")
        ∷ ("disconnected", "Disconnected")
        ∷ ("running", "Running")
        ∷ ("stopped", "Stopped")
        ∷ [])
      status "Unknown")
