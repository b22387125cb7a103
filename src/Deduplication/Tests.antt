-- ===== src/Deduplication/Tests.antt =====
-- The theorems of the panel of deduplication at a filled field.
use nats_demo.Common.{◌↔◌, refl, true, none}
use nats_demo.Task.{error, err}
use nats_demo.Task.Given.{EnsuresGiven}
use nats_demo.Props.{Ask, Answer, submit, validate}
use nats_demo.Platform.Plain.{plain}
use nats_demo.Html.{Offers}
use nats_demo.Deduplication.View.{DedupProps, view, publish}
use nats_demo.Deduplication.Busy.{JustInfo, view-JustInfo}
use nats_demo.Deduplication.{Deduplication, handle_publish}
use nats_demo.Deduplication.Laws.{KeepsMessages, Shows, handle_publish-Shows}

abbrev panel : Deduplication
panel = record { msg_id = "dedup-msg-101"; status_message = none; error_message = none }

-- The root component refuses every job.
abbrev refusing : (q : Ask) → Answer q
refusing (submit job) = err (error "Service Unavailable")
refusing (validate job) = err (error "Service Unavailable")

handle_publish-Shows_example :
    EnsuresGiven refusing KeepsMessages
      (Shows plain refusing panel true)
      (handle_publish plain panel true)
      panel
handle_publish-Shows_example = handle_publish-Shows plain refusing panel panel true refl

abbrev publishing : DedupProps
publishing = record { informs = true; is_submitting = true }

view-JustInfo_example :
    Offers (view publishing panel) (publish true) ↔ JustInfo publishing (publish true)
view-JustInfo_example = view-JustInfo publishing panel (publish true) refl
