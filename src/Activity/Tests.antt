-- ===== src/Activity/Tests.antt =====
-- The panel's theorems at a small log.
use nats_demo.Common.{
  ◌≡◌, refl, ◌+◌, not, ◌&&◌, String, List, [], ◌∷◌, map, none, some, length, filter, mem_text,
  str_eq, if◌then◌else◌,
}
use nats_demo.Api.{Activity}
use nats_demo.Platform.Plain.{plain}
use nats_demo.Activity.Classify.{is_lifecycle_activity, is_business_activity}
use nats_demo.Activity.Filter.{business_count, lifecycle_count}
use nats_demo.Activity.Counts.{lifecycle_count_exact}
use nats_demo.Activity.Options.{count, event_options, event_options_exact}

abbrev row : String → String → Activity
row job_id event = record {
  timestamp = "10:00";
  job_id = job_id;
  event = event;
  subject = "jobs.submitted";
  worker = "w1";
  delivery_count = 1;
  delivery_mode = some "CORE";
  sequence = none;
  msg_id = none;
  job_type = none;
  trace_id = none;
  category = none;
  action = none;
}

abbrev log : List Activity
log =
    row "job-1" "SUBMITTED"
    ∷ row "job-1" "PROCESSING"
    ∷ row "job-2" "SUBMITTED"
    ∷ row "job-1" "ACKED"
    ∷ []

lifecycle_count_exact_example :
    (lifecycle_count plain log ≡ length (filter (is_lifecycle_activity plain) log))
    × (business_count plain log + lifecycle_count plain log ≡ length log)
lifecycle_count_exact_example = lifecycle_count_exact plain log

-- Two of the four records are telemetry.
lifecycle_count_value : lifecycle_count plain log ≡ 2
unfolding lifecycle_count business_count is_business_activity is_lifecycle_activity mem_text
lifecycle_count_value = refl

event_options_exact_example :
    count "ACKED" (event_options plain log)
    ≡ count "ACKED" ("ALL" ∷ [])
      + (if not (str_eq "ACKED" "") && mem_text "ACKED" (map Activity.event log) then 1 else 0)
event_options_exact_example = event_options_exact plain "ACKED" log
