-- ===== src/App/Tests.antt =====
-- The handlers' theorems at concrete jobs, logs and networks.
use nats_demo.Common.{ℕ, ◌≡◌, refl, true, false, String, List, [], ◌∷◌, none, some}
use nats_demo.Task.{ok, err, Failure, error, run, Ensures}
use nats_demo.Api.{Activity, Fetch, Reply, Response, Job, JobDetailResponse, null, get_job}
use nats_demo.App.State.{State, initial_state}
use nats_demo.App.Refresh.{refresh_status, refresh_activity}
use nats_demo.App.Jobs.{handle_job_submit, handle_job_validate}
use nats_demo.App.Inspector.{job_activities, handle_select_job, close_inspector, inspector_open}
use nats_demo.App.RefreshLaws.{
  KeepsError, Keeps, NoError, refresh_activity_clears_error, refresh_status-KeepsError,
}
use nats_demo.App.JobLaws.{
  KeepsBanners, Submitted, Validated, handle_job_submit_lem, handle_job_validate_lem,
}
use nats_demo.App.InspectorLaws.{
  KeepsInspector, Selected, handle_select_job_lem, close_inspector_stuck, overlapped,
  late_reply_wins,
}

abbrev job : Job
job = record {
  job_id = "job-7";
  type = some "image-processing";
  subject = none;
  delivery_mode = some "JETSTREAM";
  msg_id = none;
  source = none;
  content_type = none;
  headers = none;
  payload = null;
  trace_id = none;
}

abbrev record_of : String → Activity
record_of job_id = record {
  timestamp = "10:00";
  job_id = job_id;
  event = "ACKED";
  subject = "jobs.acked";
  worker = "w1";
  delivery_count = 1;
  delivery_mode = none;
  sequence = none;
  msg_id = none;
  job_type = none;
  trace_id = none;
  category = none;
  action = none;
}

abbrev log : List Activity
log = record_of "job-7" ∷ record_of "job-8" ∷ record_of "job-7" ∷ []

abbrev refused : Failure
refused = error "Failed to fetch"

abbrev down : ℕ → (q : Fetch) → Reply q
down n q = err refused

abbrev failing : State
failing = record initial_state { error = some "Job submission failed" }

handle_select_job_example :
    Ensures KeepsInspector (Selected log "job-7") (handle_select_job log "job-7") initial_state
handle_select_job_example = handle_select_job_lem log "job-7" initial_state

handle_job_submit_example :
    Ensures KeepsBanners
      (Submitted job "10:01" initial_state)
      (handle_job_submit job "10:01")
      initial_state
handle_job_submit_example = handle_job_submit_lem job "10:01" initial_state

handle_job_validate_example : Ensures KeepsBanners Validated (handle_job_validate job) initial_state
handle_job_validate_example = handle_job_validate_lem job initial_state

refresh_activity_clears_error_example : Ensures KeepsError NoError (refresh_activity true) failing
refresh_activity_clears_error_example = refresh_activity_clears_error failing

refresh_status-KeepsError_example :
    Ensures KeepsError (Keeps (some "Job submission failed")) (refresh_status true) failing
refresh_status-KeepsError_example = refresh_status-KeepsError failing

close_inspector_stuck_example :
    inspector_open (close_inspector (run down 0 (handle_select_job log "job-9") initial_state).0)
    ≡ true
unfolding job_activities
close_inspector_stuck_example =
    close_inspector_stuck log "job-9" down 0 initial_state refused refl refl

abbrev detail_of : String → JobDetailResponse
detail_of job_id = record {
  job_id = job_id;
  status = "ACKED";
  delivery_count = 1;
  trace_id = none;
  type = none;
  delivery_mode = none;
  worker = none;
  payload = none;
  history = [];
}

abbrev detail_response : String → Response JobDetailResponse
detail_response job_id = record {
  status = 200;
  status_text = "OK";
  text = ok "";
  json = ok (detail_of job_id);
}

abbrev serving : (q : Fetch) → Reply q
serving (get_job job_id) = ok (detail_response job_id)
serving q = err refused

late_reply_wins_example :
    let s = overlapped log serving "job-7" "job-8" initial_state in
    (s.selected_job_id ≡ some "job-8")
    × (s.selected_job_detail ≡ some (detail_of "job-7"))
    × (s.is_loading_inspector ≡ false)
late_reply_wins_example =
    late_reply_wins log serving "job-7" "job-8" initial_state (detail_response "job-7")
      (detail_response "job-8") (detail_of "job-7") (detail_of "job-8") refl refl refl refl refl
      refl
