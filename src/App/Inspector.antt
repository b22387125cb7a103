-- ===== src/App/Inspector.antt =====
-- The job inspector of frontend/src/App.tsx: `handleSelectJob`, with the timeline that it makes up
-- from the activity log where the job cannot be loaded, and the closing of the modal.
use nats_demo.Common.{
  ℕ, Bool, true, false, ◌||◌, String, List, [], ◌∷◌, map, reverse, Option, none, some, ◌==◌, filter,
  str_eq, or_text, or_default, if◌then◌else◌,
}
use nats_demo.Task.{Failure, message_or, update, catching, finally, ◌>>=◌, ◌>>◌}
use nats_demo.Api.{Activity, JobDetailResponse, JobHistoryItem}
use nats_demo.Api.Jobs.{get_job_detail}
use nats_demo.Api.Status.{is_text}
use nats_demo.App.State.{State, Handler}

abbrev pub history_item : Activity → JobHistoryItem
history_item a = record { status = a.event; timestamp = a.timestamp }

-- `n || 1`
abbrev or_one : ℕ → ℕ
or_one n = if n == 0 then 1 else n

-- The detail made up from the job's records, of which `latest` is the first.
unfoldable pub synthesized : String → Activity → List Activity → JobDetailResponse
synthesized job_id latest job_activities = record {
  job_id = job_id;
  status = or_text latest.event "RECORDED";
  delivery_count = or_one latest.delivery_count;
  trace_id = none;
  type = some (
      or_default latest.job_type
        (if is_text latest.delivery_mode "SAGA" then "saga-orchestration" else "general"));
  delivery_mode = some (or_default latest.delivery_mode "SAGA");
  worker = some (or_text latest.worker "saga-orchestrator");
  payload = none;
  history = map history_item (reverse job_activities);
}

unfoldable pub job_activities : List Activity → String → List Activity
job_activities activities job_id = filter (λ a. str_eq a.job_id job_id) activities

-- The `catch` of `handleSelectJob`
unfoldable pub load_failed : List Activity → String → Failure → State → State
load_failed activities job_id e s = elim (job_activities activities job_id) [
  | [] ↦ record s { inspector_error = some (message_or e "Failed to load job details") }
  | latest ∷ older ↦ record s {
    selected_job_detail = some (synthesized job_id latest (latest ∷ older));
  }
]

abbrev pub set_loading_inspector : Bool → State → State
set_loading_inspector b s = record s { is_loading_inspector = b }

-- `activities` is the log as it was when the handler was made.
unfoldable pub handle_select_job : List Activity → String → Handler (Unit {0})
handle_select_job activities job_id = do
  update (λ s. record s { selected_job_id = some job_id })
  update (set_loading_inspector true)
  update (λ s. record s { inspector_error = none })
  update (λ s. record s { selected_job_detail = none })
  finally
      (catching
        (do
          detail ← get_job_detail job_id
          update (λ s. record s { selected_job_detail = some detail }))
        (λ e. update (load_failed activities job_id e)))
      (set_loading_inspector false)

-- `onClose={() => setSelectedJobId(null)}`
unfoldable pub close_inspector : State → State
close_inspector s = record s { selected_job_id = none }

-- An optional text, or the empty one, as a condition
abbrev pub is_set : Option String → Bool
is_set none = false
is_set (some t) = if str_eq t "" then false else true

-- `selectedJobId || isLoadingInspector || inspectorError`: the modal is shown.
unfoldable pub inspector_open : State → Bool
inspector_open s = is_set s.selected_job_id || s.is_loading_inspector || is_set s.inspector_error
