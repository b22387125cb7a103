-- ===== src/JobForm.antt =====
-- The job form, frontend/src/components/JobPanel.tsx: its state and its two handlers.
pub mod Laws
pub mod View
mod Busy
mod Tests
use nats_demo.Common.{
  ℕ, ◌+◌, String, Option, none, some, ◌+s◌, decimal, str_eq, or_text, if◌then◌else◌,
}
use nats_demo.Task.{
  Task, Result, Failure, error, syntax_error, settle, update, catching, ◌>>=◌, ◌>>◌,
}
use nats_demo.Api.{Job, Json}
use nats_demo.Platform.{Platform}
use nats_demo.Props.{Ask, Answer, await_submit, await_validate}
use nats_demo.Publisher.NextId.{next_id}

pub record JobForm : Type 0 where
  pub job_id : String
  pub job_type : String
  pub delivery_mode : String
  pub payload_str : String
  pub json_error : Option String

abbrev pub JobFormHandler : Type 0
JobFormHandler = Task JobForm Ask Answer (Unit {0})

abbrev pub set_error : Option String → JobForm → JobForm
set_error e s = record s { json_error = e }

-- The `catch` of both handlers, which differ in the default message
abbrev pub form_error : String → Failure → String
form_error default (syntax_error m) = "Invalid JSON payload: " +s m
form_error default (error m) = or_text m default

unfoldable pub form_job : JobForm → Json → Job
form_job f parsed = record {
  job_id = f.job_id;
  type = some f.job_type;
  subject = none;
  delivery_mode = some f.delivery_mode;
  msg_id = none;
  source = none;
  content_type = none;
  headers = none;
  payload = parsed;
  trace_id = none;
}

-- The identifier for the next run; `num` is drawn where the present one has no number to count up.
unfoldable pub count_up : Platform → JobForm → ℕ → JobForm → JobForm
count_up js f num s = record s {
  job_id = elim (next_id js f.job_id) [ some next ↦ next | none ↦ "job-" +s decimal num ];
}

-- `JSON.parse` is given; `f` is the state of the render that made the handler.
module _ (js : Platform) (parse_json : String → Result Json) where
  unfoldable pub handle_submit : JobForm → (num : ℕ) → JobFormHandler
  handle_submit f num = do
    update (set_error none)
    if str_eq (js.trim f.job_id) ""
        then update (set_error (some "Job ID is required"))
        else catching
            (do
              parsed ← settle (parse_json f.payload_str)
              await_submit (form_job f parsed)
              update (count_up js f num))
            (λ e. update (set_error (some (form_error "Failed to submit job" e))))

  unfoldable pub handle_validate : JobForm → JobFormHandler
  handle_validate f = do
    update (set_error none)
    catching (do parsed ← settle (parse_json f.payload_str); await_validate (form_job f parsed))
        (λ e. update (set_error (some (form_error "Validation request failed" e))))
