-- ===== src/App/Linked/Tests.antt =====
-- Publishing from the form to the log, at a form that is filled and a service that accepts or is down.
use nats_demo.Common.{ℕ, ◌≡◌, refl, false, String, [], ◌∷◌, none, some}
use nats_demo.Task.{Result, ok, err, error, Failure, run}
use nats_demo.Platform.Plain.{plain}
use nats_demo.Api.{Json, null, Fetch, Reply, Response, JobStatusResponse, post_jobs}
use nats_demo.App.State.{initial_state}
use nats_demo.App.Jobs.{new_activity, submitted_message}
use nats_demo.Publisher.Form.{Form}
use nats_demo.Publisher.Send.{handle_send, send_job, send_receipt}
use nats_demo.App.Linked.{linked}
use nats_demo.App.Linked.Laws.{linked_send_accepted, linked_send_failed}

abbrev form : Form
form = record {
  job_id = "job-41";
  job_type = "image-processing";
  nats_msg_id = "";
  source = "job-service";
  content_type = "application/json";
  custom_headers = [];
  payload_str = "null";
  json_error = none;
  published_history = [];
  show_advanced_headers = false;
  is_batch_publishing = false;
}

abbrev parse : String → Result Json
parse text = ok null

abbrev reply : JobStatusResponse
reply = record { job_id = "job-41"; status = "STORED"; trace_id = none }

abbrev response : Response JobStatusResponse
response = record { status = 202; status_text = "Accepted"; text = ok ""; json = ok reply }

abbrev refused : Failure
refused = error "Failed to fetch"

abbrev accepting : ℕ → (q : Fetch) → Reply q
accepting n (post_jobs j) = ok response
accepting n q = err refused

abbrev down : ℕ → (q : Fetch) → Reply q
down n q = err refused

linked_send_accepted_example :
    let after =
      run accepting 0
        (linked "10:01" (handle_send plain parse form 500 "10:00"))
        (form, initial_state) in
    (after.0.0.published_history
      ≡ send_receipt plain parse (send_job plain parse form null) "10:00" ∷ [])
    × (after.0.0.json_error ≡ none)
    × (after.0.1.activities ≡ new_activity (send_job plain parse form null) reply "10:01" ∷ [])
    × (after.0.1.success ≡ some (submitted_message (send_job plain parse form null)))
    × (after.0.1.error ≡ none)
    × (after.0.1.is_submitting ≡ false)
    × (after.1 ≡ ok tt)
linked_send_accepted_example =
    linked_send_accepted plain parse "10:01" accepting form initial_state 500 0 "10:00" null refl
      refl response reply refl refl refl

linked_send_failed_example :
    run down 0 (linked "10:01" (handle_send plain parse form 500 "10:00")) (form, initial_state) ≡ (
      (
        record form { json_error = some "Failed to fetch" },
        record initial_state { error = some "Failed to fetch" },
      ),
      ok tt,
    )
linked_send_failed_example =
    linked_send_failed plain parse "10:01" down form initial_state 500 0 "10:00" null refl refl
      refused refl
