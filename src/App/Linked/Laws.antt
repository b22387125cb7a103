-- ===== src/App/Linked/Laws.antt =====
-- Publishing in frontend/src/components/CoreFlow/CoreFlowPublisher.tsx, from the form to the log that
-- frontend/src/App.tsx shows.
use nats_demo.Common.{ℕ, ◌≡◌, refl, true, false, String, ◌∷◌, Option, none, some, str_eq, take}
use nats_demo.Task.{
  Result, ok, err, Failure, message_or, run, update, settle, catching, finally, ◌>>=◌,
}
use nats_demo.Platform.{Platform}
use nats_demo.Api.{Json, Fetch, Reply, Response, JobStatusResponse, post_jobs, is_ok}
use nats_demo.Api.Jobs.{submit_job}
use nats_demo.App.State.{State}
use nats_demo.App.Jobs.{handle_job_submit, new_activity, submitted_message}
use nats_demo.Publisher.Form.{Form, push_receipt, set_json_error}
use nats_demo.Publisher.NextId.{match_suffix}
use nats_demo.Publisher.Send.{handle_send, send_job, send_receipt, renumber, send_error}
use nats_demo.App.Linked.{serving, served, linked}

module _ (js : Platform) (parse_json : String → Result Json) (now : String)
    (net : ℕ → (q : Fetch) → Reply q) (f : Form) (s : State) (num n : ℕ) (time : String)
    (parsed : Json) (given : str_eq (js.trim f.job_id) "" ≡ false)
    (readable : parse_json f.payload_str ≡ ok parsed) where
  renumbered :
      (s' : Form)
      → ((renumber js parse_json f num s').published_history ≡ s'.published_history)
        × ((renumber js parse_json f num s').json_error ≡ s'.json_error)
  unfolding renumber
  renumbered s' = on_match (match_suffix f.job_id) refl
    where
      on_match :
          (o : Option (String × ℕ))
          → match_suffix f.job_id ≡ o
          → ((renumber js parse_json f num s').published_history ≡ s'.published_history)
            × ((renumber js parse_json f num s').json_error ≡ s'.json_error)
      on_match none e = rw (e, renumber) (refl, refl)
      on_match (some found) e = rw (e, renumber) (refl, refl)

  -- A job with an identifier and a readable payload that the job service accepts is published: the
  -- form shows its receipt at the head of its history and no error, and the root component shows its
  -- banner and, at the head of the log, the record that the reply names, with the button free.
  pub linked_send_accepted :
      (response : Response JobStatusResponse) (res : JobStatusResponse)
      → net n (post_jobs (send_job js parse_json f parsed)) ≡ ok response
      → is_ok response ≡ true
      → response.json ≡ ok res
      → let after = run net n (linked now (handle_send js parse_json f num time)) (f, s) in
        (after.0.0.published_history
          ≡ send_receipt js parse_json (send_job js parse_json f parsed) time
            ∷ take 7 f.published_history)
        × (after.0.0.json_error ≡ none)
        × (after.0.1.activities
            ≡ new_activity (send_job js parse_json f parsed) res now ∷ s.activities)
        × (after.0.1.success ≡ some (submitted_message (send_job js parse_json f parsed)))
        × (after.0.1.error ≡ none)
        × (after.0.1.is_submitting ≡ false)
        × (after.1 ≡ ok tt)
  unfolding handle_send handle_job_submit submit_job linked serving served run update ◌>>=◌ settle
      catching finally push_receipt
  linked_send_accepted response res arrived good body = rw given (
      rw (readable, linked, run, ◌>>=◌, settle, catching)
        (rw (arrived, run, ◌>>=◌, settle, catching, serving)
          (rw good (
            rw (body, run, settle, ◌>>=◌, catching, finally, serving)
              (let kept = renumbered (
                  push_receipt (send_receipt js parse_json (send_job js parse_json f parsed) time)
                    (set_json_error none f)) in
                (kept.0, kept.1, refl, refl, refl, refl, refl))))))

  -- If the request fails instead, the failure is shown twice, by the root component's banner and by the
  -- form, whose history and whose fields stay; the log stays too, and the button is free.
  pub linked_send_failed :
      (e : Failure)
      → net n (post_jobs (send_job js parse_json f parsed)) ≡ err e
      → run net n (linked now (handle_send js parse_json f num time)) (f, s) ≡ (
        (
          record f { json_error = some (send_error e) },
          record s {
            is_submitting = false;
            error = some (message_or e "Job submission failed");
            success = none;
          },
        ),
        ok tt,
      )
  unfolding handle_send handle_job_submit submit_job linked serving served run update ◌>>=◌ settle
      catching finally
  linked_send_failed e failed = rw given (
      rw (readable, linked, run, ◌>>=◌, settle, catching)
        (rw (failed, run, ◌>>=◌, settle, catching, finally, serving) refl))
