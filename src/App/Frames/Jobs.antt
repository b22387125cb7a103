-- ===== src/App/Frames/Jobs.antt =====
-- What the handlers of frontend/src/App.tsx for jobs, the stream and the inspector do to such an
-- invariant.
use nats_demo.Common.{◌≡◌, refl, Bool, true, false, String, List, [], ◌∷◌, Option, none, some}
use nats_demo.Task.{Failure}
use nats_demo.Task.Keeping.{
  Maintains, Free, Maintains-done, Maintains-fail, Maintains-update, Maintains-bind, Maintains-step,
  Maintains-catching, Maintains-finally,
}
use nats_demo.Api.{
  ServiceStatus, Activity, SystemStatusResponse, Job, JobDetailResponse, ReplayRequest,
  ValidationResult,
}
use nats_demo.Api.Status.{get_service_status}
use nats_demo.Api.Control.{update_processor_state, replay_jobs}
use nats_demo.Api.Jobs.{submit_job, validate_job, reset_jobs_stream, get_job_detail}
use nats_demo.App.State.{State}
use nats_demo.App.Inspector.{set_loading_inspector, job_activities, load_failed, handle_select_job}
use nats_demo.App.Jobs.{
  show_and_throw, set_submitting, set_validating, set_resetting_stream, handle_job_submit,
  handle_job_validate, handle_toggle_processor, handle_reset_stream, handle_trigger_replay,
  show_validation,
}
use nats_demo.App.Frames.{
  Stable, Maintains-request, refresh_status-Maintains, refresh_activity-Maintains,
}

module _ {I : State → Type 0} {V : List ServiceStatus → Type 0} (st : Stable I V)
    (status : Maintains I (λ (res : SystemStatusResponse). V res.services) get_service_status) where
  throwing :
      (default : String) (e : Failure) → Maintains I Free (show_and_throw {A = Unit {0}} default e)
  throwing default e = Maintains-step _ _ (λ s. st.error s _) (Maintains-fail e)

  pub handle_job_submit-Maintains :
      (job : Job) (local_time : String)
      → ((b : Bool) (s : State) → I s → I (set_submitting b s))
      → Maintains I Free (handle_job_submit job local_time)
  unfolding handle_job_submit submit_job
  handle_job_submit-Maintains job local_time flag = Maintains-step _ _ (flag true) (
      Maintains-step _ _ (λ s. st.error s none)
        (Maintains-step _ _ (λ s. st.success s none)
          (Maintains-finally _ _
            (Maintains-catching _ _
              (Maintains-bind _ _ (Maintains-request _ _) (λ res v.
                Maintains-step _ _ (λ s. st.success s _)
                  (Maintains-step _ _ (λ s. st.activities s _)
                    (Maintains-update _ (λ s. st.timers s _)))))
              (throwing "Job submission failed"))
            (flag false))))

  pub handle_toggle_processor-Maintains :
      (enabled : Bool) → Maintains I Free (handle_toggle_processor enabled)
  unfolding handle_toggle_processor update_processor_state
  handle_toggle_processor-Maintains enabled =
      Maintains-step _ _ (λ s. st.error s none)
        (Maintains-step _ _ (λ s. st.success s none)
          (Maintains-catching _ _
            (Maintains-bind _ _ (Maintains-request _ _) (λ res v.
              Maintains-step _ _ (λ s. st.success s _)
                (refresh_status-Maintains st status true (λ b s i. i))))
            (λ e. Maintains-update _ (λ s. st.error s _))))

  show_validation-Stable : (res : ValidationResult) (s : State) → I s → I (show_validation res s)
  unfolding show_validation
  show_validation-Stable res s i = verdict res.timed_out res.valid refl refl
    where
      verdict :
          (timed_out valid : Option Bool)
          → res.timed_out ≡ timed_out
          → res.valid ≡ valid
          → I (show_validation res s)
      verdict (some true) v et ev = rw (et, show_validation) (st.error s _ i)
      verdict (some false) (some false) et ev = rw (et, ev, show_validation) (st.error s _ i)
      verdict (some false) (some true) et ev = rw (et, ev, show_validation) (st.success s _ i)
      verdict (some false) none et ev = rw (et, ev, show_validation) (st.success s _ i)
      verdict none (some false) et ev = rw (et, ev, show_validation) (st.error s _ i)
      verdict none (some true) et ev = rw (et, ev, show_validation) (st.success s _ i)
      verdict none none et ev = rw (et, ev, show_validation) (st.success s _ i)

  pub handle_job_validate-Maintains :
      (job : Job)
      → ((b : Bool) (s : State) → I s → I (set_validating b s))
      → Maintains I Free (handle_job_validate job)
  unfolding handle_job_validate validate_job
  handle_job_validate-Maintains job flag = Maintains-step _ _ (flag true) (
      Maintains-step _ _ (λ s. st.error s none)
        (Maintains-step _ _ (λ s. st.success s none)
          (Maintains-finally _ _
            (Maintains-catching _ _
              (Maintains-bind _ _ (Maintains-request _ _)
                (λ res v. Maintains-update _ (show_validation-Stable res)))
              (throwing "Validation failed"))
            (flag false))))

  pub handle_reset_stream-Maintains :
      ((b : Bool) (s : State) → I s → I (set_resetting_stream b s))
      → Maintains I Free handle_reset_stream
  unfolding handle_reset_stream reset_jobs_stream
  handle_reset_stream-Maintains flag = Maintains-step _ _ (flag true) (
      Maintains-step _ _ (λ s. st.error s none)
        (Maintains-finally _ _
          (Maintains-catching _ _
            (Maintains-bind _ _ (Maintains-request _ _) (λ res v.
              Maintains-step _ _ (λ s. st.success s _)
                (Maintains-bind _ _ (refresh_status-Maintains st status true (λ b s i. i))
                  (λ a w. refresh_activity-Maintains st status true (λ b s i. i) (λ b s i. i)))))
            (λ e. Maintains-update _ (λ s. st.error s _)))
          (flag false)))

  pub handle_trigger_replay-Maintains :
      (req : ReplayRequest) → Maintains I Free (handle_trigger_replay req)
  unfolding handle_trigger_replay replay_jobs
  handle_trigger_replay-Maintains req = Maintains-bind _ _ (Maintains-request _ _) (λ res v.
      Maintains-step _ _ (λ s. st.timers s _)
        (Maintains-step _ _ (λ s. st.timers s _) (Maintains-done _ tt)))

  -- `I` has to survive a write to each field of the inspector.
  pub handle_select_job-Maintains :
      (log : List Activity) (job_id : String)
      → ((b : Bool) (s : State) → I s → I (set_loading_inspector b s))
      → ((o : Option String) (s : State) → I s → I (record s { selected_job_id = o }))
      → ((o : Option String) (s : State) → I s → I (record s { inspector_error = o }))
      → ((o : Option JobDetailResponse) (s : State)
          → I s
          → I (record s { selected_job_detail = o }))
      → Maintains I Free (handle_select_job log job_id)
  unfolding handle_select_job get_job_detail load_failed
  handle_select_job-Maintains log job_id flag id failure detail = Maintains-step _ _ (id _) (
      Maintains-step _ _ (flag true) (
        Maintains-step _ _ (failure none) (
          Maintains-step _ _ (detail none) (
            Maintains-finally _ _
              (Maintains-catching _ _
                (Maintains-bind _ _ (Maintains-request _ _)
                  (λ d v. Maintains-update _ (detail (some d))))
                (λ e. Maintains-update _ (on_records e (job_activities log job_id) refl)))
              (flag false)))))
    where
      on_records :
          (e : Failure) (l : List Activity)
          → job_activities log job_id ≡ l
          → (s : State) → I s
          → I (load_failed log job_id e s)
      on_records e [] el s i = rw (el, load_failed) (failure _ s i)
      on_records e (a ∷ l) el s i = rw (el, load_failed) (detail _ s i)
