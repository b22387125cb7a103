-- ===== src/App/System/Fits.antt =====
-- Every handler of frontend/src/App.tsx leaves a flag alone or ends with it off.
use nats_demo.Common.{◌≡◌, refl, Bool, true, false, List, [], ◌∷◌, map}
use nats_demo.Common.{inl, inr, All, String}
use nats_demo.Task.{update}
use nats_demo.Task.Laws.{Ensures-step}
use nats_demo.Task.Keeping.{Maintains-done, Maintains-update, Maintains-bind}
use nats_demo.Api.{Job, Activity}
use nats_demo.App.State.{State, Refresh, activity_refresh, status_refresh}
use nats_demo.App.Refresh.{refresh_status, refresh_activity}
use nats_demo.App.Jobs.{handle_job_submit, handle_job_validate, handle_reset_stream}
use nats_demo.App.Inspector.{handle_select_job, close_inspector}
use nats_demo.App.Frames.{handle_clear_activity-Maintains, load_subscriptions-Maintains}
use nats_demo.App.Frames.Jobs.{handle_toggle_processor-Maintains, handle_trigger_replay-Maintains}
use nats_demo.App.System.{
  refresh_of, polled, mounted, handlers, Trigger, refresh_status_click, refresh_activity_click,
  refresh_addressing_click, refresh_activity_quietly, clear_activity, reset_stream, submit,
  validate, toggle_processor, select_job, trigger_replay, alert_success, alert_error, alert_warning,
  refresh_all, activity_updated, close_inspector_click, dismiss_error, dismiss_success,
}
use nats_demo.App.System.Broker.{get_service_status-Maintains}
use nats_demo.App.System.Flags.{
  Flag, submitting, validating, resetting, loading, refreshing_status, refreshing_activity, flag,
  Fits, finally-Ensures, still, status-Leaves, addressing-Leaves, activity-Leaves,
  shown_status-Leaves, shown_activity-Leaves, submit-Leaves, validate-Leaves, reset-Leaves,
  select-Leaves,
}

submit-Fits :
    (φ : Flag) (job : Job) (local_time : String) → Fits φ (handle_job_submit job local_time)
unfolding handle_job_submit
submit-Fits submitting job local_time = inr (record {
  released = λ s.
      Ensures-step _ _
        (Ensures-step _ _ (Ensures-step _ _ (finally-Ensures submitting _ _ _ (λ s'. refl))));
})
submit-Fits validating job local_time = inl (submit-Leaves validating job local_time (λ b c s i. i))
submit-Fits resetting job local_time = inl (submit-Leaves resetting job local_time (λ b c s i. i))
submit-Fits loading job local_time = inl (submit-Leaves loading job local_time (λ b c s i. i))
submit-Fits refreshing_status job local_time =
    inl (submit-Leaves refreshing_status job local_time (λ b c s i. i))
submit-Fits refreshing_activity job local_time =
    inl (submit-Leaves refreshing_activity job local_time (λ b c s i. i))

validate-Fits : (φ : Flag) (job : Job) → Fits φ (handle_job_validate job)
unfolding handle_job_validate
validate-Fits submitting job = inl (validate-Leaves submitting job (λ b c s i. i))
validate-Fits validating job = inr (record {
  released = λ s.
      Ensures-step _ _
        (Ensures-step _ _ (Ensures-step _ _ (finally-Ensures validating _ _ _ (λ s'. refl))));
})
validate-Fits resetting job = inl (validate-Leaves resetting job (λ b c s i. i))
validate-Fits loading job = inl (validate-Leaves loading job (λ b c s i. i))
validate-Fits refreshing_status job = inl (validate-Leaves refreshing_status job (λ b c s i. i))
validate-Fits refreshing_activity job = inl (validate-Leaves refreshing_activity job (λ b c s i. i))

reset-Fits : (φ : Flag) → Fits φ handle_reset_stream
unfolding handle_reset_stream
reset-Fits submitting = inl (reset-Leaves submitting (λ b c s i. i))
reset-Fits validating = inl (reset-Leaves validating (λ b c s i. i))
reset-Fits resetting = inr (record {
  released =
      λ s. Ensures-step _ _ (Ensures-step _ _ (finally-Ensures resetting _ _ _ (λ s'. refl)));
})
reset-Fits loading = inl (reset-Leaves loading (λ b c s i. i))
reset-Fits refreshing_status = inl (reset-Leaves refreshing_status (λ b c s i. i))
reset-Fits refreshing_activity = inl (reset-Leaves refreshing_activity (λ b c s i. i))

select-Fits :
    (φ : Flag) (log : List Activity) (job_id : String) → Fits φ (handle_select_job log job_id)
unfolding handle_select_job
select-Fits submitting log job_id = inl (select-Leaves submitting log job_id (λ b c s i. i))
select-Fits validating log job_id = inl (select-Leaves validating log job_id (λ b c s i. i))
select-Fits resetting log job_id = inl (select-Leaves resetting log job_id (λ b c s i. i))
select-Fits loading log job_id = inr (record {
  released = λ s. Ensures-step _ _ (
      Ensures-step _ _
        (Ensures-step _ _ (Ensures-step _ _ (finally-Ensures loading _ _ _ (λ s'. refl)))));
})
select-Fits refreshing_status log job_id =
    inl (select-Leaves refreshing_status log job_id (λ b c s i. i))
select-Fits refreshing_activity log job_id =
    inl (select-Leaves refreshing_activity log job_id (λ b c s i. i))

status-Fits : (φ : Flag) → Fits φ (refresh_status false)
unfolding refresh_status
status-Fits submitting = inl (shown_status-Leaves submitting (λ b c s i. i))
status-Fits validating = inl (shown_status-Leaves validating (λ b c s i. i))
status-Fits resetting = inl (shown_status-Leaves resetting (λ b c s i. i))
status-Fits loading = inl (shown_status-Leaves loading (λ b c s i. i))
status-Fits refreshing_status = inr (record {
  released = λ s.
      Ensures-step _ _ (Ensures-step _ _ (finally-Ensures refreshing_status _ _ _ (λ s'. refl)));
})
status-Fits refreshing_activity = inl (shown_status-Leaves refreshing_activity (λ b c s i. i))

activity-Fits : (φ : Flag) → Fits φ (refresh_activity false)
unfolding refresh_activity
activity-Fits submitting = inl (shown_activity-Leaves submitting (λ b c s i. i))
activity-Fits validating = inl (shown_activity-Leaves validating (λ b c s i. i))
activity-Fits resetting = inl (shown_activity-Leaves resetting (λ b c s i. i))
activity-Fits loading = inl (shown_activity-Leaves loading (λ b c s i. i))
activity-Fits refreshing_status = inl (shown_activity-Leaves refreshing_status (λ b c s i. i))
activity-Fits refreshing_activity = inr (record {
  released = λ s.
      Ensures-step _ _ (Ensures-step _ _ (finally-Ensures refreshing_activity _ _ _ (λ s'. refl)));
})

module _ (φ : Flag) where
  refreshed_status : (silent : Bool) → Fits φ (refresh_status silent)
  refreshed_status true = inl (status-Leaves φ)
  refreshed_status false = status-Fits φ

  refreshed_activity : (silent : Bool) → Fits φ (refresh_activity silent)
  refreshed_activity true = inl (activity-Leaves φ)
  refreshed_activity false = activity-Fits φ

  pub mounted-Fits : All (Fits φ) mounted
  unfolding mounted
  mounted-Fits = (
    refreshed_status true,
    (
      refreshed_activity true,
      (
        inl (λ b. load_subscriptions-Maintains (still φ b) (get_service_status-Maintains _)),
        (inl (addressing-Leaves φ true), tt),
      ),
    ),
  )

  pub polled-Fits : All (Fits φ) polled
  unfolding polled
  polled-Fits =
      (refreshed_status true, (refreshed_activity true, (inl (addressing-Leaves φ true), tt)))

  pub refresh_of-Fits : (l : List Refresh) → All (Fits φ) (map refresh_of l)
  unfolding refresh_of
  refresh_of-Fits [] = tt
  refresh_of-Fits (activity_refresh silent ∷ l) = (refreshed_activity silent, refresh_of-Fits l)
  refresh_of-Fits (status_refresh silent ∷ l) = (refreshed_status silent, refresh_of-Fits l)

  update-Fits :
      (f : State → State)
      → ((b : Bool) (s : State) → flag φ s ≡ b → flag φ (f s) ≡ b)
      → Fits φ (update f)
  update-Fits f h = inl (λ b. Maintains-update f (h b))

  pub handlers-Fits : (u : Trigger) (s : State) → All (Fits φ) (handlers u s)
  unfolding handlers close_inspector
  handlers-Fits refresh_status_click s = (refreshed_status false, tt)
  handlers-Fits refresh_activity_click s = (refreshed_activity false, tt)
  handlers-Fits refresh_addressing_click s = (inl (addressing-Leaves φ false), tt)
  handlers-Fits refresh_activity_quietly s = (refreshed_activity true, tt)
  handlers-Fits clear_activity s =
      (inl (λ b. handle_clear_activity-Maintains (still φ b) (get_service_status-Maintains _)), tt)
  handlers-Fits reset_stream s = (reset-Fits φ, tt)
  handlers-Fits (submit job local_time) s = (submit-Fits φ job local_time, tt)
  handlers-Fits (validate job) s = (validate-Fits φ job, tt)
  handlers-Fits (toggle_processor enabled) s = (
    inl (λ b.
        handle_toggle_processor-Maintains (still φ b) (get_service_status-Maintains _) enabled),
    tt,
  )
  handlers-Fits (select_job job_id) s = (select-Fits φ s.activities job_id, tt)
  handlers-Fits (trigger_replay req) s = (
    inl (λ b.
        Maintains-bind _ _
          (handle_trigger_replay-Maintains (still φ b) (get_service_status-Maintains _) req)
          (λ res v. Maintains-done _ tt)),
    tt,
  )
  handlers-Fits (alert_success text) s =
      (update-Fits _ (λ b s' i. i), (refreshed_status true, (refreshed_activity true, tt)))
  handlers-Fits (alert_error text) s = (update-Fits _ (λ b s' i. i), tt)
  handlers-Fits (alert_warning text) s = tt
  handlers-Fits refresh_all s = (refreshed_status true, (refreshed_activity true, tt))
  handlers-Fits activity_updated s =
      (refreshed_activity true, (update-Fits _ (λ b s' i. i), (update-Fits _ (λ b s' i. i), tt)))
  handlers-Fits close_inspector_click s = (update-Fits _ (λ b s' i. i), tt)
  handlers-Fits dismiss_error s = (update-Fits _ (λ b s' i. i), tt)
  handlers-Fits dismiss_success s = (update-Fits _ (λ b s' i. i), tt)
