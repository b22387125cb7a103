-- ===== src/App/Frames.antt =====
-- What the handlers of frontend/src/App.tsx do to an invariant of the state that does not depend on
-- the fields they write. A handler that also turns a flag on and off takes what that does to the
-- invariant as a hypothesis.
pub mod Jobs
use nats_demo.Common.{◌≡◌, refl, ℕ, Bool, true, false, String, List, [], ◌∷◌, Option, none, some}
use nats_demo.Task.{Failure, Result}
use nats_demo.Task.Keeping.{
  Maintains, Free, Maintains-done, Maintains-fail, Maintains-update, Maintains-settle,
  Maintains-call, Maintains-bind, Maintains-step, Maintains-catching, Maintains-finally,
}
use nats_demo.Api.{
  ServiceStatus, JetStreamInfo, ConsumerStatus, DlqStatus, QueueGroupStatus, Activity,
  AddressingSubscription, AddressingEvent, SystemStatusResponse, Job, JobDetailResponse,
  ReplayRequest, ValidationResult, Fetch, Response, Body, request,
}
use nats_demo.Api.Status.{get_service_status}
use nats_demo.Api.Control.{
  get_activity, clear_activity, get_addressing_subscriptions, get_addressing_activity,
  get_consumer_status, update_processor_state, replay_jobs,
}
use nats_demo.Api.Queue.{fetch_dlq_status, get_queue_group_status}
use nats_demo.Api.Jobs.{submit_job, validate_job, reset_jobs_stream, get_job_detail}
use nats_demo.App.State.{State, Handler, Refresh, set_error, set_success, unless}
use nats_demo.App.Refresh.{
  quietly, set_refreshing_status, set_refreshing_activity, set_refreshing_addressing, status_failed,
  load_optional, load_status, refresh_status, refresh_addressing, refresh_activity,
  handle_clear_activity, load_subscriptions,
}
use nats_demo.App.Inspector.{set_loading_inspector, job_activities, load_failed, handle_select_job}
use nats_demo.App.Jobs.{
  show_and_throw, set_submitting, set_validating, set_resetting_stream, handle_job_submit,
  handle_job_validate, handle_toggle_processor, handle_reset_stream, handle_trigger_replay,
  show_validation,
}

-- `I` survives a write to each field that a handler sets to what it got; `V` is what it needs to
-- know of the services.
pub record Stable (I : State → Type 0) (V : List ServiceStatus → Type 0) : Type 0 where
  pub services :
      (s : State) (l : List ServiceStatus) (j : Option JetStreamInfo)
      → V l
      → I s
      → I (record s { services = l; jetstream_info = j })
  pub unreachable : (silent : Bool) (e : Failure) (s : State) → I s → I (status_failed silent e s)
  pub consumer : (s : State) (c : ConsumerStatus) → I s → I (record s { consumer_status = some c })
  pub dlq : (s : State) (d : DlqStatus) → I s → I (record s { dlq_status = some d })
  pub queue :
      (s : State) (q : QueueGroupStatus) → I s → I (record s { queue_group_status = some q })
  pub activities : (s : State) (l : List Activity) → I s → I (record s { activities = l })
  pub error : (s : State) (e : Option String) → I s → I (set_error e s)
  pub success : (s : State) (m : Option String) → I s → I (set_success m s)
  pub timers : (s : State) (l : List (ℕ × List Refresh)) → I s → I (record s { timers = l })
  pub subscriptions :
      (s : State) (l : List AddressingSubscription) → I s → I (record s { subscriptions = l })
  pub addressing :
      (s : State) (l : List AddressingEvent) → I s → I (record s { addressing_events = l })

pub Maintains-request :
    {I : State → Type 0} {B : Type 0} (q : Fetch) (f : Response (Body q) → Result B)
    → Maintains I Free (request {S = State} q f)
Maintains-request q f = Maintains-call _ _ (λ r. Maintains-settle _ (λ a e. tt))

Maintains-quietly :
    {I : State → Type 0} {A : Type 0} (t : Handler A) (keep : A → State → State)
    → Maintains I Free t
    → ((a : A) (s : State) → I s → I (keep a s))
    → Maintains I Free (quietly t keep)
Maintains-quietly t keep h k =
    Maintains-catching _ _ (Maintains-bind _ _ h (λ a v. Maintains-update _ (k a)))
      (λ e. Maintains-done _ tt)

pub unless-Stable :
    {I : State → Type 0} (silent : Bool) (f : State → State)
    → ((s : State) → I s → I (f s))
    → (s : State) → I s
    → I (unless silent f s)
unless-Stable true f h s i = i
unless-Stable false f h s i = h s i

module _ {I : State → Type 0} {V : List ServiceStatus → Type 0} (st : Stable I V)
    (status : Maintains I (λ (res : SystemStatusResponse). V res.services) get_service_status) where
  load_optional-Maintains : Maintains I Free load_optional
  unfolding load_optional get_consumer_status fetch_dlq_status get_queue_group_status
  load_optional-Maintains =
      Maintains-bind _ _ (Maintains-quietly _ _ (Maintains-request _ _) (λ c s. st.consumer s c))
        (λ a v.
          Maintains-bind _ _ (Maintains-quietly _ _ (Maintains-request _ _) (λ d s. st.dlq s d))
            (λ b w. Maintains-quietly _ _ (Maintains-request _ _) (λ q s. st.queue s q)))

  -- A refresh of the status.
  pub refresh_status-Maintains :
      (silent : Bool)
      → ((b : Bool) (s : State) → I s → I (unless silent (set_refreshing_status b) s))
      → Maintains I Free (refresh_status silent)
  unfolding refresh_status load_status
  refresh_status-Maintains silent flag = Maintains-step _ _ (flag true) (
      Maintains-step _ _ (unless-Stable silent _ (λ s. st.error s none)) (
        Maintains-finally _ _
          (Maintains-catching _ _
            (Maintains-bind _ _ status
              (λ res v. Maintains-step _ _ (λ s. st.services s _ _ v) load_optional-Maintains))
            (λ e. Maintains-update _ (λ s. st.unreachable silent e s)))
          (flag false)))

  pub refresh_addressing-Maintains :
      (silent : Bool)
      → ((b : Bool) (s : State) → I s → I (unless silent (set_refreshing_addressing b) s))
      → Maintains I Free (refresh_addressing silent)
  unfolding refresh_addressing get_addressing_activity
  refresh_addressing-Maintains silent flag = Maintains-step _ _ (flag true) (
      Maintains-finally _ _
        (Maintains-catching _ _
          (Maintains-bind _ _ (Maintains-request _ _)
            (λ l v. Maintains-update _ (λ s. st.addressing s l)))
          (λ e. Maintains-update _ (unless-Stable silent _ (λ s. st.error s _))))
        (flag false))

  -- A refresh of the log, which goes on with the addressing activity.
  pub refresh_activity-Maintains :
      (silent : Bool)
      → ((b : Bool) (s : State) → I s → I (unless silent (set_refreshing_activity b) s))
      → ((b : Bool) (s : State) → I s → I (unless silent (set_refreshing_addressing b) s))
      → Maintains I Free (refresh_activity silent)
  unfolding refresh_activity get_activity
  refresh_activity-Maintains silent flag flag' = Maintains-step _ _ (flag true) (
      Maintains-step _ _ (λ s. st.error s none)
        (Maintains-finally _ _
          (Maintains-catching _ _
            (Maintains-bind _ _ (Maintains-request _ _) (λ l v.
              Maintains-step _ _ (λ s. st.activities s l)
                (refresh_addressing-Maintains silent flag')))
            (λ e. Maintains-update _ (unless-Stable silent _ (λ s. st.error s _))))
          (flag false)))

  pub handle_clear_activity-Maintains : Maintains I Free handle_clear_activity
  unfolding handle_clear_activity clear_activity
  handle_clear_activity-Maintains =
      Maintains-catching _ _
        (Maintains-bind _ _ (Maintains-request _ _)
          (λ a v. Maintains-update _ (λ s. st.activities s [])))
        (λ e. Maintains-update _ (λ s. st.error s _))

  pub load_subscriptions-Maintains : Maintains I Free load_subscriptions
  unfolding load_subscriptions get_addressing_subscriptions
  load_subscriptions-Maintains =
      Maintains-quietly _ _ (Maintains-request _ _) (λ l s. st.subscriptions s l)
