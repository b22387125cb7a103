-- ===== src/App/System/Invariant.antt =====
-- An invariant of the state that every handler of frontend/src/App.tsx keeps holds in every
-- reachable state.
use nats_demo.Common.{take_out, TakenOut, take_out-All}
use nats_demo.Common.{
  ℕ, Bool, true, false, String, List, [], ◌∷◌, map, Option, none, some, All, All-append,
}
use nats_demo.Task.{done, fail, set, call, resume}
use nats_demo.Task.Keeping.{
  Maintains, Free, Maintains-done, Maintains-update, Maintains-bind, Maintains-advance,
  Maintains-resume,
}
use nats_demo.Api.{ServiceStatus, SystemStatusResponse, JobDetailResponse, Fetch, Reply}
use nats_demo.Api.Status.{get_service_status}
use nats_demo.App.State.{State, Refresh, activity_refresh, status_refresh, initial_state}
use nats_demo.App.Refresh.{
  refresh_status, refresh_activity, refresh_addressing, set_refreshing_status,
  set_refreshing_activity, set_refreshing_addressing,
}
use nats_demo.App.Jobs.{set_submitting, set_validating, set_resetting_stream}
use nats_demo.App.Inspector.{set_loading_inspector, close_inspector}
use nats_demo.App.Frames.{
  Stable, unless-Stable, refresh_status-Maintains, refresh_addressing-Maintains,
  refresh_activity-Maintains, handle_clear_activity-Maintains, load_subscriptions-Maintains,
}
use nats_demo.App.Frames.Jobs.{
  handle_job_submit-Maintains, handle_toggle_processor-Maintains, handle_job_validate-Maintains,
  handle_reset_stream-Maintains, handle_trigger_replay-Maintains, handle_select_job-Maintains,
}
use nats_demo.App.System.{
  AppHandler, Dashboard, park, start, start_all, answer, fire, refresh_of, polled, mounted,
  handlers, Step, act, tick, reply, timeout, Reach, mount, later, Trigger, refresh_status_click,
  refresh_activity_click, refresh_addressing_click, refresh_activity_quietly, clear_activity,
  reset_stream, submit, validate, toggle_processor, select_job, trigger_replay, alert_success,
  alert_error, alert_warning, refresh_all, activity_updated, close_inspector_click, dismiss_error,
  dismiss_success,
}

-- The invariant holds, and the handlers that wait will keep it.
pub record Sound (I : State → Type 0) (d : Dashboard) : Type 0 where
  pub holds : I d.state
  pub kept : All (Maintains I Free) d.waiting

module _ {I : State → Type 0} where
  park-All :
      (t : AppHandler) (l : List AppHandler)
      → Maintains I Free t
      → All (Maintains I Free) l
      → All (Maintains I Free) (park t l)
  park-All (call q k) l h a = All-append _ l _ a (h, tt)
  park-All (done x) l h a = a
  park-All (fail e) l h a = a
  park-All (set f t) l h a = a

  start-Sound :
      (t : AppHandler) (d : Dashboard) → Maintains I Free t → Sound I d → Sound I (start t d)
  unfolding start
  start-Sound t d h sound =
      let next = Maintains-advance t d.state h sound.holds in
      record { holds = next.0; kept = park-All _ d.waiting next.1 sound.kept }

  start_all-Sound :
      (l : List AppHandler) (d : Dashboard)
      → All (Maintains I Free) l
      → Sound I d
      → Sound I (start_all l d)
  unfolding start_all
  start_all-Sound [] d h sound = sound
  start_all-Sound (t ∷ l) d h sound = start_all-Sound l (start t d) h.1 (start-Sound t d h.0 sound)

  answer-Sound :
      (i : ℕ) (net : (q : Fetch) → Reply q) (d : Dashboard) → Sound I d → Sound I (answer i net d)
  unfolding answer
  answer-Sound i net d sound = go (take_out i d.waiting) (take_out-All _ i d.waiting sound.kept)
    where
      go :
          (o : Option (AppHandler × List AppHandler))
          → TakenOut (Maintains I Free) o
          → Sound I (elim o [
            | none ↦ d
            | some (t, rest) ↦ start (resume net t) (record d { waiting = rest })
          ])
      go none h = sound
      go (some (t, rest)) h =
          start-Sound _ _ (Maintains-resume net t h.0) (record { holds = sound.holds; kept = h.1 })

  fire-Sound :
      (i : ℕ) (d : Dashboard)
      → ((l : List Refresh) → All (Maintains I Free) (map refresh_of l))
      → ((s : State) (l : List (ℕ × List Refresh)) → I s → I (record s { timers = l }))
      → Sound I d
      → Sound I (fire i d)
  unfolding fire
  fire-Sound i d refreshes timers sound = go (take_out i d.state.timers)
    where
      go :
          (o : Option ((ℕ × List Refresh) × List (ℕ × List Refresh)))
          → Sound I (elim o [
            | none ↦ d
            | some (timer, rest) ↦
                start_all
                  (map refresh_of timer.1)
                  (record d { state = record (d.state) { timers = rest } })
          ])
      go none = sound
      go (some (timer, rest)) =
          start_all-Sound _ _ (refreshes timer.1)
            (record { holds = timers d.state rest sound.holds; kept = sound.kept })

-- `I` survives a write to each flag and to each field of the inspector.
pub record StableUi (I : State → Type 0) : Type 0 where
  pub submitting : (b : Bool) (s : State) → I s → I (set_submitting b s)
  pub validating : (b : Bool) (s : State) → I s → I (set_validating b s)
  pub resetting : (b : Bool) (s : State) → I s → I (set_resetting_stream b s)
  pub status : (b : Bool) (s : State) → I s → I (set_refreshing_status b s)
  pub activity : (b : Bool) (s : State) → I s → I (set_refreshing_activity b s)
  pub addressing : (b : Bool) (s : State) → I s → I (set_refreshing_addressing b s)
  pub loading : (b : Bool) (s : State) → I s → I (set_loading_inspector b s)
  pub selected : (o : Option String) (s : State) → I s → I (record s { selected_job_id = o })
  pub failure : (o : Option String) (s : State) → I s → I (record s { inspector_error = o })
  pub detail :
      (o : Option JobDetailResponse) (s : State) → I s → I (record s { selected_job_detail = o })

module _ {I : State → Type 0} {V : List ServiceStatus → Type 0} (st : Stable I V) (ui : StableUi I)
    (status : Maintains I (λ (res : SystemStatusResponse). V res.services) get_service_status) where
  refreshed_status : (silent : Bool) → Maintains I Free (refresh_status silent)
  refreshed_status silent =
      refresh_status-Maintains st status silent (λ b. unless-Stable silent _ (ui.status b))

  refreshed_addressing : (silent : Bool) → Maintains I Free (refresh_addressing silent)
  refreshed_addressing silent =
      refresh_addressing-Maintains st status silent (λ b. unless-Stable silent _ (ui.addressing b))

  refreshed_activity : (silent : Bool) → Maintains I Free (refresh_activity silent)
  refreshed_activity silent =
      refresh_activity-Maintains st status silent (λ b. unless-Stable silent _ (ui.activity b))
        (λ b. unless-Stable silent _ (ui.addressing b))

  mounted-Maintains : All (Maintains I Free) mounted
  unfolding mounted
  mounted-Maintains = (
    refreshed_status true,
    (
      refreshed_activity true,
      (load_subscriptions-Maintains st status, (refreshed_addressing true, tt)),
    ),
  )

  polled-Maintains : All (Maintains I Free) polled
  unfolding polled
  polled-Maintains =
      (refreshed_status true, (refreshed_activity true, (refreshed_addressing true, tt)))

  refresh_of-Maintains : (l : List Refresh) → All (Maintains I Free) (map refresh_of l)
  unfolding refresh_of
  refresh_of-Maintains [] = tt
  refresh_of-Maintains (activity_refresh silent ∷ l) =
      (refreshed_activity silent, refresh_of-Maintains l)
  refresh_of-Maintains (status_refresh silent ∷ l) =
      (refreshed_status silent, refresh_of-Maintains l)

  handlers-Maintains : (u : Trigger) (s : State) → All (Maintains I Free) (handlers u s)
  unfolding handlers close_inspector
  handlers-Maintains refresh_status_click s = (refreshed_status false, tt)
  handlers-Maintains refresh_activity_click s = (refreshed_activity false, tt)
  handlers-Maintains refresh_addressing_click s = (refreshed_addressing false, tt)
  handlers-Maintains refresh_activity_quietly s = (refreshed_activity true, tt)
  handlers-Maintains clear_activity s = (handle_clear_activity-Maintains st status, tt)
  handlers-Maintains reset_stream s = (handle_reset_stream-Maintains st status ui.resetting, tt)
  handlers-Maintains (submit job local_time) s =
      (handle_job_submit-Maintains st status job local_time ui.submitting, tt)
  handlers-Maintains (validate job) s =
      (handle_job_validate-Maintains st status job ui.validating, tt)
  handlers-Maintains (toggle_processor enabled) s =
      (handle_toggle_processor-Maintains st status enabled, tt)
  handlers-Maintains (select_job job_id) s = (
    handle_select_job-Maintains st status s.activities job_id ui.loading ui.selected ui.failure
        ui.detail,
    tt,
  )
  handlers-Maintains (trigger_replay req) s = (
    Maintains-bind _ _ (handle_trigger_replay-Maintains st status req)
        (λ res v. Maintains-done _ tt),
    tt,
  )
  handlers-Maintains (alert_success text) s = (
    Maintains-update _ (λ s'. st.success s' _),
    (refreshed_status true, (refreshed_activity true, tt)),
  )
  handlers-Maintains (alert_error text) s = (Maintains-update _ (λ s'. st.error s' _), tt)
  handlers-Maintains (alert_warning text) s = tt
  handlers-Maintains refresh_all s = (refreshed_status true, (refreshed_activity true, tt))
  handlers-Maintains activity_updated s = (
    refreshed_activity true,
    (Maintains-update _ (λ s'. st.timers s' _), (Maintains-update _ (λ s'. st.timers s' _), tt)),
  )
  handlers-Maintains close_inspector_click s = (Maintains-update _ (ui.selected none), tt)
  handlers-Maintains dismiss_error s = (Maintains-update _ (λ s'. st.error s' _), tt)
  handlers-Maintains dismiss_success s = (Maintains-update _ (λ s'. st.success s' _), tt)

  Step-Sound : {d e : Dashboard} → Step d e → Sound I d → Sound I e
  Step-Sound {d} (act u) sound = start_all-Sound _ d (handlers-Maintains u d.state) sound
  Step-Sound {d} tick sound = start_all-Sound _ d polled-Maintains sound
  Step-Sound {d} (reply i net) sound = answer-Sound i net d sound
  Step-Sound {d} (timeout i) sound = fire-Sound i d refresh_of-Maintains st.timers sound

  pub Reach-Sound : {d : Dashboard} → I initial_state → Reach d → Sound I d
  Reach-Sound i mount =
      start_all-Sound mounted _ mounted-Maintains (record { holds = i; kept = tt })
  Reach-Sound i (later r step) = Step-Sound step (Reach-Sound i r)
