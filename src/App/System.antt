-- ===== src/App/System.antt =====
-- The whole of frontend/src/App.tsx: what its markup and its effects start, and how the handlers that
-- wait are interleaved with one another, with the poll and with the timers.
pub mod Invariant
pub mod Broker
pub mod Flags
pub mod Fits
pub mod Quiet
pub mod Settling
pub mod Reading
mod Tests
use nats_demo.Common.{
  ℕ, Bool, true, false, String, List, [], ◌∷◌, ◌++◌, map, Option, none, some, take_out,
}
use nats_demo.Task.{Task, done, fail, set, call, update, advance, resume, ◌>>=◌}
use nats_demo.Api.{Job, ReplayRequest, Fetch, Reply}
use nats_demo.App.State.{
  State, initial_state, Handler, Refresh, activity_refresh, status_refresh, set_error, set_success,
}
use nats_demo.App.Refresh.{
  refresh_status, refresh_activity, refresh_addressing, handle_clear_activity, load_subscriptions,
}
use nats_demo.App.Jobs.{
  after, handle_job_submit, handle_job_validate, handle_toggle_processor, handle_reset_stream,
  handle_trigger_replay,
}
use nats_demo.App.Inspector.{handle_select_job, close_inspector}

-- What the markup can start.
pub data Trigger : Type 0 where
  refresh_status_click refresh_activity_click refresh_addressing_click : Trigger
  refresh_activity_quietly clear_activity reset_stream : Trigger
  submit : Job → (local_time : String) → Trigger
  validate : Job → Trigger
  toggle_processor : Bool → Trigger
  select_job : String → Trigger
  trigger_replay : ReplayRequest → Trigger
  alert_success alert_error alert_warning : String → Trigger
  refresh_all activity_updated : Trigger
  close_inspector_click dismiss_error dismiss_success : Trigger

abbrev pub AppHandler : Type 0
AppHandler = Handler (Unit {0})

-- The calls that a trigger makes one after the other, none waiting for the one before. The log that
-- the inspector looks into is the one on the screen.
unfoldable pub handlers : Trigger → State → List AppHandler
handlers refresh_status_click s = refresh_status false ∷ []
handlers refresh_activity_click s = refresh_activity false ∷ []
handlers refresh_addressing_click s = refresh_addressing false ∷ []
handlers refresh_activity_quietly s = refresh_activity true ∷ []
handlers clear_activity s = handle_clear_activity ∷ []
handlers reset_stream s = handle_reset_stream ∷ []
handlers (submit job local_time) s = handle_job_submit job local_time ∷ []
handlers (validate job) s = handle_job_validate job ∷ []
handlers (toggle_processor enabled) s = handle_toggle_processor enabled ∷ []
handlers (select_job job_id) s = handle_select_job s.activities job_id ∷ []
handlers (trigger_replay req) s = (handle_trigger_replay req >>= λ res. done tt) ∷ []
handlers (alert_success text) s =
    update (set_success (some text)) ∷ refresh_status true ∷ refresh_activity true ∷ []
handlers (alert_error text) s = update (set_error (some text)) ∷ []
handlers (alert_warning text) s = []
handlers refresh_all s = refresh_status true ∷ refresh_activity true ∷ []
handlers activity_updated s =
    refresh_activity true
    ∷ update (after 600 (activity_refresh true ∷ []))
    ∷ update (after 1500 (activity_refresh true ∷ []))
    ∷ []
handlers close_inspector_click s = update close_inspector ∷ []
handlers dismiss_error s = update (set_error none) ∷ []
handlers dismiss_success s = update (set_success none) ∷ []

-- The effect on mounting, and what it repeats every 2.5 seconds
unfoldable pub mounted : List AppHandler
mounted =
    refresh_status true ∷ refresh_activity true ∷ load_subscriptions ∷ refresh_addressing true ∷ []

unfoldable pub polled : List AppHandler
polled = refresh_status true ∷ refresh_activity true ∷ refresh_addressing true ∷ []

unfoldable pub refresh_of : Refresh → AppHandler
refresh_of (activity_refresh silent) = refresh_activity silent
refresh_of (status_refresh silent) = refresh_status silent

-- The state, and the handlers that wait for a reply, the oldest first.
pub record Dashboard : Type 0 where
  pub state : State
  pub waiting : List AppHandler

abbrev pub park : AppHandler → List AppHandler → List AppHandler
park (call q k) l = l ++ (call q k ∷ [])
park (done a) l = l
park (fail e) l = l
park (set f t) l = l

-- A call of a handler, which runs up to its first wait.
unfoldable pub start : AppHandler → Dashboard → Dashboard
start t d =
    let next = advance t d.state in record { state = next.0; waiting = park next.1 d.waiting }

unfoldable pub start_all : List AppHandler → Dashboard → Dashboard
start_all [] d = d
start_all (t ∷ ts) d = start_all ts (start t d)

-- The i-th of the waiting handlers gets its reply.
unfoldable pub answer : ℕ → ((q : Fetch) → Reply q) → Dashboard → Dashboard
answer i net d = elim (take_out i d.waiting) [
  | none ↦ d
  | some (t, rest) ↦ start (resume net t) (record d { waiting = rest })
]

-- The i-th of the timers fires.
unfoldable pub fire : ℕ → Dashboard → Dashboard
fire i d = elim (take_out i d.state.timers) [
  | none ↦ d
  | some (timer, rest) ↦
      start_all (map refresh_of timer.1) (record d { state = record (d.state) { timers = rest } })
]

pub data Step (d : Dashboard) : Dashboard → Type 0 where
  act : (u : Trigger) → Step d (start_all (handlers u d.state) d)
  tick : Step d (start_all polled d)
  reply : (i : ℕ) (net : (q : Fetch) → Reply q) → Step d (answer i net d)
  timeout : (i : ℕ) → Step d (fire i d)

abbrev pub loaded : Dashboard
loaded = start_all mounted (record { state = initial_state; waiting = [] })

pub data Reach : Dashboard → Type 0 where
  mount : Reach loaded
  later : {d e : Dashboard} → Reach d → Step d e → Reach e
