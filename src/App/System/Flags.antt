-- ===== src/App/System/Flags.antt =====
-- The flags of frontend/src/App.tsx by which a button is disabled while its handler runs, and how each
-- handler treats each of them: it leaves it alone, or it ends with the flag off.
use nats_demo.Common.{◌≡◌, Bool, true, false, List}
use nats_demo.Common.{◌⊎◌, String}
use nats_demo.Task.{done, fail, set, call, Ends, Ensures, finally, resume}
use nats_demo.Task.Laws.{Anything, Ensures-finally, Ensures-whatever}
use nats_demo.Task.Keeping.{Maintains, Free}
use nats_demo.Api.{Fetch, Reply, Job, Activity}
use nats_demo.App.State.{State, unless}
use nats_demo.App.Refresh.{
  refresh_status, refresh_activity, refresh_addressing, set_refreshing_status,
  set_refreshing_activity, set_refreshing_addressing, status_failed,
}
use nats_demo.App.Jobs.{
  set_submitting, set_validating, set_resetting_stream, handle_job_submit, handle_job_validate,
  handle_reset_stream,
}
use nats_demo.App.Inspector.{set_loading_inspector, handle_select_job}
use nats_demo.App.Frames.{
  Stable, refresh_status-Maintains, refresh_addressing-Maintains, refresh_activity-Maintains,
}
use nats_demo.App.Frames.Jobs.{
  handle_job_submit-Maintains, handle_job_validate-Maintains, handle_reset_stream-Maintains,
  handle_select_job-Maintains,
}
use nats_demo.App.System.{AppHandler}
use nats_demo.App.System.Broker.{BrokerFirst, get_service_status-Maintains}

pub data Flag : Type 0 where
  submitting validating resetting loading refreshing_status refreshing_activity : Flag

record Flags : Type 0 where
  is_submitting : Bool
  is_validating : Bool
  is_resetting : Bool
  is_loading : Bool
  is_refreshing_status : Bool
  is_refreshing_activity : Bool

abbrev flags : State → Flags
flags s = record {
  is_submitting = s.is_submitting;
  is_validating = s.is_validating;
  is_resetting = s.is_resetting_stream;
  is_loading = s.is_loading_inspector;
  is_refreshing_status = s.is_refreshing_status;
  is_refreshing_activity = s.is_refreshing_activity;
}

abbrev among : Flag → Flags → Bool
among submitting f = f.is_submitting
among validating f = f.is_validating
among resetting f = f.is_resetting
among loading f = f.is_loading
among refreshing_status f = f.is_refreshing_status
among refreshing_activity f = f.is_refreshing_activity

abbrev pub flag : Flag → State → Bool
flag φ s = among φ (flags s)

-- The handler ends with the flag off, whatever the others do meanwhile.
pub record Releases (φ : Flag) (t : AppHandler) : Type 0 where
  pub released : (s : State) → Ensures Anything (λ s' out. flag φ s' ≡ false) t s

-- The handler does not touch the flag.
abbrev pub Leaves : Flag → AppHandler → Type 0
Leaves φ t = (b : Bool) → Maintains (λ s. flag φ s ≡ b) Free t

abbrev pub Fits : Flag → AppHandler → Type 0
Fits φ t = Leaves φ t ⊎ Releases φ t

pub Releases-resume :
    (φ : Flag) (net : (q : Fetch) → Reply q) (t : AppHandler)
    → Releases φ t
    → Releases φ (resume net t)
unfolding Ends resume
Releases-resume φ net (call q k) h = record {
  released = λ s. record { ends = (h.released s).ends (net q) s tt };
}
Releases-resume φ net (done a) h = h
Releases-resume φ net (fail e) h = h
Releases-resume φ net (set f t) h = h

-- What a `finally` block sets is so in the end.
pub finally-Ensures :
    (φ : Flag) (t : AppHandler) (f : State → State) (s : State)
    → ((s' : State) → flag φ (f s') ≡ false)
    → Ensures Anything (λ s' out. flag φ s' ≡ false) (finally t f) s
finally-Ensures φ t f s h = Ensures-finally _ _ (Ensures-whatever _ _ _ (λ s' out. h s'))

pub still : (φ : Flag) (b : Bool) → Stable (λ s. flag φ s ≡ b) BrokerFirst
still φ b = record {
  services = λ s l j v i. i;
  unreachable = λ silent e s i. elim silent as (λ x. flag φ (status_failed x e s) ≡ b) [
    | true ↦ i
    | false ↦ i
  ];
  consumer = λ s c i. i;
  dlq = λ s d i. i;
  queue = λ s q i. i;
  activities = λ s l i. i;
  error = λ s e i. i;
  success = λ s m i. i;
  timers = λ s l i. i;
  subscriptions = λ s l i. i;
  addressing = λ s l i. i;
}

-- The flag survives a setter of another one.
abbrev Apart : Flag → (Bool → State → State) → Type 0
Apart φ setter = (b c : Bool) (s : State) → flag φ s ≡ b → flag φ (setter c s) ≡ b

module _ (φ : Flag) where
  pub status-Leaves : Leaves φ (refresh_status true)
  status-Leaves b =
      refresh_status-Maintains (still φ b) (get_service_status-Maintains _) true (λ c s i. i)

  pub addressing-Leaves : (silent : Bool) → Leaves φ (refresh_addressing silent)
  addressing-Leaves silent b =
      refresh_addressing-Maintains (still φ b) (get_service_status-Maintains _) silent (λ c s i.
        elim silent as (λ x. flag φ (unless x (set_refreshing_addressing c) s) ≡ b) [
          | true ↦ i
          | false ↦ i
        ])

  pub activity-Leaves : Leaves φ (refresh_activity true)
  activity-Leaves b =
      refresh_activity-Maintains (still φ b) (get_service_status-Maintains _) true (λ c s i. i)
        (λ c s i. i)

  pub shown_status-Leaves : Apart φ set_refreshing_status → Leaves φ (refresh_status false)
  shown_status-Leaves apart b =
      refresh_status-Maintains (still φ b) (get_service_status-Maintains _) false (apart b)

  pub shown_activity-Leaves : Apart φ set_refreshing_activity → Leaves φ (refresh_activity false)
  shown_activity-Leaves apart b =
      refresh_activity-Maintains (still φ b) (get_service_status-Maintains _) false (apart b)
        (λ c s i. i)

  pub submit-Leaves :
      (job : Job) (local_time : String)
      → Apart φ set_submitting
      → Leaves φ (handle_job_submit job local_time)
  submit-Leaves job local_time apart b =
      handle_job_submit-Maintains (still φ b) (get_service_status-Maintains _) job local_time
        (apart b)

  pub validate-Leaves : (job : Job) → Apart φ set_validating → Leaves φ (handle_job_validate job)
  validate-Leaves job apart b =
      handle_job_validate-Maintains (still φ b) (get_service_status-Maintains _) job (apart b)

  pub reset-Leaves : Apart φ set_resetting_stream → Leaves φ handle_reset_stream
  reset-Leaves apart b =
      handle_reset_stream-Maintains (still φ b) (get_service_status-Maintains _) (apart b)

  pub select-Leaves :
      (log : List Activity) (job_id : String)
      → Apart φ set_loading_inspector
      → Leaves φ (handle_select_job log job_id)
  select-Leaves log job_id apart b =
      handle_select_job-Maintains (still φ b) (get_service_status-Maintains _) log job_id (apart b)
        (λ o s i. i) (λ o s i. i) (λ o s i. i)
