-- ===== src/App/System/Broker.antt =====
-- The first of the entries of the status bar is the broker's, whatever the handlers of
-- frontend/src/App.tsx are doing: the default ones, those mapped by `getServiceStatus`, and those shown
-- while the gateway cannot be reached.
use nats_demo.Common.{◌≡◌, refl, ap, str_eq, Bool-cases, List, [], ◌∷◌, ◌⊎◌, inl, inr}
use nats_demo.Task.Keeping.{
  Maintains, Free, Maintains-done, Maintains-settle, Maintains-call, Maintains-bind,
  Maintains-catching,
}
use nats_demo.Api.{
  ServiceState, connected, disconnected, unknown, ServiceStatus, SystemStatusResponse, RawStatus,
  Fetch, Reply, ProcessorDirectStatus,
}
use nats_demo.Api.Status.{
  get_service_status, report, with_fallback, mapped_services, nats_entry, apply_direct, set_first,
  is_text, needs_fallback, is_alive, is_processor,
}
use nats_demo.Api.Processor.{get_processor_direct_status}
use nats_demo.App.State.{State}
use nats_demo.App.Frames.{Stable}
use nats_demo.App.System.{Dashboard, Reach}
use nats_demo.App.System.Invariant.{StableUi, Reach-Sound}

-- The broker is shown as connected, disconnected or, before the first report, unknown.
abbrev pub BrokerState : ServiceState → Type 0
BrokerState st = (st ≡ unknown) ⊎ (st ≡ connected) ⊎ (st ≡ disconnected)

abbrev pub BrokerFirst : List ServiceStatus → Type 0
BrokerFirst [] = ⊥
BrokerFirst (s ∷ l) = (s.name ≡ "NATS Server (4222)") × BrokerState s.status

abbrev pub ShowsBroker : State → Type 0
ShowsBroker s = BrokerFirst s.services

nats_entry-Broker : (raw : RawStatus) → BrokerFirst (nats_entry raw ∷ [])
unfolding nats_entry
nats_entry-Broker raw = elim (Bool-cases (is_text raw.nats_status "CONNECTED")) [
  | inl on ↦ rw on (refl, inr (inl refl))
  | inr off ↦ rw off (refl, inr (inr refl))
]

mapped_services-BrokerFirst : (raw : RawStatus) → BrokerFirst (mapped_services raw)
unfolding mapped_services
mapped_services-BrokerFirst raw = nats_entry-Broker raw

-- The fallback changes the first entry named after the processor, which the broker's is not.
set_first-BrokerFirst :
    (f : ServiceStatus → ServiceStatus) (l : List ServiceStatus)
    → BrokerFirst l
    → BrokerFirst (set_first is_processor f l)
unfolding set_first
set_first-BrokerFirst f [] h = elim h [ ]
set_first-BrokerFirst f (s ∷ l) h = rw (ap (λ t. str_eq t "processor-service") h.0) h

apply_direct-BrokerFirst :
    (d : ProcessorDirectStatus) (l : List ServiceStatus)
    → BrokerFirst l
    → BrokerFirst (apply_direct d l)
unfolding apply_direct
apply_direct-BrokerFirst d l h = elim (Bool-cases (is_alive d)) [
  | inl alive ↦ rw alive (set_first-BrokerFirst _ l h)
  | inr dead ↦ rw dead h
]

abbrev ReportsBroker : SystemStatusResponse → Type 0
ReportsBroker res = BrokerFirst res.services

module _ (I : State → Type 0) where
  with_fallback-Maintains :
      (l : List ServiceStatus)
      → BrokerFirst l
      → Maintains {S = State} {Q = Fetch} {R = Reply} I BrokerFirst (with_fallback l)
  unfolding with_fallback get_processor_direct_status
  with_fallback-Maintains l h = elim (Bool-cases (needs_fallback l)) [
    | inr online ↦ rw online (Maintains-done _ h)
    | inl offline ↦ rw offline (
        Maintains-catching _ _
          (Maintains-bind {V = Free} _ _ (Maintains-call _ _ (λ r. Maintains-settle _ (λ a e. tt)))
            (λ d v. Maintains-done _ (apply_direct-BrokerFirst d l h)))
          (λ e. Maintains-done _ h))
  ]

  pub get_service_status-Maintains :
      Maintains {S = State} {Q = Fetch} {R = Reply} I ReportsBroker get_service_status
  unfolding get_service_status report
  get_service_status-Maintains =
      Maintains-bind {V = Free} _ _ (Maintains-call _ _ (λ r. Maintains-settle _ (λ a e. tt)))
        (λ raw v.
          Maintains-bind _ _ (with_fallback-Maintains _ (mapped_services-BrokerFirst raw))
            (λ l h. Maintains-done _ h))

ShowsBroker-Stable : Stable ShowsBroker BrokerFirst
ShowsBroker-Stable = record {
  services = λ s l j v i. v;
  unreachable = λ silent e s i. (refl, inr (inr refl));
  consumer = λ s c i. i;
  dlq = λ s d i. i;
  queue = λ s q i. i;
  activities = λ s l i. i;
  error = λ s e i. i;
  success = λ s m i. i;
  timers = λ s l i. i;
  subscriptions = λ s l i. i;
  addressing = λ s l i. i;
}

ShowsBroker-StableUi : StableUi ShowsBroker
ShowsBroker-StableUi = record {
  submitting = λ b s i. i;
  validating = λ b s i. i;
  resetting = λ b s i. i;
  status = λ b s i. i;
  activity = λ b s i. i;
  addressing = λ b s i. i;
  loading = λ b s i. i;
  selected = λ o s i. i;
  failure = λ o s i. i;
  detail = λ o s i. i;
}

-- In every state that the dashboard can get into, by whatever interleaving of the user's actions, the
-- poll, the timers and the replies, the first entry of the status bar is the broker's, and it is shown
-- as unknown, connected or disconnected.
pub Reach-ShowsBroker : (d : Dashboard) → Reach d → ShowsBroker d.state
Reach-ShowsBroker d r =
    (Reach-Sound ShowsBroker-Stable ShowsBroker-StableUi (get_service_status-Maintains _)
      (refl, inl refl) r).holds
