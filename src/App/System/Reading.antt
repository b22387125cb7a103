-- ===== src/App/System/Reading.antt =====
-- What frontend/src/App.tsx starts by itself only reads: the effect on mounting, the poll and the
-- timers.
use nats_demo.Common.{◌≡◌, refl, Bool, true, List, All, Bool-cases, inl, inr}
use nats_demo.Task.{Failure, Result, done, update, catching, finally, Asks, ◌>>=◌, ◌>>◌}
use nats_demo.Task.Asking.{Asks-bind, Asks-catching, Asks-finally, Asks-settle}
use nats_demo.Api.{Fetch, Reply, Response, Body, request, ServiceStatus}
use nats_demo.Api.Endpoint.{endpoint, get}
use nats_demo.Api.Status.{get_service_status, report, with_fallback, needs_fallback}
use nats_demo.Api.Processor.{get_processor_direct_status}
use nats_demo.Api.Control.{
  get_activity, get_addressing_subscriptions, get_addressing_activity, get_consumer_status,
}
use nats_demo.Api.Queue.{fetch_dlq_status, get_queue_group_status}
use nats_demo.App.State.{State, Handler, Refresh, activity_refresh, status_refresh}
use nats_demo.App.Refresh.{
  quietly, load_optional, load_status, refresh_status, refresh_addressing, refresh_activity,
  load_subscriptions,
}
use nats_demo.App.System.{mounted, polled, refresh_of}

abbrev pub IsRead : Fetch → Type 0
IsRead q = (endpoint q).0 ≡ get

-- All that a handler asks for is read.
pub record Reads {A : Type 0} (t : Handler A) : Type 0 where
  pub asks : Asks IsRead t

request-Reads :
    {B : Type 0} (q : Fetch) (f : Response (Body q) → Result B) → IsRead q → Reads (request q f)
unfolding Asks
request-Reads q f h = record { asks = (h, λ r. Asks-settle State Fetch Reply IsRead _) }

bind-Reads :
    {A B : Type 0} (t : Handler A) (f : A → Handler B)
    → Reads t
    → ((a : A) → Reads (f a))
    → Reads (t >>= f)
bind-Reads t f h k = record { asks = Asks-bind IsRead t f h.asks (λ a. (k a).asks) }

quietly-Reads :
    {A : Type 0} (t : Handler A) (keep : A → State → State) → Reads t → Reads (quietly t keep)
unfolding Asks update
quietly-Reads t keep h = record {
  asks = Asks-catching IsRead _ _ (Asks-bind IsRead t _ h.asks (λ a. tt)) (λ e. tt);
}

done-Reads : {A : Type 0} (a : A) → Reads (done a)
unfolding Asks
done-Reads a = record { asks = tt }

-- An update before, and what is left
step-Reads : {A : Type 0} (f : State → State) (t : Handler A) → Reads t → Reads (update f >> t)
unfolding Asks update ◌>>=◌
step-Reads f t h = record { asks = h.asks }

-- A body whose failure and whose end only update the state
guarded-Reads :
    (t : Handler (Unit {0})) (c : Failure → State → State) (f : State → State)
    → Reads t
    → Reads (finally (catching t (λ e. update (c e))) f)
unfolding Asks update
guarded-Reads t c f h = record {
  asks = Asks-finally IsRead _ f (Asks-catching IsRead t _ h.asks (λ e. tt));
}

with_fallback-Reads : (l : List ServiceStatus) → Reads (with_fallback l)
unfolding with_fallback get_processor_direct_status endpoint Asks
with_fallback-Reads l = elim (Bool-cases (needs_fallback l)) [
  | inr online ↦ rw online (done-Reads l)
  | inl offline ↦ rw offline (record {
    asks =
        Asks-catching IsRead _ _
          (bind-Reads _ _ (request-Reads _ _ refl) (λ direct. done-Reads _)).asks (λ e. tt);
  })
]

service_status-Reads : Reads get_service_status
unfolding get_service_status report endpoint
service_status-Reads =
    bind-Reads _ _ (request-Reads _ _ refl)
      (λ raw. bind-Reads _ _ (with_fallback-Reads _) (λ services. done-Reads _))

load_optional-Reads : Reads load_optional
unfolding load_optional get_consumer_status fetch_dlq_status get_queue_group_status endpoint
load_optional-Reads = bind-Reads _ _ (quietly-Reads _ _ (request-Reads _ _ refl)) (λ a.
    bind-Reads _ _ (quietly-Reads _ _ (request-Reads _ _ refl))
      (λ b. quietly-Reads _ _ (request-Reads _ _ refl)))

refresh_status-Reads : (silent : Bool) → Reads (refresh_status silent)
unfolding refresh_status load_status
refresh_status-Reads silent = step-Reads _ _ (
    step-Reads _ _ (
      guarded-Reads _ _ _
        (bind-Reads _ _ service_status-Reads (λ res. step-Reads _ _ load_optional-Reads))))

refresh_addressing-Reads : (silent : Bool) → Reads (refresh_addressing silent)
unfolding refresh_addressing get_addressing_activity endpoint Asks update
refresh_addressing-Reads silent =
    step-Reads _ _
      (guarded-Reads _ _ _ (bind-Reads _ _ (request-Reads _ _ refl) (λ res. record { asks = tt })))

refresh_activity-Reads : (silent : Bool) → Reads (refresh_activity silent)
unfolding refresh_activity get_activity endpoint
refresh_activity-Reads silent = step-Reads _ _ (
    step-Reads _ _ (
      guarded-Reads _ _ _ (
        bind-Reads _ _ (request-Reads _ _ refl)
          (λ res. step-Reads _ _ (refresh_addressing-Reads silent)))))

load_subscriptions-Reads : Reads load_subscriptions
unfolding load_subscriptions get_addressing_subscriptions endpoint
load_subscriptions-Reads = quietly-Reads _ _ (request-Reads _ _ refl)

refresh_of-Reads : (r : Refresh) → Reads (refresh_of r)
unfolding refresh_of
refresh_of-Reads (activity_refresh silent) = refresh_activity-Reads silent
refresh_of-Reads (status_refresh silent) = refresh_status-Reads silent

-- What the dashboard starts by itself, on mounting, in the poll and in a timer, asks the services by
-- GET only, whatever their replies are.
pub started-Reads : (r : Refresh) → All Reads mounted × All Reads polled × Reads (refresh_of r)
unfolding mounted polled
started-Reads r = (
  (
    refresh_status-Reads true,
    (refresh_activity-Reads true, (load_subscriptions-Reads, (refresh_addressing-Reads true, tt))),
  ),
  (refresh_status-Reads true, (refresh_activity-Reads true, (refresh_addressing-Reads true, tt))),
  refresh_of-Reads r,
)
