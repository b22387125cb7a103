-- ===== src/App/Refresh.antt =====
-- The polling handlers of frontend/src/App.tsx: status, activity, addressing, subscriptions.
use nats_demo.Common.{Bool, true, false, [], none, some}
use nats_demo.Task.{Failure, message_or, done, update, catching, finally, ◌>>=◌, ◌>>◌}
use nats_demo.Api.Status.{get_service_status}
use nats_demo.Api.Control.{
  get_activity, clear_activity, get_addressing_subscriptions, get_addressing_activity,
  get_consumer_status,
}
use nats_demo.Api.Queue.{fetch_dlq_status, get_queue_group_status}
use nats_demo.App.State.{State, Handler, unreachable_services, set_error, unless}

-- `try { const a = await t; set(a) } catch { }`
abbrev pub quietly : {A : Type 0} → Handler A → (A → State → State) → Handler (Unit {0})
quietly t set = catching (do a ← t; update (set a)) (λ _. done tt)

abbrev pub set_refreshing_status : Bool → State → State
set_refreshing_status b s = record s { is_refreshing_status = b }

abbrev pub set_refreshing_activity : Bool → State → State
set_refreshing_activity b s = record s { is_refreshing_activity = b }

abbrev pub set_refreshing_addressing : Bool → State → State
set_refreshing_addressing b s = record s { is_refreshing_addressing = b }

-- The `catch` of `refreshStatus`
abbrev pub status_failed : Bool → Failure → State → State
status_failed silent e s =
    let s' = unless silent (set_error (some (message_or e "Failed to refresh service status"))) s in
    record s' {
      services = unreachable_services;
      jetstream_info = none;
      dlq_status = none;
      queue_group_status = none;
    }

-- Its three requests that may fail
unfoldable pub load_optional : Handler (Unit {0})
load_optional = do
  quietly get_consumer_status (λ c s. record s { consumer_status = some c })
  quietly fetch_dlq_status (λ d s. record s { dlq_status = some d })
  quietly get_queue_group_status (λ q s. record s { queue_group_status = some q })

-- The `try` of `refreshStatus`
unfoldable pub load_status : Handler (Unit {0})
load_status = do
  res ← get_service_status
  update (λ s. record s { services = res.services; jetstream_info = res.jetstream })
  load_optional

unfoldable pub refresh_status : Bool → Handler (Unit {0})
refresh_status silent = do
  update (unless silent (set_refreshing_status true))
  update (unless silent (set_error none))
  finally (catching load_status (λ e. update (status_failed silent e)))
      (unless silent (set_refreshing_status false))

unfoldable pub refresh_addressing : Bool → Handler (Unit {0})
refresh_addressing silent = do
  update (unless silent (set_refreshing_addressing true))
  finally
      (catching
        (do res ← get_addressing_activity; update (λ s. record s { addressing_events = res }))
        (λ e. update (
          unless silent (set_error (some (message_or e "Failed to refresh addressing activity"))))))
      (unless silent (set_refreshing_addressing false))

unfoldable pub refresh_activity : Bool → Handler (Unit {0})
refresh_activity silent = do
  update (unless silent (set_refreshing_activity true))
  update (set_error none)
  finally
      (catching
        (do
          res ← get_activity
          update (λ s. record s { activities = res })
          refresh_addressing silent)
        (λ e.
          update (unless silent (set_error (some (message_or e "Failed to fetch activity logs"))))))
      (unless silent (set_refreshing_activity false))

unfoldable pub handle_clear_activity : Handler (Unit {0})
handle_clear_activity =
    catching (do clear_activity; update (λ s. record s { activities = [] }))
      (λ e. update (set_error (some (message_or e "Failed to clear activity logs"))))

-- A failure is only logged to the console.
unfoldable pub load_subscriptions : Handler (Unit {0})
load_subscriptions = quietly get_addressing_subscriptions (λ l s. record s { subscriptions = l })
