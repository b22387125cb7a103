-- ===== src/QueueGroup.antt =====
-- The queue group's panel, frontend/src/components/QueueGroupPanel.tsx: its state, its handlers and
-- the total that it shows. What it tells its parent is collected in `signals`, newest first.
pub mod Laws
pub mod Outcomes
pub mod Acting
pub mod Kinds
pub mod View
pub mod Presses
mod Tests
use nats_demo.Common.{
  ℕ, ◌+◌, Bool, true, false, ◌||◌, String, List, [], ◌∷◌, Option, none, some, ◌==◌, ◌+s◌, decimal,
  max, if◌then◌else◌,
}
use nats_demo.Task.{Task, done, message_or, update, catching, finally, ◌>>=◌, ◌>>◌}
use nats_demo.Api.{Fetch, Reply, QueueGroupStatus, QueuePublishResponse}
use nats_demo.Api.Queue.{
  get_queue_group_status, update_queue_group_workers, reset_queue_group_distribution,
}
use nats_demo.Api.Jobs.{send_queue_test_messages}

-- `onAlert`, `onMessagesSent`, `onActivityUpdated` and `onConfigChanged`
pub data Signal : Type 0 where
  alert_success alert_error : String → Signal
  messages_sent activity_updated : Signal
  config_changed : QueueGroupStatus → Signal

pub record QueueGroup : Type 0 where
  pub status : Option QueueGroupStatus
  pub workers : ℕ
  pub message_count : ℕ
  pub is_updating_workers : Bool
  pub is_sending : Bool
  pub is_resetting : Bool
  pub last_batch : List String
  pub signals : List Signal

abbrev pub QueueHandler : Type 0
QueueHandler = Task QueueGroup Fetch Reply (Unit {0})

abbrev signal : Signal → QueueHandler
signal x = update (λ s. record s { signals = x ∷ s.signals })

abbrev set_status : QueueGroupStatus → QueueHandler
set_status reported = update (λ s. record s { status = some reported })

abbrev failed : String → QueueHandler
failed text = signal (alert_error text)

-- `fetchStatus`: a group of no workers leaves the number as it is.
unfoldable pub fetch_status : QueueHandler
fetch_status =
    catching
      (do
        reported ← get_queue_group_status
        set_status reported
        update (λ s. if reported.workers == 0 then s else record s { workers = reported.workers }))
      (λ e. done tt)

-- `handleWorkersChange`; `f` is the state of the render that made the handler.
unfoldable pub handle_workers_change : QueueGroup → ℕ → QueueHandler
handle_workers_change f new_worker_count =
    if (new_worker_count == f.workers) || f.is_updating_workers then done tt else (do
      update (λ s. record s { is_updating_workers = true })
      finally
          (catching
            (do
              updated ← update_queue_group_workers new_worker_count
              set_status updated
              update (λ s. record s { workers = updated.workers })
              signal (config_changed updated)
              signal (
                  alert_success (
                    "Queue group reconfigured with "
                    +s decimal updated.workers
                    +s " active subscriber(s)")))
            (λ e. failed ("Failed to configure workers: " +s message_or e "Unknown error")))
          (λ s. record s { is_updating_workers = false }))

-- `handleResetDistribution`
unfoldable pub handle_reset_distribution : QueueHandler
handle_reset_distribution = do
  update (λ s. record s { is_resetting = true })
  finally
      (catching
        (do
          updated ← reset_queue_group_distribution
          set_status updated
          signal (config_changed updated)
          signal (alert_success "Worker distribution counters reset to zero"))
        (λ e. failed ("Failed to reset distribution: " +s message_or e "Unknown error")))
      (λ s. record s { is_resetting = false })

-- `jobs || []`
abbrev or_none : Option (List String) → List String
or_none none = []
or_none (some jobs) = jobs

-- `handleSendMessages`
unfoldable pub handle_send_messages : QueueGroup → QueueHandler
handle_send_messages f = if (f.message_count == 0) || f.is_sending then done tt else (do
  update (λ s. record s { is_sending = true })
  finally
      (catching
        (do
          res ← send_queue_test_messages f.message_count
          update (λ s. record s { last_batch = or_none res.jobs })
          signal (
              alert_success
                ("Published " +s decimal res.published +s " test messages to jobs.queue"))
          signal messages_sent
          signal activity_updated
          fetch_status)
        (λ e. failed ("Failed to send queue messages: " +s message_or e "Unknown error")))
      (λ s. record s { is_sending = false }))

abbrev total : List (String × ℕ) → ℕ
total [] = 0
total ((worker, n) ∷ d) = n + total d

-- `totalDelivered`
unfoldable pub total_delivered : QueueGroup → ℕ
total_delivered s = elim (s.status) [ none ↦ 0 | some reported ↦ total reported.distribution ]

-- `maxWorkersToDisplay`
unfoldable pub max_workers_to_display : QueueGroup → ℕ
max_workers_to_display s = max s.workers 2
