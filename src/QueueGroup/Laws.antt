-- ===== src/QueueGroup/Laws.antt =====
-- What the queue group's panel asks of the services.
use nats_demo.Common.{ℕ, ◌≡◌, refl, ◌<◌, ◌||◌, arith, ◌==◌, Bool-cases, inl, inr}
use nats_demo.Task.{Result, Asks, update, settle, ◌>>=◌}
use nats_demo.Task.Asking.{Asks-bind, Asks-catching, Asks-finally, Asks-settle}
use nats_demo.Api.{Fetch, Reply, post_jobs_queue, get_queue_group}
use nats_demo.Api.Queue.{get_queue_group_status}
use nats_demo.Api.Jobs.{send_queue_test_messages}
use nats_demo.QueueGroup.{QueueGroup, handle_send_messages, fetch_status}

-- The requests of a publication: some messages, or the group's status.
abbrev pub IsPublication : ℕ → Fetch → Type 0
IsPublication count (post_jobs_queue n) = (0 < n) × (n ≡ count)
IsPublication count get_queue_group = Unit
IsPublication count q = ⊥

module _ (count : ℕ) where
  -- A request and what comes of its reply.
  settled :
      {A : Type 0} (r : Result A)
      → Asks (IsPublication count) (settle {S = QueueGroup} {R = Reply} r)
  settled r = Asks-settle QueueGroup Fetch Reply (IsPublication count) r

  fetch_status-Asks : Asks (IsPublication count) fetch_status
  unfolding fetch_status get_queue_group_status update Asks ◌>>=◌
  fetch_status-Asks =
      Asks-catching _ _ _
        (Asks-bind _ get_queue_group_status _ (tt, λ r. settled _) (λ reported. tt)) (λ e. tt)

-- A publication asks for as many messages as the panel shows and for the group's status, and for no
-- messages at all where the number shown is zero.
pub handle_send_messages-IsPublication :
    (f : QueueGroup) → Asks (IsPublication f.message_count) (handle_send_messages f)
unfolding handle_send_messages send_queue_test_messages update Asks ◌>>=◌
handle_send_messages-IsPublication f = elim (Bool-cases ((f.message_count == 0) || f.is_sending)) [
  | inl idle ↦ rw idle tt
  | inr ready ↦ rw ready (
      Asks-finally _ _ _ (
        Asks-catching _ _ _
          (Asks-bind _ (send_queue_test_messages f.message_count) _
            ((ground arith, refl), λ r. settled f.message_count _)
            (λ res. fetch_status-Asks f.message_count))
          (λ e. tt)))
]
