-- ===== src/DelayedRetry/Outcomes.antt =====
-- How each demonstration of frontend/src/components/DelayedRetryPanel.tsx ends.
use nats_demo.Common.{
  ◌≡◌, refl, ap, ℕ, Bool, true, false, String, List, ◌∷◌, Option, some, ◌+s◌, str_eq,
}
use nats_demo.Task.{Result, ok, err, message_or, call, settle}
use nats_demo.Task.Given.{
  outcome, EnsuresGiven, Given-step, Given-update, Given-finally, Given-catching, Given-await,
}
use nats_demo.Platform.{Platform}
use nats_demo.DelayedRetry.{
  RetryAsk, RetryAnswer, submit, schedule, RetryHandler, DelayedRetry, nak_job, ack_wait_job,
  schedule_request, nak_message, ack_wait_message, schedule_message, handle_trigger_nak,
  handle_trigger_ack_wait, handle_trigger_schedule,
}

-- The three demonstrations, and where each keeps what it asks, whether it runs and what it says.
pub data RetryAction : Type 0 where
  nak ack_wait scheduling : RetryAction

abbrev pub id_of : RetryAction → DelayedRetry → String
id_of nak s = s.nak_job_id
id_of ack_wait s = s.ack_wait_job_id
id_of scheduling s = s.sched_job_id

abbrev pub is_busy : RetryAction → DelayedRetry → Bool
is_busy nak s = s.is_submitting_nak
is_busy ack_wait s = s.is_submitting_ack_wait
is_busy scheduling s = s.is_scheduling

abbrev pub status_of : RetryAction → DelayedRetry → Option String
status_of nak s = s.nak_status
status_of ack_wait s = s.ack_wait_status
status_of scheduling s = s.sched_status

abbrev pub KeepsAlerts : DelayedRetry → DelayedRetry → Type 0
KeepsAlerts s s' = s'.alerts ≡ s.alerts

-- What is said of a reply: whether it is a success, and the text
abbrev say : {A : Type 0} → (A → String) → String → Result A → Bool × String
say told default (ok a) = (true, told a)
say told default (err e) = (false, message_or e default)

-- The panel's status, where a failure is marked
abbrev pub shown : Bool × String → String
shown (true, text) = text
shown (false, text) = "Error: " +s text

-- One alert more, with the text that the panel shows as its status
abbrev pub Announces :
    RetryAction → Bool × String → DelayedRetry → DelayedRetry → Result (Unit {0}) → Type 0
Announces a verdict s s' out =
    (out ≡ ok tt)
    × (is_busy a s' ≡ false)
    × (s'.alerts ≡ verdict ∷ s.alerts)
    × (status_of a s' ≡ some (shown verdict))

one_more : {x : Bool × String} {l l' : List (Bool × String)} → l ≡ l' → x ∷ l ≡ x ∷ l'
one_more {x} e = ap (λ m. x ∷ m) e

module _ (js : Platform) (local_time : String → String) where
  unfoldable pub demonstrate : RetryAction → DelayedRetry → ℕ → RetryHandler
  demonstrate nak f n = handle_trigger_nak js f n
  demonstrate ack_wait f n = handle_trigger_ack_wait js f n
  demonstrate scheduling f n = handle_trigger_schedule js local_time f n

  -- What each demonstration says of the reply to its request
  abbrev pub verdict : RetryAction → ((q : RetryAsk) → RetryAnswer q) → DelayedRetry → Bool × String
  verdict nak net f =
      say (λ a. nak_message js f) "Failed to submit NAK demo job"
        (outcome net (call (submit (nak_job js f)) (λ r. settle r)))
  verdict ack_wait net f =
      say (λ a. ack_wait_message js f) "Failed to submit AckWait demo job"
        (outcome net (call (submit (ack_wait_job js f)) (λ r. settle r)))
  verdict scheduling net f =
      say (schedule_message js local_time) "Failed to schedule job"
        (outcome net (call (schedule (schedule_request js f)) (λ r. settle r)))

  -- Each demonstration that is given a name ends without an exception and with its button free. It says
  -- once, in an alert and in its status, how its request went: with its own message where the request
  -- was accepted, with the failure's where it was not; if nothing else alerts while it waits.
  pub demonstrate-Announces :
      (net : (q : RetryAsk) → RetryAnswer q) (a : RetryAction) (f s : DelayedRetry) (n : ℕ)
      → str_eq (js.trim (id_of a f)) "" ≡ false
      → EnsuresGiven net KeepsAlerts (Announces a (verdict a net f) s) (demonstrate a f n) s
  unfolding demonstrate handle_trigger_nak handle_trigger_ack_wait handle_trigger_schedule
  demonstrate-Announces net nak f s n named = rw named (
      Given-step _ _ (
        Given-step _ _ (
          Given-finally _ _ (
            Given-catching _ _ (
              Given-await _ _ _
                (λ b given s' rel.
                  Given-step _ _
                    (Given-step _ _ (Given-update _ (rw given (refl, refl, one_more rel, refl)))))
                (λ e given s' rel.
                  Given-step _ _ (Given-update _ (rw given (refl, refl, one_more rel, refl)))))))))
  demonstrate-Announces net ack_wait f s n named = rw named (
      Given-step _ _ (
        Given-step _ _ (
          Given-finally _ _ (
            Given-catching _ _ (
              Given-await _ _ _
                (λ b given s' rel.
                  Given-step _ _
                    (Given-step _ _ (Given-update _ (rw given (refl, refl, one_more rel, refl)))))
                (λ e given s' rel.
                  Given-step _ _ (Given-update _ (rw given (refl, refl, one_more rel, refl)))))))))
  demonstrate-Announces net scheduling f s n named = rw named (
      Given-step _ _ (
        Given-step _ _ (
          Given-finally _ _ (
            Given-catching _ _ (
              Given-await _ _ _
                (λ b given s' rel.
                  Given-step _ _
                    (Given-step _ _ (Given-update _ (rw given (refl, refl, one_more rel, refl)))))
                (λ e given s' rel.
                  Given-step _ _ (Given-update _ (rw given (refl, refl, one_more rel, refl)))))))))
