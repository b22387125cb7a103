-- ===== src/DelayedRetry/Presses.antt =====
-- What can be pressed in frontend/src/components/DelayedRetryPanel.tsx while its handlers wait.
use nats_demo.Common.{ℕ, ◌≡◌, refl, ◌∙◌, false, String, some, arith}
use nats_demo.Task.{Failure, Result, call, settle, update, catching, ◌>>=◌, ◌>>◌}
use nats_demo.Task.Keeping.{Maintains-done, Maintains-update, Maintains-step, Maintains-asked}
use nats_demo.Platform.{Platform}
use nats_demo.Html.{is_disabled}
use nats_demo.Html.Guarded.{Guarded, Posted, Sound}
use nats_demo.Panel.{Live, Reach}
use nats_demo.Panel.Exclusive.{owners, one_if}
use nats_demo.Panel.Kinds.{Acts, LeavesAll, Spares, owns, IsFree, owners_of_kind}
use nats_demo.Panel.Taking.{raised_then-Takes, set_flag-Lowers, skip-Takes}
use nats_demo.DelayedRetry.{
  DelayedRetry, RetryAsk, RetryAnswer, handle_trigger_nak, handle_trigger_ack_wait,
  handle_trigger_schedule,
}
use nats_demo.DelayedRetry.Acting.{
  RetryEvent, show_info, set_nak_job_id, set_nak_delay, set_ack_wait_job_id, set_sched_job_id,
  set_sched_delay, trigger_nak, trigger_ack_wait, trigger_schedule, react, initial,
}
use nats_demo.DelayedRetry.View.{
  RetryProps, view, heading, nak_card, ack_wait_card, schedule_card, footer,
}
use nats_demo.DelayedRetry.Kinds.{
  RetryKind, submitting_nak, submitting_ack_wait, scheduling, flag, kind, kinds,
}

-- One request, and the updates that tell how it went
asked-Leaves :
    {A : Type 0} (q : RetryAsk) (r : RetryAnswer q → Result A)
    (g h k : A → DelayedRetry → DelayedRetry) (u v : Failure → DelayedRetry → DelayedRetry)
    → ((a : A) → Spares kinds (g a))
    → ((a : A) → Spares kinds (h a))
    → ((a : A) → Spares kinds (k a))
    → ((e : Failure) → Spares kinds (u e))
    → ((e : Failure) → Spares kinds (v e))
    → LeavesAll kinds {R = RetryAnswer} (
        catching
          (do a ← call q (λ x. settle (r x)); update (g a); update (h a); update (k a))
          (λ e. do update (u e); update (v e)))
asked-Leaves q r g h k u v sg sh sk su sv κ b =
    Maintains-asked q r _ _
      (λ a.
        Maintains-step _ _ (λ s i. sg a κ s ∙ i)
          (Maintains-step _ _ (λ s i. sh a κ s ∙ i) (Maintains-update _ (λ s i. sk a κ s ∙ i))))
      (λ e. Maintains-step _ _ (λ s i. su e κ s ∙ i) (Maintains-update _ (λ s i. sv e κ s ∙ i)))

module _ (js : Platform) (f s : DelayedRetry) (draw : ℕ) where
  nak-Acts : Acts kinds (some submitting_nak) s (handle_trigger_nak js f draw)
  unfolding handle_trigger_nak
  nak-Acts = skip-Takes kinds submitting_nak s _ _ (
      raised_then-Takes kinds submitting_nak s _ _ _ refl (λ κ s'. refl)
        (set_flag-Lowers kinds submitting_nak refl)
        (asked-Leaves _ _ _ _ _ _ _ (λ a κ s'. refl) (λ a κ s'. refl) (λ a κ s'. refl)
          (λ e κ s'. refl) (λ e κ s'. refl)))

  ack_wait-Acts : Acts kinds (some submitting_ack_wait) s (handle_trigger_ack_wait js f draw)
  unfolding handle_trigger_ack_wait
  ack_wait-Acts = skip-Takes kinds submitting_ack_wait s _ _ (
      raised_then-Takes kinds submitting_ack_wait s _ _ _ refl (λ κ s'. refl)
        (set_flag-Lowers kinds submitting_ack_wait refl)
        (asked-Leaves _ _ _ _ _ _ _ (λ a κ s'. refl) (λ a κ s'. refl) (λ a κ s'. refl)
          (λ e κ s'. refl) (λ e κ s'. refl)))

  schedule-Acts :
      (local_time : String → String)
      → Acts kinds (some scheduling) s (handle_trigger_schedule js local_time f draw)
  unfolding handle_trigger_schedule
  schedule-Acts local_time = skip-Takes kinds scheduling s _ _ (
      raised_then-Takes kinds scheduling s _ _ _ refl (λ κ s'. refl)
        (set_flag-Lowers kinds scheduling refl)
        (asked-Leaves _ _ _ _ _ _ _ (λ a κ s'. refl) (λ a κ s'. refl) (λ a κ s'. refl)
          (λ e κ s'. refl) (λ e κ s'. refl)))

module _ (js : Platform) (local_time : String → String) (to_number : String → ℕ) where
  react-Acts :
      (e : RetryEvent) (draw : ℕ) (s : DelayedRetry)
      → Acts kinds (kind e) s (react js local_time to_number e draw s)
  unfolding react
  react-Acts (show_info topic) draw s = λ κ b. Maintains-done _ tt
  react-Acts (set_nak_job_id v) draw s = λ κ b. Maintains-update _ (λ s' i. i)
  react-Acts (set_nak_delay v) draw s = λ κ b. Maintains-update _ (λ s' i. i)
  react-Acts (set_ack_wait_job_id v) draw s = λ κ b. Maintains-update _ (λ s' i. i)
  react-Acts (set_sched_job_id v) draw s = λ κ b. Maintains-update _ (λ s' i. i)
  react-Acts (set_sched_delay v) draw s = λ κ b. Maintains-update _ (λ s' i. i)
  react-Acts trigger_nak draw s = nak-Acts js s s draw
  react-Acts trigger_ack_wait draw s = ack_wait-Acts js s s draw
  react-Acts trigger_schedule draw s = schedule-Acts js s s draw local_time

module _ (props : RetryProps) (s : DelayedRetry) where
  nak_card-Guarded : Guarded (IsFree kinds s) (nak_card props s)
  unfolding Guarded nak_card is_disabled Sound Posted
  nak_card-Guarded = ground arith

  ack_wait_card-Guarded : Guarded (IsFree kinds s) (ack_wait_card props s)
  unfolding Guarded ack_wait_card is_disabled Sound Posted
  ack_wait_card-Guarded = ground arith

  schedule_card-Guarded : Guarded (IsFree kinds s) (schedule_card props s)
  unfolding Guarded schedule_card is_disabled Sound Posted
  schedule_card-Guarded = ground arith

  view-Guarded : Guarded (IsFree kinds s) (view props s)
  unfolding Guarded view heading footer is_disabled Sound Posted
  view-Guarded = search (nak_card-Guarded, ack_wait_card-Guarded, schedule_card-Guarded) depth 20

initially_off : (κ : RetryKind) (a b c : ℕ) → flag κ (initial a b c) ≡ false
initially_off submitting_nak a b c = refl
initially_off submitting_ack_wait a b c = refl
initially_off scheduling a b c = refl

abbrev pub RetryLive : Type 0
RetryLive = Live DelayedRetry RetryAsk RetryAnswer RetryEvent

-- Nothing comes without the user.
pub data Background : RetryEvent → Type 0 where

-- However the user presses what the panel offers while demonstrations are under way, and whatever the
-- replies are: of each of the three one at most is under way, and its flag is on exactly while it is.
pub Reach-one_demonstration :
    (js : Platform) (local_time : String → String) (to_number : String → ℕ) (κ : RetryKind)
    (a b c : ℕ) (d : RetryLive)
    → Reach view (react js local_time to_number) Background (initial a b c) d
    → owners (flag κ) (owns kinds κ) d.waiting ≡ one_if (flag κ d.state)
Reach-one_demonstration js local_time to_number κ a b c d r =
    owners_of_kind kinds
      (record {
        acts = react-Acts js local_time to_number;
        guarded = view-Guarded;
        idle = λ e b. elim b [ ];
      })
      κ (initially_off κ a b c) r
