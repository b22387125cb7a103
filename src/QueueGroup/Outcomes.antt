-- ===== src/QueueGroup/Outcomes.antt =====
-- How the actions of frontend/src/components/QueueGroupPanel.tsx end.
use nats_demo.Common.{ℕ, ◌≡◌, refl, ap, Bool, false, ◌||◌, ◌==◌, ◌+s◌, decimal, List, ◌∷◌, some}
use nats_demo.Task.{Result, ok, err, message_or}
use nats_demo.Task.Given.{
  outcome, EnsuresGiven, Given-step, Given-update, Given-finally, Given-catching, Given-await,
}
use nats_demo.Api.{QueueGroupStatus, Fetch, Reply}
use nats_demo.Api.Queue.{update_queue_group_workers}
use nats_demo.QueueGroup.{
  QueueGroup, Signal, config_changed, alert_success, alert_error, handle_workers_change,
}

-- What other handlers do not do while this one waits.
abbrev pub KeepsGroup : QueueGroup → QueueGroup → Type 0
KeepsGroup s s' = (s'.status ≡ s.status) × (s'.workers ≡ s.workers) × (s'.signals ≡ s.signals)

-- What the panel shows of the service's answer to a change, and what it told its parent: the answer
-- in all three places, or the figures from before and why it was refused
abbrev pub Reported : Result QueueGroupStatus → QueueGroup → QueueGroup → Type 0
Reported (ok answer) s s' =
    (s'.status ≡ some answer)
    × (s'.workers ≡ answer.workers)
    × (s'.signals
        ≡ alert_success
            ("Queue group reconfigured with " +s decimal answer.workers +s " active subscriber(s)")
          ∷ config_changed answer
          ∷ s.signals)
Reported (err e) s s' =
    (s'.status ≡ s.status)
    × (s'.workers ≡ s.workers)
    × (s'.signals
        ≡ alert_error ("Failed to configure workers: " +s message_or e "Unknown error") ∷ s.signals)

-- The number is the present one, or a change is under way.
abbrev pub nothing_to_do : QueueGroup → ℕ → Bool
nothing_to_do f n = (n == f.workers) || f.is_updating_workers

one_more : {x : Signal} {l l' : List Signal} → l ≡ l' → x ∷ l ≡ x ∷ l'
one_more {x} e = ap (λ m. x ∷ m) e

-- A change to another number of workers, where none is under way, ends without an exception and with
-- the control free. If the service agreed, the panel shows its answer, of which the parent is told,
-- with an alert of success; if it refused or could not be reached, the panel shows the figures from
-- before, with an alert that says why; if no other handler touches these while it waits.
pub handle_workers_change-Reported :
    (net : (q : Fetch) → Reply q) (f s : QueueGroup) (n : ℕ)
    → nothing_to_do f n ≡ false
    → EnsuresGiven net KeepsGroup
        (λ s' out.
          (out ≡ ok tt)
          × (s'.is_updating_workers ≡ false)
          × Reported (outcome net (update_queue_group_workers n)) s s')
        (handle_workers_change f n)
        s
unfolding handle_workers_change update_queue_group_workers
handle_workers_change-Reported net f s n ready = rw ready (
    Given-step _ _ (
      Given-finally _ _ (
        Given-catching _ _ (
          Given-await _ _ _
            (λ answer given s' rel. Given-step _ _ (
              Given-step _ _ (
                Given-step _ _
                  (Given-update _ (refl, refl, rw given (refl, refl, one_more (one_more rel.2)))))))
            (λ e given s' rel.
              Given-update _ (refl, refl, rw given (rel.0, rel.1, one_more rel.2)))))))
