-- ===== src/Console/Laws.antt =====
-- What the processor console shows after a poll, and that its buttons come back.
use nats_demo.Common.{
  ℕ, ◌≡◌, refl, inl, inr, ◌<◌, true, false, ◌||◌, Option, some, arith, ◌==◌, Bool-cases,
}
use nats_demo.Task.{Result, ok, err, Ensures}
use nats_demo.Task.Given.{
  outcome, EnsuresGiven, Given-catching, Given-await, Given-step, Given-update,
}
use nats_demo.Task.Laws.{Anything, Ensures-step, Ensures-finally, Ensures-ignored, Ensures-done}
use nats_demo.Api.{ProcessorDirectStatus, ConsumerStatus, Fetch, Reply}
use nats_demo.Api.Processor.{get_processor_direct_status}
use nats_demo.Console.{
  Console, worker_count, refresh_direct_data, handle_scale_workers, handle_toggle,
}

-- What the console then shows of the processor: the whole of what `getProcessorDirectStatus` gave, or
-- what it showed before, marked as disconnected
abbrev pub Shows : Result ProcessorDirectStatus → Console → Console → Type 0
Shows (ok d) s s' =
    (s'.direct_status ≡ some d) × (s'.is_processing ≡ d.processing) × (s'.is_connected ≡ true)
Shows (err e) s s' =
    (s'.direct_status ≡ s.direct_status)
    × (s'.is_processing ≡ s.is_processing)
    × (s'.is_connected ≡ false)

-- What other handlers do not do while this one waits
abbrev pub KeepsShown : Console → Console → Type 0
KeepsShown s s' = (s'.direct_status ≡ s.direct_status) × (s'.is_processing ≡ s.is_processing)

abbrev pub IsCurrent : ((q : Fetch) → Reply q) → Console → Console → Result (Unit {0}) → Type 0
IsCurrent net s s' out = (out ≡ ok tt) × Shows (outcome net get_processor_direct_status) s s'

-- A poll ends without an exception. Where the processor's reply is an answer, the console shows that
-- answer, whole, and the processor as connected, whatever the answer says; where it is not, the
-- console shows the processor as disconnected and the rest as before, if no other handler changes what
-- is shown while this one waits.
pub refresh_direct_data-IsCurrent :
    (net : (q : Fetch) → Reply q) (s : Console)
    → EnsuresGiven net KeepsShown (IsCurrent net s) refresh_direct_data s
unfolding refresh_direct_data get_processor_direct_status
refresh_direct_data-IsCurrent net s = Given-catching _ _ (
    Given-await _ _ _
      (λ d given s1 rel.
        Given-step _ _ (Given-step _ _ (Given-update _ (refl, rw given (refl, refl, refl)))))
      (λ e given s1 rel. Given-update _ (refl, rw given (rel.0, rel.1, refl))))

-- Scaling ends without an exception and with the control free for the next change, if it was free
-- before: also where the number is the present one and nothing is asked, where the processor refuses
-- it, and whatever other handlers do meanwhile.
pub handle_scale_workers_releases :
    (consumer : Option ConsumerStatus) (f s : Console) (new_count : ℕ)
    → s.is_scaling ≡ false
    → Ensures Anything
        (λ s' out. (out ≡ ok tt) × (s'.is_scaling ≡ false))
        (handle_scale_workers consumer f new_count)
        s
unfolding handle_scale_workers
handle_scale_workers_releases consumer f s new_count free =
    elim (Bool-cases ((new_count == worker_count consumer f) || f.is_scaling)) [
      | inl idle ↦ rw idle (Ensures-done _ (refl, free))
      | inr busy ↦
          rw busy (
            Ensures-step _ _
              (Ensures-finally _ _ (Ensures-ignored Anything _ (λ s'. (refl, refl)))))
    ]

-- Switching the processor ends without an exception and with the switch free again, whatever the
-- replies are and whatever other handlers do meanwhile.
pub handle_toggle_releases :
    (f s : Console)
    → Ensures Anything (λ s' out. (out ≡ ok tt) × (s'.is_toggling ≡ false)) (handle_toggle f) s
unfolding handle_toggle
handle_toggle_releases f s =
    Ensures-step _ _ (Ensures-finally _ _ (Ensures-ignored Anything _ (λ s'. (refl, refl))))

-- The number of workers shown is never zero, whatever was reported: a zero counts as missing.
pub worker_count_positive :
    (consumer : Option ConsumerStatus) (s : Console) → 0 < worker_count consumer s
unfolding worker_count
worker_count_positive consumer s = ground arith
