-- ===== src/NatsCli/Laws.antt =====
-- The mark of the copied snippet in frontend/src/components/CoreFlow/CoreFlowNatsCli.tsx.
use nats_demo.Common.{ℕ, zero, suc, ◌≡◌, ◌<◌, refl, String, false, true, none, arith, eq_iff}
use nats_demo.NatsCli.{
  Copying, copy_to_clipboard, timer_fires, shows_copied, CopyStep, CopyReach, copy, fire, start,
  next,
}

-- What a snippet's mark depends on
record IsPending (s : Copying) : Type 0 where
  unmarked : s.timers ≡ 0 → s.copied_id ≡ none

timer_fires-IsPending : (s : Copying) → IsPending s → IsPending (timer_fires s)
unfolding timer_fires
timer_fires-IsPending s h = fired s.timers
  where
    fired :
        (n : ℕ)
        → IsPending (elim n [ zero ↦ s | suc m ↦ record s { copied_id = none; timers = m } ])
    fired zero = h
    fired (suc n) = record { unmarked = λ none_pending. refl }

CopyStep-IsPending : {s s' : Copying} → CopyStep s s' → IsPending s → IsPending s'
unfolding copy_to_clipboard
CopyStep-IsPending (copy cmd id) h = record { unmarked = λ e. absurd (omega (arith, e)) }
CopyStep-IsPending {s} fire h = timer_fires-IsPending s h

CopyReach-IsPending : {s : Copying} → CopyReach s → IsPending s
CopyReach-IsPending start = record { unmarked = λ e. refl }
CopyReach-IsPending (next r step) = CopyStep-IsPending step (CopyReach-IsPending r)

-- In every state that copies and timers lead to in which no timer is pending, no snippet is marked as
-- copied.
pub copied_id-pending : (s : Copying) → CopyReach s → s.timers ≡ 0 → s.copied_id ≡ none
copied_id-pending s r none_pending = (CopyReach-IsPending r).unmarked none_pending

-- Where a second snippet is copied while the timer of a first one is pending, that timer takes away
-- the mark of the second, whose own timer is still to come.
pub timer_fires-early :
    (cmd id cmd' id' : String) (s : Copying)
    → (shows_copied (copy_to_clipboard cmd' id' (copy_to_clipboard cmd id s)) id' ≡ true)
      × (shows_copied (timer_fires (copy_to_clipboard cmd' id' (copy_to_clipboard cmd id s))) id'
          ≡ false)
      × (0 < (timer_fires (copy_to_clipboard cmd' id' (copy_to_clipboard cmd id s))).timers)
unfolding copy_to_clipboard timer_fires shows_copied
timer_fires-early cmd id cmd' id' s = ((eq_iff id' id').1 refl, refl, omega arith)
