-- ===== src/NatsCli/Tests.antt =====
-- The theorems on the copied mark at two copies.
use nats_demo.Common.{◌≡◌, ◌<◌, refl, true, false, none}
use nats_demo.NatsCli.{
  Copying, nothing_copied, copy_to_clipboard, timer_fires, shows_copied, start, next, copy, fire,
}
use nats_demo.NatsCli.Laws.{copied_id-pending, timer_fires-early}

abbrev faded : Copying
faded = timer_fires (copy_to_clipboard "nats stream ls" "view-streams" nothing_copied)

copied_id-pending_example : faded.copied_id ≡ none
unfolding timer_fires copy_to_clipboard
copied_id-pending_example =
    copied_id-pending faded (next (next start (copy "nats stream ls" "view-streams")) fire) refl

timer_fires-early_example :
    (shows_copied
        (copy_to_clipboard "nats stream info JOBS" "view-stream-info"
          (copy_to_clipboard "nats stream ls" "view-streams" nothing_copied))
        "view-stream-info"
      ≡ true)
    × (shows_copied
          (timer_fires (
            copy_to_clipboard "nats stream info JOBS" "view-stream-info"
              (copy_to_clipboard "nats stream ls" "view-streams" nothing_copied)))
          "view-stream-info"
        ≡ false)
    × (0
        < (timer_fires (
            copy_to_clipboard "nats stream info JOBS" "view-stream-info"
              (copy_to_clipboard "nats stream ls" "view-streams" nothing_copied))).timers)
timer_fires-early_example =
    timer_fires-early "nats stream ls" "view-streams" "nats stream info JOBS" "view-stream-info"
      nothing_copied
