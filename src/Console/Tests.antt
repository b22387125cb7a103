-- ===== src/Console/Tests.antt =====
-- The console's theorems at its first state.
use nats_demo.Common.{◌≡◌, refl, false, [], none, inl}
use nats_demo.Html.{is_disabled, Fires}
use nats_demo.Html.Offering.{Way, Way-Offers, inside, first, rest, use_it}
use nats_demo.Panel.{start, mount, later, press}
use nats_demo.Panel.Exclusive.{owners, one_if}
use nats_demo.Panel.Kinds.{owns}
use nats_demo.Platform.Plain.{plain}
use nats_demo.Console.Acting.{ConsoleProps, toggle_off, react}
use nats_demo.Console.View.{view, daemon_card, pull_loop}
use nats_demo.Console.Kinds.{toggling, flag, kinds}
use nats_demo.Console.Presses.{ConsoleLive, Reach-one_control}
use nats_demo.Task.{error, err}
use nats_demo.Task.Given.{EnsuresGiven}
use nats_demo.Api.{Fetch, Reply}
use nats_demo.Console.{refresh_direct_data}
use nats_demo.Console.Acting.{initial}
use nats_demo.Console.Laws.{KeepsShown, IsCurrent, refresh_direct_data-IsCurrent}

-- The processor cannot be reached.
abbrev down : (q : Fetch) → Reply q
down q = err (error "Failed to fetch")

refresh_direct_data-IsCurrent_example :
    EnsuresGiven down KeepsShown (IsCurrent down initial) refresh_direct_data initial
refresh_direct_data-IsCurrent_example = refresh_direct_data-IsCurrent down initial

abbrev bare : ConsoleProps
bare = record { informs = false; consumer = none; jetstream_stream = none }

-- The processor is switched off, and the reply is still to come.
abbrev pressed : ConsoleLive
pressed = start toggle_off (react toggle_off 0 initial) (record { state = initial; waiting = [] })

off_offered : Way toggle_off (view plain bare initial)
unfolding view daemon_card pull_loop is_disabled Fires
off_offered = inside (
    rest (
      first (
        inside (
          rest (
            first (
              inside (
                rest (
                  inside (
                    first (
                      inside
                        (rest (inside (rest (inside (rest (use_it refl (inl refl)))))))))))))))))

Reach-one_control_example :
    owners (flag toggling) (owns kinds toggling) pressed.waiting
    ≡ one_if (flag toggling pressed.state)
Reach-one_control_example =
    Reach-one_control plain toggling pressed
      (later mount (press bare toggle_off 0 (Way-Offers off_offered)))
