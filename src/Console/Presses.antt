-- ===== src/Console/Presses.antt =====
-- What can be pressed in frontend/src/components/CoreFlow/CoreFlowProcessor.tsx while its handlers wait.
use nats_demo.Common.{ℕ, ◌≡◌, refl, false, String, [], ◌∷◌, none, arith}
use nats_demo.Html.{is_disabled}
use nats_demo.Html.Guarded.{Guarded, Guarded-each, Posted, Sound}
use nats_demo.Panel.{Live, Reach}
use nats_demo.Panel.Exclusive.{owners, one_if}
use nats_demo.Panel.Kinds.{owns, IsFree, owners_of_kind}
use nats_demo.Platform.{Platform}
use nats_demo.Api.{Fetch, Reply, FailureScenario}
use nats_demo.Console.{Console}
use nats_demo.Console.Acting.{
  ConsoleEvent, ConsoleProps, react, Background, polling, copied, initial,
}
use nats_demo.Console.Lab.{
  step_text, action_step, armed_step, single_worker, several_workers, distribution_steps,
  failure_steps, tabs, cli_check, failure_lab,
}
use nats_demo.Console.View.{
  heading, fixed_field, consumer_card, pull_loop, worker_button, worker_pool, goroutines,
  daemon_card, view,
}
use nats_demo.Console.Kinds.{ConsoleKind, toggling, scaling, setting, flag, kinds, react-Acts}

module _ (js : Platform) (props : ConsoleProps) (s : Console) where
  armed_step-Guarded :
      (sc : FailureScenario) (title body arm : String)
      → Guarded (IsFree kinds s) (armed_step sc title body arm s)
  unfolding Guarded armed_step step_text is_disabled Sound Posted
  armed_step-Guarded sc title body arm = ground arith

  single_worker-Guarded : Guarded (IsFree kinds s) (single_worker s)
  unfolding Guarded single_worker action_step step_text is_disabled Sound Posted
  single_worker-Guarded = search armed_step-Guarded depth 40

  several_workers-Guarded : Guarded (IsFree kinds s) (several_workers s)
  unfolding Guarded several_workers distribution_steps failure_steps action_step step_text
      is_disabled Sound Posted
  several_workers-Guarded = search armed_step-Guarded depth 40

  lab-Guarded : Guarded (IsFree kinds s) (failure_lab js props s)
  unfolding Guarded failure_lab tabs cli_check is_disabled Sound Posted
  lab-Guarded = ground (arith, single_worker-Guarded, several_workers-Guarded)

  consumer_card-Guarded : Guarded (IsFree kinds s) (consumer_card js props s)
  unfolding Guarded consumer_card fixed_field is_disabled Sound Posted
  consumer_card-Guarded = search depth 40

  worker_button-Guarded : (count : ℕ) → Guarded (IsFree kinds s) (worker_button props s count)
  unfolding Guarded worker_button is_disabled Sound Posted
  worker_button-Guarded count = ground arith

  daemon_card-Guarded : Guarded (IsFree kinds s) (daemon_card props s)
  unfolding Guarded daemon_card pull_loop worker_pool goroutines is_disabled Sound Posted
  daemon_card-Guarded =
      let buttons =
        Guarded-each (IsFree kinds s) (worker_button props s) (1 ∷ 2 ∷ 3 ∷ 5 ∷ [])
          worker_button-Guarded in
      ground arith

  view-Guarded : Guarded (IsFree kinds s) (view js props s)
  unfolding Guarded view heading is_disabled Sound Posted
  view-Guarded = search (consumer_card-Guarded, daemon_card-Guarded, lab-Guarded) depth 30

initially_off : (κ : ConsoleKind) → flag κ initial ≡ false
initially_off toggling = refl
initially_off scaling = refl
initially_off setting = refl

background_idle : (e : ConsoleEvent) → Background e → kinds.kind e ≡ none
background_idle e polling = refl
background_idle e copied = refl

abbrev pub ConsoleLive : Type 0
ConsoleLive = Live Console Fetch Reply ConsoleEvent

-- Whatever is pressed while switches, scalings and scenarios of the processor are being asked for, and
-- however the polls and the replies come in between: of each of the three one request at most is under
-- way, and its flag is on exactly while it is.
pub Reach-one_control :
    (js : Platform) (κ : ConsoleKind) (d : ConsoleLive)
    → Reach (view js) react Background initial d
    → owners (flag κ) (owns kinds κ) d.waiting ≡ one_if (flag κ d.state)
Reach-one_control js κ d r =
    owners_of_kind kinds
      (record { acts = react-Acts; guarded = view-Guarded js; idle = background_idle }) κ
      (initially_off κ) r
