-- ===== src/QueueGroup/Presses.antt =====
-- What can be pressed in frontend/src/components/QueueGroupPanel.tsx while its handlers wait.
use nats_demo.Common.{
  ℕ, ◌≡◌, refl, true, false, String, Option, none, some, ◌==◌, arith, if◌then◌else◌,
}
use nats_demo.Task.Keeping.{Maintains-done, Maintains-update, Maintains-step, Maintains-asked}
use nats_demo.Html.{each, is_disabled}
use nats_demo.Html.Guarded.{Guarded, Posted, Sound, Guarded-each}
use nats_demo.Panel.{Live, Reach}
use nats_demo.Panel.Holding.{Leaves}
use nats_demo.Panel.Exclusive.{owners, one_if}
use nats_demo.Panel.Kinds.{Acts, owns, IsFree, owners_of_kind}
use nats_demo.Panel.Taking.{Raises, Raises-Takes, skip-Takes}
use nats_demo.Api.{Fetch, Reply}
use nats_demo.Api.Queue.{
  get_queue_group_status, update_queue_group_workers, reset_queue_group_distribution,
}
use nats_demo.Api.Jobs.{send_queue_test_messages}
use nats_demo.QueueGroup.{
  QueueGroup, fetch_status, handle_workers_change, handle_reset_distribution, handle_send_messages,
  max_workers_to_display,
}
use nats_demo.QueueGroup.Acting.{
  QueueEvent, show_info, type_count, change_workers, pick_count, reset, send, poll, react, initial,
}
use nats_demo.QueueGroup.View.{
  QueueProps, view, heading, chips, worker_button, worker_choice, count_button, count_choice,
  worker_bar, distribution, range_from,
}
use nats_demo.QueueGroup.Kinds.{QueueKind, updating, sending, resetting, flag, kind, kinds}

fetch_status-Leaves : (κ : QueueKind) → Leaves (flag κ) fetch_status
unfolding fetch_status get_queue_group_status
fetch_status-Leaves κ b =
    Maintains-asked _ _ _ _
      (λ reported.
        Maintains-step _ _ (λ s i. i)
          (Maintains-update _ (λ s i.
            elim (reported.workers == 0)
              as (λ x. flag κ (if x then s else record s { workers = reported.workers }) ≡ b) [
                | true ↦ i
                | false ↦ i
              ])))
      (λ e. Maintains-done _ tt)

workers-Raises :
    (f s : QueueGroup) (w : ℕ) → Acts kinds (some updating) s (handle_workers_change f w)
unfolding handle_workers_change update_queue_group_workers
workers-Raises f s w = skip-Takes kinds updating s _ _ (
    Raises-Takes kinds _ s _ refl (record {
      body = _;
      shape = refl;
      leaves = λ κ b.
          Maintains-asked _ _ _ _
            (λ updated.
              Maintains-step _ _ (λ s i. i)
                (Maintains-step _ _ (λ s i. i)
                  (Maintains-step _ _ (λ s i. i) (Maintains-update _ (λ s i. i)))))
            (λ e. Maintains-update _ (λ s i. i));
    }))

reset-Raises : Raises kinds resetting handle_reset_distribution
unfolding handle_reset_distribution reset_queue_group_distribution
reset-Raises = record {
  body = _;
  shape = refl;
  leaves = λ κ b.
      Maintains-asked _ _ _ _
        (λ updated.
          Maintains-step _ _ (λ s i. i)
            (Maintains-step _ _ (λ s i. i) (Maintains-update _ (λ s i. i))))
        (λ e. Maintains-update _ (λ s i. i));
}

send-Raises : (f s : QueueGroup) → Acts kinds (some sending) s (handle_send_messages f)
unfolding handle_send_messages send_queue_test_messages
send-Raises f s = skip-Takes kinds sending s _ _ (
    Raises-Takes kinds _ s _ refl (record {
      body = _;
      shape = refl;
      leaves = λ κ b.
          Maintains-asked _ _ _ _
            (λ res.
              Maintains-step _ _ (λ s i. i)
                (Maintains-step _ _ (λ s i. i)
                  (Maintains-step _ _ (λ s i. i)
                    (Maintains-step _ _ (λ s i. i) (fetch_status-Leaves κ b)))))
            (λ e. Maintains-update _ (λ s i. i));
    }))

react-Acts :
    (parse_int : String → Option ℕ) (e : QueueEvent) (draw : ℕ) (s : QueueGroup)
    → Acts kinds (kind e) s (react parse_int e draw s)
unfolding react
react-Acts parse_int (show_info topic) draw s = λ κ b. Maintains-done _ tt
react-Acts parse_int (type_count value) draw s = λ κ b. Maintains-update _ (λ s' i. i)
react-Acts parse_int (pick_count count) draw s = λ κ b. Maintains-update _ (λ s' i. i)
react-Acts parse_int (change_workers w) draw s = workers-Raises s s w
react-Acts parse_int reset draw s = Raises-Takes kinds _ s _ refl reset-Raises
react-Acts parse_int send draw s = send-Raises s s
react-Acts parse_int poll draw s = fetch_status-Leaves

module _ (percent : ℕ → ℕ → ℕ) (props : QueueProps) (s : QueueGroup) where
  worker_button-Guarded : (w : ℕ) → Guarded (IsFree kinds s) (worker_button s w)
  unfolding Guarded worker_button is_disabled Sound Posted
  worker_button-Guarded w = search depth 20

  count_button-Guarded : (count : ℕ) → Guarded (IsFree kinds s) (count_button s count)
  unfolding Guarded count_button is_disabled Sound Posted
  count_button-Guarded count = search depth 20

  worker_bar-Guarded : (i : ℕ) → Guarded (IsFree kinds s) (worker_bar percent s i)
  unfolding Guarded worker_bar is_disabled Sound Posted
  worker_bar-Guarded i = search depth 20

  worker_choice-Guarded : Guarded (IsFree kinds s) (worker_choice s)
  unfolding Guarded worker_choice is_disabled Sound Posted each
  worker_choice-Guarded = search worker_button-Guarded depth 20

  count_choice-Guarded : Guarded (IsFree kinds s) (count_choice s)
  unfolding Guarded count_choice is_disabled Sound Posted each
  count_choice-Guarded = search count_button-Guarded depth 20

  distribution-Guarded : Guarded (IsFree kinds s) (distribution percent s)
  unfolding Guarded distribution is_disabled Sound Posted
  distribution-Guarded =
      let bars =
        Guarded-each (IsFree kinds s) (worker_bar percent s)
          (range_from 0 (max_workers_to_display s)) worker_bar-Guarded in
      ground arith

  view-Guarded : Guarded (IsFree kinds s) (view percent props s)
  unfolding Guarded view heading chips is_disabled Sound Posted
  view-Guarded = search (worker_choice-Guarded, count_choice-Guarded, distribution-Guarded) depth 20

-- What comes without the user
pub data Background : QueueEvent → Type 0 where
  polling : Background poll

idle : {e : QueueEvent} → Background e → kind e ≡ none
idle polling = refl

initially_off : (κ : QueueKind) → flag κ initial ≡ false
initially_off updating = refl
initially_off sending = refl
initially_off resetting = refl

abbrev pub QueueLive : Type 0
QueueLive = Live QueueGroup Fetch Reply QueueEvent

-- However the user presses what the panel offers while handlers wait, and whatever its polls and the
-- replies are: of the handlers that change the number of workers, publish, or reset the counters, one at
-- most of each kind is in progress, and its flag is on exactly while it is.
pub Reach-one_of_each :
    (percent : ℕ → ℕ → ℕ) (parse_int : String → Option ℕ) (κ : QueueKind) (d : QueueLive)
    → Reach (view percent) (react parse_int) Background initial d
    → owners (flag κ) (owns kinds κ) d.waiting ≡ one_if (flag κ d.state)
Reach-one_of_each percent parse_int κ d r =
    owners_of_kind kinds
      (record {
        acts = react-Acts parse_int;
        guarded = λ props s. view-Guarded percent props s;
        idle = λ e b. idle b;
      })
      κ (initially_off κ) r
