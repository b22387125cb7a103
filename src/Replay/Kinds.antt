-- ===== src/Replay/Kinds.antt =====
-- The handlers of frontend/src/components/ReplayPanel.tsx: the one that asks for a replay, and the others.
use nats_demo.Common.{
  ℕ, ◌≡◌, refl, Bool, true, not, ◌||◌, String, str_eq, Option, none, some, if◌then◌else◌,
}
use nats_demo.Task.{update, ◌>>=◌}
use nats_demo.Task.Keeping.{Maintains-done, Maintains-update, Maintains-step, Maintains-asked}
use nats_demo.Panel.Holding.{Holds, Holds-finally, Holds-if}
use nats_demo.Panel.Kinds.{Kinds, Takes, Acts}
use nats_demo.Api.{ReplayRequest, sequence, time}
use nats_demo.Replay.{
  Number, is_nan, less, plus, ReplayForm, refuse, trigger, submit_sequence, submit_time,
  handle_submit,
}
use nats_demo.Replay.Acting.{
  ReplayEvent, show_info, set_start_seq, set_end_seq, set_start_time, set_end_time, set_from,
  set_mode, refresh, submit, react,
}

-- The one kind of handlers, which ask for a replay
pub data Loading : Type 0 where
  loading : Loading

abbrev pub kind : ReplayEvent → Option Loading
kind submit = some loading
kind _ = none

pub same_eq : (κ μ : Loading) → true ≡ true → κ ≡ μ
same_eq loading loading h = refl

abbrev pub is_loading : ReplayForm → Bool
is_loading s = s.is_loading

abbrev pub kinds : Kinds ReplayForm ReplayEvent
kinds = record {
  Kind = Loading;
  same = λ κ μ. true;
  flag = λ κ s. s.is_loading;
  set_flag = λ κ b s. record s { is_loading = b };
  kind = kind;
  same_eq = same_eq;
  flag-set_flag = λ κ μ b s. refl;
}

refuse-Holds : (why : String) (s : ReplayForm) → Holds is_loading (refuse why) s
unfolding Holds update ◌>>=◌
refuse-Holds why s = refl

trigger-Holds :
    (req : ReplayRequest) (s : ReplayForm) → s.is_loading ≡ true → Holds is_loading (trigger req) s
unfolding trigger
trigger-Holds req s h =
    Holds-finally is_loading _ _ s
      (λ b.
        Maintains-asked _ _ _ _ (λ res. Maintains-update _ (λ s' i. i))
          (λ e. Maintains-update _ (λ s' i. i)))
      h (λ s'. refl)

-- Three checks, and then the request
checked-Holds :
    (b c d : Bool) (x y z : String) (req : ReplayRequest) (s : ReplayForm)
    → s.is_loading ≡ true
    → Holds is_loading
        (if b then refuse x else (if c then refuse y else (if d then refuse z else trigger req)))
        s
checked-Holds b c d x y z req s h = Holds-if is_loading b _ _ s (refuse-Holds x s) (
    Holds-if is_loading c _ _ s (refuse-Holds y s)
      (Holds-if is_loading d _ _ s (refuse-Holds z s) (trigger-Holds req s h)))

module _ (parse_int time_ms : String → Number) (f s : ReplayForm) where
  sequence-Holds : s.is_loading ≡ true → Holds is_loading (submit_sequence parse_int time_ms f) s
  unfolding submit_sequence
  sequence-Holds h =
      let a = parse_int f.start_seq in
      let b = parse_int f.end_seq in
      checked-Holds (is_nan a || is_nan b) (less a (plus 1)) (less b a) _ _ _ _ s h

  time-Holds : s.is_loading ≡ true → Holds is_loading (submit_time parse_int time_ms f) s
  unfolding submit_time
  time-Holds h =
      let a = time_ms f.start_time in
      let b = time_ms f.end_time in
      checked-Holds (str_eq f.start_time "" || str_eq f.end_time "") (is_nan a || is_nan b)
        (not (less a b)) _ _ _ _ s h

submit-Takes :
    (parse_int time_ms : String → Number) (f s : ReplayForm)
    → Takes kinds loading s (handle_submit parse_int time_ms f)
unfolding handle_submit Holds update ◌>>=◌
submit-Takes parse_int time_ms f s = record {
  others = λ μ d. cc;
  holds = λ free.
      elim (f.replay_from)
        as (λ x.
          Holds is_loading
            (elim x [
              | sequence ↦ submit_sequence parse_int time_ms f
              | time ↦ submit_time parse_int time_ms f
            ])
            (record s { is_loading = true; error = none; result = none })) [
              | sequence ↦ sequence-Holds parse_int time_ms f _ refl
              | time ↦ time-Holds parse_int time_ms f _ refl
            ];
}

pub react-Acts :
    (parse_int time_ms : String → Number) (e : ReplayEvent) (draw : ℕ) (s : ReplayForm)
    → Acts kinds (kind e) s (react parse_int time_ms e draw s)
unfolding react
react-Acts parse_int time_ms (show_info topic) draw s = λ κ b. Maintains-done _ tt
react-Acts parse_int time_ms refresh draw s = λ κ b. Maintains-done _ tt
react-Acts parse_int time_ms (set_from source) draw s =
    λ κ b. Maintains-step _ _ (λ s' i. i) (Maintains-update _ (λ s' i. i))
react-Acts parse_int time_ms (set_mode mode) draw s = λ κ b. Maintains-update _ (λ s' i. i)
react-Acts parse_int time_ms (set_start_seq v) draw s = λ κ b. Maintains-update _ (λ s' i. i)
react-Acts parse_int time_ms (set_end_seq v) draw s = λ κ b. Maintains-update _ (λ s' i. i)
react-Acts parse_int time_ms (set_start_time v) draw s = λ κ b. Maintains-update _ (λ s' i. i)
react-Acts parse_int time_ms (set_end_time v) draw s = λ κ b. Maintains-update _ (λ s' i. i)
react-Acts parse_int time_ms submit draw s = submit-Takes parse_int time_ms s s
