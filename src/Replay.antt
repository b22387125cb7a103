-- ===== src/Replay.antt =====
-- The replay form, frontend/src/components/ReplayPanel.tsx: its state, the checks of `handleSubmit`
-- and the request that it asks of the root component.
pub mod Laws
pub mod Acting
pub mod Fields
pub mod View
pub mod Kinds
pub mod Presses
mod Tests
use nats_demo.Common.{
  ℕ, suc, Bool, true, false, ◌||◌, not, String, Option, none, some, ltb, str_eq, if◌then◌else◌,
}
use nats_demo.Task.{Task, Result, call, settle, message_or, update, catching, finally, ◌>>=◌, ◌>>◌}
use nats_demo.Api.{
  ReplayMode, ReplaySource, sequence, time, ReplayRequest, ReplayResponse, JetStreamInfo,
}

-- A whole number of JavaScript, or NaN: `minus n` is -n - 1.
pub data Number : Type 0 where
  nan : Number
  minus plus : ℕ → Number

abbrev pub is_nan : Number → Bool
is_nan nan = true
is_nan _ = false

-- `a < b`, which NaN never is.
unfoldable pub less : Number → Number → Bool
less nan b = false
less (minus m) nan = false
less (minus m) (minus n) = ltb n m
less (minus m) (plus n) = true
less (plus m) nan = false
less (plus m) (minus n) = false
less (plus m) (plus n) = ltb m n

-- The number of a request. A number that is not natural does not pass the form's checks.
abbrev pub natural : Number → Option ℕ
natural (plus n) = some n
natural _ = none

pub record ReplayForm : Type 0 where
  pub replay_from : ReplaySource
  pub start_seq : String
  pub end_seq : String
  pub start_time : String
  pub end_time : String
  pub replay_mode : ReplayMode
  pub is_loading : Bool
  pub result : Option ReplayResponse
  pub error : Option String

-- What is asked of `onTriggerReplay`, and how it settles
abbrev pub ReplayHandler : Type 0
ReplayHandler = Task ReplayForm ReplayRequest (λ q. Result ReplayResponse) (Unit {0})

-- `jetstreamInfo?.messages ?? 0`
abbrev pub total_messages : Option JetStreamInfo → ℕ
total_messages none = 0
total_messages (some i) = elim (i.messages) [ none ↦ 0 | some n ↦ n ]

-- `firstSeq`
unfoldable pub first_seq : Option JetStreamInfo → ℕ
first_seq info =
    let assumed = if ltb 0 (total_messages info) then 1 else 0 in
    elim info [ none ↦ assumed | some i ↦ elim (i.first_seq) [ none ↦ assumed | some n ↦ n ] ]

-- `lastSeq`
unfoldable pub last_seq : Option JetStreamInfo → ℕ
last_seq info = elim info [
  | none ↦ 0
  | some i ↦ elim (i.last_seq) [ none ↦ total_messages (some i) | some n ↦ n ]
]

abbrev set_loading : Bool → ReplayForm → ReplayForm
set_loading b s = record s { is_loading = b }

-- `setError(…); setIsLoading(false); return`
abbrev refuse : String → ReplayHandler
refuse why = do update (λ s. record s { error = some why }); update (set_loading false)

unfoldable pub sequence_request : ReplayMode → Number → Number → ReplayRequest
sequence_request mode a b = record {
  start_sequence = natural a;
  end_sequence = natural b;
  from_sequence = natural a;
  to_sequence = natural b;
  start_time = none;
  end_time = none;
  from_time = none;
  to_time = none;
  replay_mode = some mode;
  replay_from = some sequence;
}

unfoldable pub time_request : ReplayMode → String → String → ReplayRequest
time_request mode a b = record {
  start_sequence = none;
  end_sequence = none;
  from_sequence = none;
  to_sequence = none;
  start_time = some a;
  end_time = some b;
  from_time = some a;
  to_time = some b;
  replay_mode = some mode;
  replay_from = some time;
}

-- The `try` of both branches
unfoldable pub trigger : ReplayRequest → ReplayHandler
trigger req =
    finally
      (catching (do res ← call req (λ r. settle r); update (λ s. record s { result = some res }))
        (λ e. update (λ s. record s { error = some (message_or e "Failed to trigger replay") })))
      (set_loading false)

-- `parseInt(s, 10)` and `new Date(s).getTime()` are given.
module _ (parse_int time_ms : String → Number) where
  unfoldable pub submit_sequence : ReplayForm → ReplayHandler
  submit_sequence f =
      let a = parse_int f.start_seq in
      let b = parse_int f.end_seq in
      if is_nan a || is_nan b
      then refuse "Sequence numbers must be valid integers"
      else if less a (plus 1)
      then refuse "Start Sequence must be greater than or equal to 1"
      else if less b a
      then refuse "End Sequence must be greater than or equal to Start Sequence"
      else trigger (sequence_request f.replay_mode a b)

  unfoldable pub submit_time : ReplayForm → ReplayHandler
  submit_time f =
      let a = time_ms f.start_time in
      let b = time_ms f.end_time in
      if str_eq f.start_time "" || str_eq f.end_time ""
      then refuse "Start Time and End Time must both be valid values"
      else if is_nan a || is_nan b
      then refuse "Start Time and End Time must be valid dates"
      else if not (less a b)
      then refuse "Start Time must be earlier than End Time"
      else trigger (time_request f.replay_mode f.start_time f.end_time)

  -- `handleSubmit`; `f` is the state of the render that made the handler.
  unfoldable pub handle_submit : ReplayForm → ReplayHandler
  handle_submit f = do
    update (set_loading true)
    update (λ s. record s { error = none })
    update (λ s. record s { result = none })
    elim (f.replay_from) [ sequence ↦ submit_sequence f | time ↦ submit_time f ]
