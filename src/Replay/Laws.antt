-- ===== src/Replay/Laws.antt =====
-- The replay form asks only for sound ranges, and its button comes back.
use nats_demo.Common.{
  ℕ, ◌≡◌, refl, ◌≤◌, ◌⊎◌, Bool, true, false, ◌||◌, not, String, some, arith, str_eq, Bool-cases,
  inl, inr, if◌then◌else◌,
}
use nats_demo.Task.{Result, ok, err, update, Ensures, Asks, ◌>>=◌, ◌>>◌, settle, catching, finally}
use nats_demo.Task.Laws.{Anything, Ensures-step, Ensures-finally, Ensures-caught, Ensures-update}
use nats_demo.Api.{sequence, time, ReplaySource, ReplayMode, ReplayRequest}
use nats_demo.Replay.{
  Number, nan, minus, plus, is_nan, less, ReplayForm, ReplayHandler, sequence_request, time_request,
  trigger, submit_sequence, submit_time, handle_submit,
}

module _ (time_ms : String → Number) where
  -- A request by sequence has bounds, from 1 on and in order; one by time has bounds that are read
  -- and of which the start is the earlier.
  abbrev pub IsSound : ReplayRequest → Type 0
  IsSound req =
      ((a : ℕ) × (b : ℕ) × (req.start_sequence ≡ some a)
        × (req.end_sequence ≡ some b)
        × (1 ≤ a)
        × (a ≤ b))
      ⊎ ((a : String) × (b : String) × (req.start_time ≡ some a)
          × (req.end_time ≡ some b)
          × (less (time_ms a) (time_ms b) ≡ true))

  trigger-Asks : (req : ReplayRequest) → IsSound req → Asks IsSound (trigger req)
  unfolding trigger Asks finally catching ◌>>=◌ settle update
  trigger-Asks req sound = (sound, elim [ ok res ↦ tt | err e ↦ tt ])

  sequence-IsSound :
      (mode : ReplayMode) (a b : Number)
      → (is_nan a || is_nan b) ≡ false
      → less a (plus 1) ≡ false
      → less b a ≡ false
      → IsSound (sequence_request mode a b)
  unfolding less sequence_request
  sequence-IsSound mode nan b h1 h2 h3 = ground arith
  sequence-IsSound mode (minus m) b h1 h2 h3 = ground arith
  sequence-IsSound mode (plus m) nan h1 h2 h3 = ground arith
  sequence-IsSound mode (plus m) (minus n) h1 h2 h3 = ground arith
  sequence-IsSound mode (plus m) (plus n) h1 h2 h3 =
      inl (m, n, refl, refl, ground arith, ground arith)

  module _ (parse_int : String → Number) where
    submit_sequence-Asks : (f : ReplayForm) → Asks IsSound (submit_sequence parse_int time_ms f)
    unfolding submit_sequence Asks ◌>>=◌ update
    submit_sequence-Asks f =
        let a = parse_int f.start_seq in
        let b = parse_int f.end_seq in
        elim (Bool-cases (is_nan a || is_nan b)) [
          | inl bad ↦ rw bad tt
          | inr read ↦ rw read (elim (Bool-cases (less a (plus 1))) [
            | inl low ↦ rw low tt
            | inr started ↦ rw started (elim (Bool-cases (less b a)) [
              | inl swapped ↦ rw swapped tt
              | inr ordered ↦
                  rw ordered
                    (trigger-Asks _ (sequence-IsSound f.replay_mode a b read started ordered))
            ])
          ])
        ]

    submit_time-Asks : (f : ReplayForm) → Asks IsSound (submit_time parse_int time_ms f)
    unfolding submit_time Asks ◌>>=◌ update time_request
    submit_time-Asks f =
        let a = time_ms f.start_time in
        let b = time_ms f.end_time in
        elim (Bool-cases (str_eq f.start_time "" || str_eq f.end_time "")) [
          | inl empty ↦ rw empty tt
          | inr given ↦ rw given (elim (Bool-cases (is_nan a || is_nan b)) [
            | inl bad ↦ rw bad tt
            | inr read ↦ rw read (elim (Bool-cases (less a b)) [
              | inl ordered ↦
                  rw ordered (trigger-Asks _ (inr (f.start_time, f.end_time, refl, refl, ordered)))
              | inr swapped ↦ rw swapped tt
            ])
          ])
        ]

    -- Whatever is typed into the form, it asks for a replay of a sound range only: by sequence from 1
    -- on and in order, or by time with the start before the end.
    pub handle_submit-IsSound : (f : ReplayForm) → Asks IsSound (handle_submit parse_int time_ms f)
    unfolding handle_submit Asks ◌>>=◌ update
    handle_submit-IsSound f = on_source f.replay_from refl
      where
        on_source :
            (src : ReplaySource)
            → f.replay_from ≡ src
            → Asks IsSound (handle_submit parse_int time_ms f)
        on_source sequence chosen = rw chosen (submit_sequence-Asks f)
        on_source time chosen = rw chosen (submit_time-Asks f)

-- The button is free again, and nothing was thrown.
abbrev pub IsReleased : ReplayForm → Result (Unit {0}) → Type 0
IsReleased s out = (out ≡ ok tt) × (s.is_loading ≡ false)

abbrev Released : ReplayHandler → ReplayForm → Type 0
Released t s = Ensures Anything IsReleased t s

trigger-Released : (req : ReplayRequest) (s : ReplayForm) → Released (trigger req) s
unfolding trigger
trigger-Released req s = Ensures-finally _ _ (Ensures-caught Anything _ _ (λ s'. (refl, refl)))

-- A check: either branch releases the button.
check-Released :
    (b : Bool) (why : String) (t : ReplayHandler) (s : ReplayForm)
    → Released t s
    → Released
        (if b
          then (update (λ s'. record s' { error = some why })
              >> update (λ s'. record s' { is_loading = false }))
          else t)
        s
check-Released true why t s h = Ensures-step _ _ (Ensures-update _ (refl, refl))
check-Released false why t s h = h

module _ (parse_int time_ms : String → Number) where
  submit_sequence-Released : (f s : ReplayForm) → Released (submit_sequence parse_int time_ms f) s
  unfolding submit_sequence
  submit_sequence-Released f s =
      let a = parse_int f.start_seq in
      let b = parse_int f.end_seq in
      check-Released (is_nan a || is_nan b) _ _ _ (
        check-Released (less a (plus 1)) _ _ _
          (check-Released (less b a) _ _ _ (trigger-Released _ _)))

  submit_time-Released : (f s : ReplayForm) → Released (submit_time parse_int time_ms f) s
  unfolding submit_time
  submit_time-Released f s =
      let a = time_ms f.start_time in
      let b = time_ms f.end_time in
      check-Released (str_eq f.start_time "" || str_eq f.end_time "") _ _ _ (
        check-Released (is_nan a || is_nan b) _ _ _
          (check-Released (not (less a b)) _ _ _ (trigger-Released _ _)))

  on_source-Released :
      (f s : ReplayForm) (src : ReplaySource)
      → Released
          (elim src [
            | sequence ↦ submit_sequence parse_int time_ms f
            | time ↦ submit_time parse_int time_ms f
          ])
          s
  on_source-Released f s sequence = submit_sequence-Released f s
  on_source-Released f s time = submit_time-Released f s

  -- Every submission ends without an exception and with the button free again: where a check refuses
  -- it, where the replay fails, and whatever other handlers do meanwhile.
  pub handle_submit-IsReleased :
      (f s : ReplayForm) → Ensures Anything IsReleased (handle_submit parse_int time_ms f) s
  unfolding handle_submit
  handle_submit-IsReleased f s =
      Ensures-step _ _ (Ensures-step _ _ (Ensures-step _ _ (on_source-Released f _ f.replay_from)))
