-- ===== src/DeadLetters/Poll.antt =====
-- What a poll of frontend/src/components/DLQPanel.tsx shows.
use nats_demo.Common.{
  Bool-cases, inl, inr, if◌then◌else◌, ℕ, suc, ◌≡◌, refl, true, false, String, List, Option, none,
  some,
}
use nats_demo.Task.{finally, Result, ok, err, settle, run, catching, ◌>>=◌, ◌>>◌, done, update}
use nats_demo.Task.Together.{Together, two, TogetherReply, alone, both, all}
use nats_demo.Api.{
  DlqStatus, DlqMessage, Fetch, Reply, Response, is_ok, outcome, detailed_error, get_dlq_status,
  get_dlq_messages,
}
use nats_demo.Api.Queue.{fetch_dlq_status, fetch_dlq_messages}
use nats_demo.DeadLetters.{DlqPanel, fetch_dlq_data}

-- The body of a reply that came, with a success as its status, and could be read
abbrev pub accepted : {A : Type 0} → Result (Response A) → Option A
accepted (err e) = none
accepted (ok response) =
    if is_ok response then elim (response.json) [ ok a ↦ some a | err e ↦ none ] else none

-- Both parts of a poll, or what was shown before
abbrev pub shown : Option DlqStatus → Option (List DlqMessage) → DlqPanel → DlqPanel
shown (some status) (some messages) s = record s {
  dlq_status = some status;
  dlq_messages = messages;
}
shown (some status) none s = s
shown none messages s = s

abbrev value : {A : Type 0} → Result A → Option A
value (ok a) = some a
value (err e) = none

-- What the functions of the client make of a reply
abbrev checked : {A : Type 0} → String → Response A → Result A
checked message response =
    if is_ok response then response.json else err (detailed_error message response)

value-checked :
    {A : Type 0} (message : String) (r : Result (Response A))
    → value (outcome (checked message) r) ≡ accepted r
value-checked message (err e) = refl
value-checked {A} message (ok response) = elim (Bool-cases (is_ok response)) [
  | inl good ↦ rw good (read response.json)
  | inr bad ↦ rw bad refl
]
  where
    read : (x : Result A) → value x ≡ elim x [ ok a ↦ some a | err e ↦ none ]
    read (ok a) = refl
    read (err e) = refl

after_poll :
    (net : ℕ → (q : Together Fetch) → TogetherReply Reply q) (n : ℕ) (s : DlqPanel)
    (x : Result DlqStatus) (y : Result (List DlqMessage))
    → run net n
        (finally
          (catching
            (both {R = Reply} (settle x) (settle y) >>= λ loaded.
              update (λ s'. record s' { dlq_status = some loaded.0 })
              >> update (λ s'. record s' { dlq_messages = loaded.1 }))
            (λ e. done tt))
          (λ s'. record s' { is_loading_dlq = false }))
        (record s { is_loading_dlq = true })
      ≡ (record (shown (value x) (value y) s) { is_loading_dlq = false }, ok tt)
unfolding run ◌>>=◌ settle update catching finally alone
after_poll net n s (ok a) (ok b) = refl
after_poll net n s (ok a) (err e) = refl
after_poll net n s (err e) (ok b) = refl
after_poll net n s (err e) (err e') = refl

-- A poll never throws and leaves its flag off. It shows the queue's status and the messages in it
-- together if both replies are good; if either is not, both stay as they were.
pub fetch_dlq_data-shown :
    (net : ℕ → (q : Together Fetch) → TogetherReply Reply q) (n : ℕ) (s : DlqPanel)
    → run net n fetch_dlq_data s ≡ (
      record (shown
          (accepted (net n (two get_dlq_status get_dlq_messages)).0)
          (accepted (net n (two get_dlq_status get_dlq_messages)).1)
          s) { is_loading_dlq = false },
      ok tt,
    )
unfolding fetch_dlq_data fetch_dlq_status fetch_dlq_messages run ◌>>=◌ settle update catching
    finally alone all
fetch_dlq_data-shown net n s =
    rw
      (
        ← value-checked "Failed to fetch DLQ status"
            (net n (two get_dlq_status get_dlq_messages)).0,
        ← value-checked "Failed to fetch DLQ messages"
            (net n (two get_dlq_status get_dlq_messages)).1,
      )
      (after_poll net (suc n) s _ _)
