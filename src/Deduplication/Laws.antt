-- ===== src/Deduplication/Laws.antt =====
-- What the two buttons of frontend/src/components/DeduplicationPanel.tsx publish and show.
use nats_demo.Common.{◌≡◌, refl, Bool, false, str_eq, none, some, inl, inr, Bool-cases}
use nats_demo.Task.{Result, ok, err, message_or, Asks, call, update, settle, catching, ◌>>=◌}
use nats_demo.Task.Given.{
  outcome, EnsuresGiven, Given-step, Given-update, Given-catching, Given-await,
}
use nats_demo.Platform.{Platform}
use nats_demo.Props.{Ask, Answer, submit, validate}
use nats_demo.Deduplication.{Deduplication, dedup_job, published_message, handle_publish}

-- What other handlers do not do while this one waits.
abbrev pub KeepsMessages : Deduplication → Deduplication → Type 0
KeepsMessages s s' = (s'.status_message ≡ s.status_message) × (s'.error_message ≡ s.error_message)

module _ (js : Platform) where
  -- A job with the trimmed, non-empty identifier of the form
  abbrev pub IsCopy : Deduplication → Ask → Type 0
  IsCopy f (submit job) = (job.job_id ≡ js.trim f.msg_id) × (str_eq (js.trim f.msg_id) "" ≡ false)
  IsCopy f (validate job) = ⊥

  -- Either button asks for one job at most, a submission with the trimmed identifier of the form, and
  -- for none where that is empty: the duplicate has the identifier of the first message.
  pub handle_publish-IsCopy :
      (f : Deduplication) (is_duplicate_attempt : Bool)
      → Asks (IsCopy f) (handle_publish js f is_duplicate_attempt)
  unfolding handle_publish dedup_job Asks ◌>>=◌ update settle catching
  handle_publish-IsCopy f dup = elim (Bool-cases (str_eq (js.trim f.msg_id) "")) [
    | inl empty ↦ rw empty tt
    | inr filled ↦ rw filled ((refl, filled), elim [ ok a ↦ tt | err e ↦ tt ])
  ]

  -- The status and the error that are shown of the reply
  abbrev pub Verdict : Deduplication → Bool → Result (Unit {0}) → Deduplication → Type 0
  Verdict f dup (ok a) s =
      (s.status_message ≡ some (published_message js f dup)) × (s.error_message ≡ none)
  Verdict f dup (err e) s =
      (s.status_message ≡ none) × (s.error_message ≡ some (message_or e "Publish failed"))

  abbrev pub Shows :
      ((q : Ask) → Answer q) → Deduplication → Bool → Deduplication → Result (Unit {0}) → Type 0
  Shows net f dup s out =
      (out ≡ ok tt)
      × Verdict f dup (outcome net (call (submit (dedup_job js f dup)) (λ r. settle r))) s

  -- Publishing under an identifier that is not blank ends without an exception. It shows the message for
  -- the button that was pressed and no error where the job was accepted, and why it was not, and no
  -- message, where it was refused; if no other handler touches the two texts while it waits.
  pub handle_publish-Shows :
      (net : (q : Ask) → Answer q) (f s : Deduplication) (dup : Bool)
      → str_eq (js.trim f.msg_id) "" ≡ false
      → EnsuresGiven net KeepsMessages (Shows net f dup) (handle_publish js f dup) s
  unfolding handle_publish
  handle_publish-Shows net f s dup filled = rw filled (
      Given-step _ _ (
        Given-step _ _ (
          Given-catching _ _ (
            Given-await _ _ _ (λ a given s' rel. Given-update _ (refl, rw given (refl, rel.1)))
              (λ e given s' rel. Given-update _ (refl, rw given (rel.0, refl)))))))
