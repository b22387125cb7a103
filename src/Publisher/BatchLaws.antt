-- ===== src/Publisher/BatchLaws.antt =====
-- What a batch of frontend/src/components/CoreFlow/CoreFlowPublisher.tsx asks for.
use nats_demo.Common.{ℕ, zero, suc, ◌+◌, ◌≤◌, ◌<◌, ◌≡◌, ◌≢◌, refl, String, arith, decimal}
use text.Mathlib.TextLemmas.{append_cancel_left}
use nats_demo.Task.{Result, ok, err, Asks, update, settle, ◌>>=◌}
use nats_demo.Task.Asking.{Asks-catching, Asks-finally}
use nats_demo.Platform.{Platform}
use nats_demo.Api.{Json}
use nats_demo.Props.{Ask, Answer, submit, validate}
use nats_demo.Publisher.Form.{Form}
use nats_demo.Publisher.NextIdLaws.{digits-decimal}
use nats_demo.Publisher.Send.{batch_job, batch_from, handle_batch_publish}

decimal-distinct : (m n : ℕ) → decimal m ≡ decimal n → m ≡ n
decimal-distinct m n e = cc (digits-decimal m, digits-decimal n, e)

module _ (js : Platform) (parse_json : String → Result Json) (f : Form) (base : ℕ)
    (times : ℕ → String) where
  -- A job of the batch, by its number
  abbrev pub IsNumbered : ℕ → Ask → Type 0
  IsNumbered count (validate job) = ⊥
  IsNumbered count (submit job) =
      (parsed : Json) × (i : ℕ) × (parse_json f.payload_str ≡ ok parsed)
      × (0 < i)
      × (i ≤ count)
      × (job ≡ batch_job js parse_json f parsed base i)

  batch_from-IsNumbered :
      (parsed : Json) (count k i : ℕ)
      → parse_json f.payload_str ≡ ok parsed
      → 0 < i
      → k + i ≤ suc count
      → Asks (IsNumbered count) (batch_from js parse_json f parsed base times k i)
  unfolding batch_from Asks ◌>>=◌ update settle
  batch_from-IsNumbered parsed count zero i readable lower upper = tt
  batch_from-IsNumbered parsed count (suc k) i readable lower upper = (
    (parsed, i, readable, lower, omega arith, refl),
    elim [
      | ok a ↦ batch_from-IsNumbered parsed count k (suc i) readable (omega arith) (omega arith)
      | err e ↦ tt
    ],
  )

  same_number :
      (parsed : Json) (i j : ℕ)
      → (batch_job js parse_json f parsed base i).job_id
        ≡ (batch_job js parse_json f parsed base j).job_id
      → i ≡ j
  unfolding batch_job
  same_number parsed i j e = decimal-distinct i j (
      append_cancel_left "-" _ _
        (append_cancel_left (decimal base) _ _ (append_cancel_left "job-" _ _ e)))

  asked :
      (count : ℕ) → Asks (IsNumbered count) (handle_batch_publish js parse_json f count base times)
  unfolding handle_batch_publish Asks ◌>>=◌ update settle
  asked count =
      Asks-finally _ _ _ (Asks-catching _ _ _ (read (parse_json f.payload_str) refl) (λ e. tt))
    where
      read :
          (r : Result Json)
          → parse_json f.payload_str ≡ r
          → Asks (IsNumbered count) (
              settle {R = Answer} r >>= λ parsed.
              batch_from js parse_json f parsed base times count 1)
      read (ok parsed) readable =
          batch_from-IsNumbered parsed count count 1 readable (omega arith) (omega arith)
      read (err e) unreadable = tt

  -- A batch asks for nothing but submissions of its own jobs, numbered from 1 to the count that was
  -- asked for, and for none where the payload cannot be read; two of its jobs that have different
  -- numbers have different identifiers.
  pub handle_batch_publish-IsNumbered :
      (count i j : ℕ) (parsed : Json)
      → i ≢ j
      → Asks (IsNumbered count) (handle_batch_publish js parse_json f count base times)
        × ((batch_job js parse_json f parsed base i).job_id
            ≢ (batch_job js parse_json f parsed base j).job_id)
  handle_batch_publish-IsNumbered count i j parsed differ =
      (asked count, λ e. differ (same_number parsed i j e))
