-- ===== src/Publisher/SendLaws.antt =====
-- What a single and a batch publication leave behind in the form and in its history.
use nats_demo.Common.{
  ◌<◌, ℕ, zero, suc, ◌≡◌, refl, sym, ap, ◌∙◌, ◌+◌, ◌≤◌, ◌++◌, false, String, List, [], ◌∷◌, none,
  some, arith, length, length-take, take, str_eq,
}
use nats_demo.Task.{
  Result, ok, err, Failure, message_or, run, settle, update, catching, finally, ◌>>=◌,
}
use nats_demo.Api.{Json}
use nats_demo.Platform.{Platform}
use nats_demo.Props.{Ask, Answer, submit}
use nats_demo.Publisher.NextId.{match_suffix, numbered, exact_limit}
use nats_demo.Publisher.NextIdLaws.{IsOneLine, match_suffix-numbered, successor_text-exact}
use nats_demo.Publisher.Form.{PublishedReceipt, Form, FormHandler, push_receipt, set_json_error}
use nats_demo.Publisher.Send.{
  send_error, send_job, send_receipt, renumber, handle_send, batch_job, batch_receipt, batch_from,
  handle_batch_publish,
}

take-take :
    (m n : ℕ) (xs ys : List PublishedReceipt) → m ≤ n → take m (xs ++ take n ys) ≡ take m (xs ++ ys)
take-take zero n xs ys h = refl
take-take (suc m) zero xs ys h = elim h [ ]
take-take (suc m) (suc n) [] [] h = refl
take-take (suc m) (suc n) [] (y ∷ ys) h = ap (λ l. y ∷ l) (take-take m n [] ys (omega arith))
take-take (suc m) n (x ∷ xs) ys h = ap (λ l. x ∷ l) (take-take m n xs ys (omega arith))

take_all : (n : ℕ) (xs : List PublishedReceipt) → length xs ≤ n → take n xs ≡ xs
take_all zero [] h = refl
take_all zero (x ∷ xs) h = elim h [ ]
take_all (suc n) [] h = refl
take_all (suc n) (x ∷ xs) h = ap (λ l. x ∷ l) (take_all n xs (omega arith))

append_assoc : (xs ys zs : List PublishedReceipt) → (xs ++ ys) ++ zs ≡ xs ++ (ys ++ zs)
append_assoc [] ys zs = refl
append_assoc (x ∷ xs) ys zs = ap (λ l. x ∷ l) (append_assoc xs ys zs)

module _ (js : Platform) (parse_json : String → Result Json) (net : ℕ → (q : Ask) → Answer q)
    (f : Form) where
  renumber-counted :
      (num k : ℕ) (prefix : String) (s : Form)
      → IsOneLine prefix
      → k < exact_limit
      → f.job_id ≡ numbered prefix k
      → ((renumber js parse_json f num s).job_id ≡ numbered prefix (k + 1))
        × ((renumber js parse_json f num s).json_error ≡ s.json_error)
        × ((renumber js parse_json f num s).published_history ≡ s.published_history)
  unfolding renumber
  renumber-counted num k prefix s line exact numbering =
      let found = ap match_suffix numbering ∙ match_suffix-numbered prefix k line in
      rw (found, renumber) (rw (successor_text-exact js k exact) (refl, refl, refl))

  -- A send that is accepted puts the job's receipt at the head of the history, of which it keeps the
  -- seven newest, and counts the identifier up, if it is a one-line prefix, a dash and a number below 2^53.
  pub handle_send_accepted :
      (num n k : ℕ) (time prefix : String) (parsed : Json)
      → str_eq (js.trim f.job_id) "" ≡ false
      → parse_json f.payload_str ≡ ok parsed
      → net n (submit (send_job js parse_json f parsed)) ≡ ok tt
      → IsOneLine prefix
      → k < exact_limit
      → f.job_id ≡ numbered prefix k
      → let after = run net n (handle_send js parse_json f num time) f in
        (after.0.job_id ≡ numbered prefix (k + 1))
        × (after.1 ≡ ok tt)
        × (after.0.json_error ≡ none)
        × (after.0.published_history
            ≡ send_receipt js parse_json (send_job js parse_json f parsed) time
              ∷ take 7 f.published_history)
  unfolding handle_send run update ◌>>=◌ settle catching push_receipt renumber
  handle_send_accepted num n k time prefix parsed given readable arrived line exact numbering =
      rw given (
        rw (readable, run, ◌>>=◌, settle, catching)
          (rw (arrived, run, ◌>>=◌, settle, catching)
            (let counted =
                renumber-counted num k prefix
                  (push_receipt (send_receipt js parse_json (send_job js parse_json f parsed) time)
                    (set_json_error none f))
                  line exact numbering in
              (counted.0, refl, counted.1, counted.2))))

  -- A send that is refused leaves the form as it was, to be sent again, but for the error. The error
  -- shown is `send_error` of the failure, although the payload was readable: a SyntaxError, as from a
  -- reply that is not JSON, is shown as one of the payload.
  pub handle_send_refused :
      (num n : ℕ) (time : String) (parsed : Json) (e : Failure) (s : Form)
      → str_eq (js.trim f.job_id) "" ≡ false
      → parse_json f.payload_str ≡ ok parsed
      → net n (submit (send_job js parse_json f parsed)) ≡ err e
      → run net n (handle_send js parse_json f num time) s
        ≡ (record s { json_error = some (send_error e) }, ok tt)
  unfolding handle_send run update ◌>>=◌ settle catching
  handle_send_refused num n time parsed e s given readable refused = rw given (
      rw (readable, run, ◌>>=◌, settle, catching) (rw (refused, run, ◌>>=◌, settle, catching) refl))

  module _ (base : ℕ) (times : ℕ → String) (parsed : Json) where
    abbrev pub receipt : ℕ → PublishedReceipt
    receipt i = batch_receipt js parse_json (batch_job js parse_json f parsed base i) (times i)

    -- How many jobs, from the i-th on and of `k` in all, are accepted before the first refusal.
    unfoldable pub accepted : ℕ → ℕ → ℕ → ℕ
    accepted n zero i = 0
    accepted n (suc k) i = elim (net n (submit (batch_job js parse_json f parsed base i))) [
      | ok _ ↦ suc (accepted (suc n) k (suc i))
      | err _ ↦ 0
    ]

    -- The receipts of `k` jobs from the i-th on, the last one first.
    unfoldable pub newest_first : ℕ → ℕ → List PublishedReceipt
    newest_first zero i = []
    newest_first (suc k) i = newest_first k (suc i) ++ (receipt i ∷ [])

    -- Pushing the first receipt and then the others is pushing all of them.
    push-newest :
        (k i : ℕ) (old : List PublishedReceipt)
        → take 8 (newest_first k (suc i) ++ (receipt i ∷ take 7 old))
          ≡ take 8 (newest_first (suc k) i ++ old)
    unfolding newest_first
    push-newest k i old =
        take-take 8 8 (newest_first k (suc i)) (receipt i ∷ old) (omega arith)
        ∙ ap (take 8) (sym (append_assoc (newest_first k (suc i)) (receipt i ∷ []) old))

    -- The loop, with what a batch does around it.
    abbrev guarded : ℕ → ℕ → FormHandler
    guarded k i =
        finally
          (catching (batch_from js parse_json f parsed base times k i)
            (λ e. update (set_json_error (some (message_or e "Batch publish failed")))))
          (λ s. record s { is_batch_publishing = false })

    abbrev pub Batched : (n k i : ℕ) → List PublishedReceipt → Form × Result (Unit {0}) → Type 0
    Batched n k i old out =
        (out.1 ≡ ok tt)
        × (out.0.is_batch_publishing ≡ false)
        × (out.0.published_history ≡ take 8 (newest_first (accepted n k i) i ++ old))

    guarded-Batched :
        (n k i : ℕ) (s : Form)
        → length s.published_history ≤ 8
        → Batched n k i s.published_history (run net n (guarded k i) s)
    unfolding batch_from run update ◌>>=◌ settle catching finally push_receipt accepted newest_first
    guarded-Batched n zero i s short = (refl, refl, sym (take_all 8 s.published_history short))
    guarded-Batched n (suc k) i s short =
        on_reply
          (guarded-Batched (suc n) k (suc i) (push_receipt (receipt i) s)
            (omega (arith, length-take 7 s.published_history)))
          (net n (submit (batch_job js parse_json f parsed base i))) refl
      where
        on_reply :
            (later : Batched
              (suc n)
              k
              (suc i)
              (receipt i ∷ take 7 s.published_history)
              (run net (suc n) (guarded k (suc i)) (push_receipt (receipt i) s)))
            (r : Result (Unit {0}))
            → net n (submit (batch_job js parse_json f parsed base i)) ≡ r
            → Batched n (suc k) i s.published_history (run net n (guarded (suc k) i) s)
        on_reply later (ok tt) arrived =
            rw (arrived, run, ◌>>=◌, settle, catching, finally, accepted)
              (
                later.0,
                later.1,
                later.2 ∙ push-newest (accepted (suc n) k (suc i)) i s.published_history,
              )
        on_reply later (err e) refused =
            rw (refused, run, ◌>>=◌, settle, catching, finally, accepted)
              (refl, refl, sym (take_all 8 s.published_history short))

  -- A batch whose payload is readable ends with its button released, whatever the replies are. It
  -- stops at the first refusal, and the history has the receipts of the jobs that were accepted, the
  -- last one first, before what it held, and eight in all at most.
  pub handle_batch_publish-Batched :
      (base : ℕ) (times : ℕ → String) (parsed : Json) (n count : ℕ) (s : Form)
      → parse_json f.payload_str ≡ ok parsed
      → length s.published_history ≤ 8
      → Batched base times parsed n count 1 s.published_history
          (run net n (handle_batch_publish js parse_json f count base times) s)
  unfolding handle_batch_publish run update ◌>>=◌ settle
  handle_batch_publish-Batched base times parsed n count s readable short =
      rw (readable, ◌>>=◌, settle) (guarded-Batched base times parsed n count 1 _ short)
