-- ===== src/JobForm/Laws.antt =====
-- What the job form does with its fields: a job is submitted only with a name, and a failed one can be
-- submitted again as it was.
use nats_demo.Common.{
  ◌<◌, ℕ, ◌≡◌, refl, ◌+◌, false, String, none, some, str_eq, Bool-cases, inl, inr, ap, ◌∙◌,
}
use nats_demo.Task.{Result, ok, err, Failure, run, settle, update, catching, Asks, ◌>>=◌}
use nats_demo.Api.{Json}
use nats_demo.Platform.{Platform}
use nats_demo.Props.{Ask, Answer, submit, validate}
use nats_demo.Publisher.NextId.{numbered, exact_limit, next_id}
use nats_demo.Publisher.NextIdLaws.{IsOneLine, next_id-numbered}
use nats_demo.JobForm.{JobForm, form_error, form_job, count_up, handle_submit}

module _ (js : Platform) (parse_json : String → Result Json) where
  -- The job is named by more than blanks.
  abbrev pub IsNamed : Ask → Type 0
  IsNamed (submit job) = str_eq (js.trim job.job_id) "" ≡ false
  IsNamed (validate job) = ⊥

  -- Whatever is typed into the form, a submission asks for nothing but the submission of a job that
  -- is named by more than blanks.
  pub handle_submit-IsNamed :
      (f : JobForm) (num : ℕ) → Asks IsNamed (handle_submit js parse_json f num)
  unfolding handle_submit Asks ◌>>=◌ update settle catching form_job
  handle_submit-IsNamed f num = elim (Bool-cases (str_eq (js.trim f.job_id) "")) [
    | inl blank ↦ rw blank tt
    | inr named ↦ on_payload named (parse_json f.payload_str) refl
  ]
    where
      on_payload :
          (named : str_eq (js.trim f.job_id) "" ≡ false)
          → (r : Result Json) → parse_json f.payload_str ≡ r
          → Asks IsNamed (handle_submit js parse_json f num)
      on_payload named (ok parsed) readable =
          rw named (rw readable (named, elim [ ok _ ↦ tt | err e ↦ tt ]))
      on_payload named (err e) unreadable = rw named (rw unreadable tt)

  module _ (net : ℕ → (q : Ask) → Answer q) (f s : JobForm) (num n : ℕ) (parsed : Json)
      (named : str_eq (js.trim f.job_id) "" ≡ false)
      (readable : parse_json f.payload_str ≡ ok parsed) where
    -- After a submission that is accepted, an identifier of a one-line prefix, a dash and a number below
    -- 2^53 is counted up; the rest of the form stays for the next job, without an error.
    pub handle_submit_accepted :
        (prefix : String) (k : ℕ)
        → net n (submit (form_job f parsed)) ≡ ok tt
        → IsOneLine prefix
        → k < exact_limit
        → f.job_id ≡ numbered prefix k
        → run net n (handle_submit js parse_json f num) s
          ≡ (record s { job_id = numbered prefix (k + 1); json_error = none }, ok tt)
    unfolding handle_submit count_up run ◌>>=◌ update settle catching
    handle_submit_accepted prefix k arrived line exact numbering =
        let next : next_id js f.job_id ≡ some (numbered prefix (k + 1)) =
          ap (next_id js) numbering ∙ next_id-numbered js prefix k line exact in
        rw named (
          rw (readable, run, ◌>>=◌, settle, catching)
            (rw (arrived, run, ◌>>=◌, settle, catching) (rw (next, count_up) refl)))

    -- After a submission that is refused, the form is as it was but for the error: the identifier is
    -- not counted up.
    pub handle_submit_refused :
        (e : Failure)
        → net n (submit (form_job f parsed)) ≡ err e
        → run net n (handle_submit js parse_json f num) s
          ≡ (record s { json_error = some (form_error "Failed to submit job" e) }, ok tt)
    unfolding handle_submit run ◌>>=◌ update settle catching
    handle_submit_refused e refused = rw named (
        rw (readable, run, ◌>>=◌, settle, catching)
          (rw (refused, run, ◌>>=◌, settle, catching) refl))
