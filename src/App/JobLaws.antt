-- ===== src/App/JobLaws.antt =====
-- What a submission and a validation leave behind on each outcome.
use nats_demo.Common.{
  ℕ, [], ◌≡◌, refl, ◌⊎◌, inl, inr, ap, Bool, true, false, String, ◌∷◌, Option, none, some,
}
use nats_demo.Task.{
  run, settle, update, catching, finally, ◌>>=◌, Result, ok, err, message_or, Ensures,
}
use nats_demo.Task.Laws.{
  Ensures-step, Ensures-await, Ensures-finally, Ensures-catching, Ensures-update, Ensures-fail,
}
use nats_demo.Api.{
  Fetch, Reply, Response, is_ok, post_jobs, Job, JobStatusResponse, ValidationResult,
}
use nats_demo.Api.Jobs.{submit_job, validate_job}
use nats_demo.App.State.{activity_refresh, status_refresh, State}
use nats_demo.App.Jobs.{
  handle_job_submit, handle_job_validate, new_activity, submitted_message, show_validation,
}

-- Other handlers leave the banners and the log alone while this one waits.
pub record KeepsBanners (s s' : State) : Type 0 where
  pub error : s'.error ≡ s.error
  pub success : s'.success ≡ s.success
  pub activities : s'.activities ≡ s.activities

-- How a submission may end, for the state `s` before it.
abbrev pub Submitted : Job → String → State → State → Result (Unit {0}) → Type 0
Submitted job local_time s s' (ok tt) =
    (s'.is_submitting ≡ false)
    × (s'.error ≡ none)
    × (s'.success ≡ some (submitted_message job))
    × ((res : JobStatusResponse) × (s'.activities ≡ new_activity job res local_time ∷ s.activities))
Submitted job local_time s s' (err e) =
    (s'.is_submitting ≡ false)
    × (s'.error ≡ some (message_or e "Job submission failed"))
    × (s'.success ≡ none)
    × (s'.activities ≡ s.activities)

-- A submission ends in one of two ways, if no other handler touches the banners or the log while it
-- waits. It succeeds: the success banner names the job, and the log has one new record in front. Or
-- it throws on to the form: the error banner says why, and the log is as it was. The button is
-- released in both.
pub handle_job_submit_lem :
    (job : Job) (local_time : String) (s : State)
    → Ensures KeepsBanners (Submitted job local_time s) (handle_job_submit job local_time) s
unfolding handle_job_submit submit_job
handle_job_submit_lem job local_time s = Ensures-step _ _ (
    Ensures-step _ _ (
      Ensures-step _ _ (
        Ensures-finally _ _ (
          Ensures-catching _ _ (
            Ensures-await _ _ _
              (λ res s1 k. Ensures-step _ _ (
                Ensures-step _ _ (
                  Ensures-update _ (
                    refl,
                    k.error,
                    refl,
                    (res, ap (λ l. new_activity job res local_time ∷ l) k.activities),
                  ))))
              (λ e s1 k.
                Ensures-step _ _ (Ensures-fail _ (refl, refl, k.success, k.activities))))))))

-- A submission that the job service accepts succeeds: the new record is the one the reply names, and
-- the log and the status are fetched again after half a second. The error banner is gone and the
-- button is released; nothing else changes.
pub handle_job_submit_accepted :
    (net : ℕ → (q : Fetch) → Reply q) (n : ℕ) (job : Job) (local_time : String) (s : State)
    (response : Response JobStatusResponse) (res : JobStatusResponse)
    → net n (post_jobs job) ≡ ok response
    → is_ok response ≡ true
    → response.json ≡ ok res
    → run net n (handle_job_submit job local_time) s ≡ (
      record s {
        is_submitting = false;
        error = none;
        success = some (submitted_message job);
        activities = new_activity job res local_time ∷ s.activities;
        timers = (500, activity_refresh true ∷ status_refresh true ∷ []) ∷ s.timers;
      },
      ok tt,
    )
unfolding handle_job_submit submit_job run ◌>>=◌ settle update catching finally
handle_job_submit_accepted net n job local_time s response res arrived good parsed =
    rw (arrived, run, ◌>>=◌, settle, catching, finally)
      (rw good (rw (parsed, run, settle, ◌>>=◌, catching, finally) refl))

-- One banner is shown and the other is not.
abbrev pub OneBanner : State → Type 0
OneBanner s =
    ((m : String) × (s.error ≡ some m) × (s.success ≡ none))
    ⊎ ((m : String) × (s.error ≡ none) × (s.success ≡ some m))

abbrev pub Validated : State → Result (Unit {0}) → Type 0
Validated s (ok tt) = (s.is_validating ≡ false) × OneBanner s
Validated s (err e) =
    (s.is_validating ≡ false)
    × (s.error ≡ some (message_or e "Validation failed"))
    × (s.success ≡ none)

module _ (res : ValidationResult) (s : State) (e : s.error ≡ none) (m : s.success ≡ none) where
  on_verdict :
      (timed_out valid : Option Bool)
      → res.timed_out ≡ timed_out
      → res.valid ≡ valid
      → OneBanner (show_validation res s)
  unfolding show_validation
  on_verdict (some true) v et ev = rw (et, show_validation) (inl (_, refl, m))
  on_verdict (some false) (some false) et ev = rw (et, ev, show_validation) (inl (_, refl, m))
  on_verdict (some false) (some true) et ev = rw (et, ev, show_validation) (inr (_, e, refl))
  on_verdict (some false) none et ev = rw (et, ev, show_validation) (inr (_, e, refl))
  on_verdict none (some false) et ev = rw (et, ev, show_validation) (inl (_, refl, m))
  on_verdict none (some true) et ev = rw (et, ev, show_validation) (inr (_, e, refl))
  on_verdict none none et ev = rw (et, ev, show_validation) (inr (_, e, refl))

-- A validation request ends with its button released and exactly one banner: of success or of an
-- error, if no other handler touches the banners while it waits. If it throws, the banner says why.
pub handle_job_validate_lem :
    (job : Job) (s : State) → Ensures KeepsBanners Validated (handle_job_validate job) s
unfolding handle_job_validate validate_job
handle_job_validate_lem job s = Ensures-step _ _ (
    Ensures-step _ _ (
      Ensures-step _ _ (
        Ensures-finally _ _ (
          Ensures-catching _ _ (
            Ensures-await _ _ _
              (λ res s1 k.
                Ensures-update _
                  (refl, on_verdict res s1 k.error k.success res.timed_out res.valid refl refl))
              (λ e s1 k. Ensures-step _ _ (Ensures-fail _ (refl, refl, k.success))))))))
