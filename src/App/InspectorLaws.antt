-- ===== src/App/InspectorLaws.antt =====
-- What the inspector shows, that a late reply can replace the job that is selected, and that an
-- error cannot be closed.
use nats_demo.Common.{
  ℕ, ◌≡◌, refl, ◌⊎◌, inl, inr, ◌∙◌, ap, true, false, String, List, [], ◌∷◌, none, some, arith,
  or_text, str_eq, Bool-cases,
}
use nats_demo.Task.{
  Result, ok, err, Failure, message, Ensures, advance, resume, run, settle, update, catching,
  finally, ◌>>=◌,
}
use nats_demo.Task.Laws.{
  Ensures-step, Ensures-await, Ensures-finally, Ensures-catching, Ensures-update,
}
use nats_demo.Api.{Response, Fetch, Reply, Activity, JobDetailResponse, get_job, is_ok}
use nats_demo.Api.Jobs.{get_job_detail}
use nats_demo.App.State.{State, Handler}
use nats_demo.App.Inspector.{
  handle_select_job, load_failed, job_activities, close_inspector, inspector_open, is_set,
}

pub record KeepsInspector (s s' : State) : Type 0 where
  pub job : s'.selected_job_id ≡ s.selected_job_id
  pub detail : s'.selected_job_detail ≡ s.selected_job_detail
  pub failure : s'.inspector_error ≡ s.inspector_error

-- What the modal shows for a job: its detail, made up from its records if need be, or an error.
abbrev pub Shows : List Activity → String → State → Type 0
Shows activities job_id s =
    ((d : JobDetailResponse) × (s.selected_job_detail ≡ some d) × (s.inspector_error ≡ none))
    ⊎ ((m : String) × (s.selected_job_detail ≡ none)
        × (s.inspector_error ≡ some m)
        × (job_activities activities job_id ≡ []))

abbrev pub Selected : List Activity → String → State → Result (Unit {0}) → Type 0
Selected activities job_id s out =
    (out ≡ ok tt)
    × (s.is_loading_inspector ≡ false)
    × (s.selected_job_id ≡ some job_id)
    × Shows activities job_id s

module _ (activities : List Activity) (job_id : String) (e : Failure) (s : State) where
  load_failed-selected_job_id :
      (load_failed activities job_id e s).selected_job_id ≡ s.selected_job_id
  unfolding load_failed
  load_failed-selected_job_id = ground arith

  load_failed-Shows :
      (l : List Activity)
      → job_activities activities job_id ≡ l
      → s.selected_job_detail ≡ none
      → s.inspector_error ≡ none
      → Shows activities job_id (load_failed activities job_id e s)
  unfolding load_failed
  load_failed-Shows [] el d i = rw (el, load_failed) (inr (_, d, refl, refl))
  load_failed-Shows (latest ∷ older) el d i = rw (el, load_failed) (inl (_, refl, i))

-- Selecting a job ends without an exception and with the modal loaded for that job, if no other
-- handler touches the inspector while it waits: it shows either a detail or an error and not both,
-- and an error only where the log has no record of the job.
pub handle_select_job_lem :
    (activities : List Activity) (job_id : String) (s : State)
    → Ensures KeepsInspector (Selected activities job_id) (handle_select_job activities job_id) s
unfolding handle_select_job get_job_detail
handle_select_job_lem activities job_id s = Ensures-step _ _ (
    Ensures-step _ _ (
      Ensures-step _ _ (
        Ensures-step _ _ (
          Ensures-finally _ _ (
            Ensures-catching _ _ (
              Ensures-await _ _ _
                (λ d s1 k. Ensures-update _ (refl, refl, k.job, inl (d, refl, k.failure)))
                (λ e s1 k. Ensures-update _ (
                  refl,
                  refl,
                  load_failed-selected_job_id activities job_id e s1 ∙ k.job,
                  load_failed-Shows activities job_id e s1 (job_activities activities job_id) refl
                      k.detail k.failure,
                ))))))))

-- A message with a default is never empty.
is_set_or : (m d : String) → str_eq d "" ≡ false → is_set (some (or_text m d)) ≡ true
is_set_or m d given = elim (Bool-cases (str_eq m "")) [
  | inl empty ↦ rw empty (rw given refl)
  | inr full ↦ rw full (rw full refl)
]

-- Closing only forgets the job: after a failure that is shown as an error the modal stays open,
-- whatever the error says.
pub close_inspector_stuck :
    (activities : List Activity) (job_id : String) (net : ℕ → (q : Fetch) → Reply q) (n : ℕ)
    (s : State) (e : Failure)
    → net n (get_job job_id) ≡ err e
    → job_activities activities job_id ≡ []
    → inspector_open (close_inspector (run net n (handle_select_job activities job_id) s).0) ≡ true
unfolding handle_select_job load_failed close_inspector inspector_open get_job_detail run ◌>>=◌
    settle update catching finally
close_inspector_stuck activities job_id net n s e failed no_record =
    rw (failed, run, ◌>>=◌, settle, catching, finally)
      (rw (no_record, load_failed) (is_set_or (message e) "Failed to load job details" refl))

-- Selecting a job up to the request for its detail, and the reply to such a request.
abbrev send : List Activity → String → State → State × Handler (Unit {0})
send activities job_id s = advance (handle_select_job activities job_id) s

abbrev answer : ((q : Fetch) → Reply q) → Handler (Unit {0}) → State → State
answer net waiting s = (advance (resume net waiting) s).0

-- Two selections overlap, and the reply for the first arrives last.
abbrev pub overlapped :
    List Activity → ((q : Fetch) → Reply q) → (first second : String) → State → State
overlapped activities net first second s =
    let sent1 = send activities first s in
    let sent2 = send activities second sent1.0 in answer net sent1.1 (answer net sent2.1 sent2.0)

answered :
    (activities : List Activity) (net : (q : Fetch) → Reply q) (job_id : String) (s0 s : State)
    (r : Response JobDetailResponse) (d : JobDetailResponse)
    → net (get_job job_id) ≡ ok r
    → is_ok r ≡ true
    → r.json ≡ ok d
    → answer net (send activities job_id s0).1 s
      ≡ record s { selected_job_detail = some d; is_loading_inspector = false }
unfolding handle_select_job get_job_detail advance resume ◌>>=◌ settle update catching finally
answered activities net job_id s0 s r d arrived good parsed =
    rw (arrived, answer, advance, resume, ◌>>=◌, settle, catching, finally)
      (rw good (rw (parsed, advance, settle, ◌>>=◌, catching, finally) refl))

-- The reply to an earlier selection that arrives late replaces the later one's: the modal is open for
-- the second job and shows the detail of the first.
pub late_reply_wins :
    (activities : List Activity) (net : (q : Fetch) → Reply q) (first second : String) (s : State)
    (r1 : Response JobDetailResponse) (r2 : Response JobDetailResponse) (d1 d2 : JobDetailResponse)
    → net (get_job first) ≡ ok r1
    → net (get_job second) ≡ ok r2
    → is_ok r1 ≡ true
    → is_ok r2 ≡ true
    → r1.json ≡ ok d1
    → r2.json ≡ ok d2
    → let s' = overlapped activities net first second s in
      (s'.selected_job_id ≡ some second)
      × (s'.selected_job_detail ≡ some d1)
      × (s'.is_loading_inspector ≡ false)
unfolding handle_select_job advance update ◌>>=◌ finally catching get_job_detail
late_reply_wins activities net first second s r1 r2 d1 d2 p1 p2 k1 k2 j1 j2 =
    let sent1 = send activities first s in
    let sent2 = send activities second sent1.0 in
    let last = answered activities net first s (answer net sent2.1 sent2.0) r1 d1 p1 k1 j1 in
    let before = answered activities net second sent1.0 sent2.0 r2 d2 p2 k2 j2 in
    (
      ap State.selected_job_id last ∙ ap State.selected_job_id before,
      ap State.selected_job_detail last,
      ap State.is_loading_inspector last,
    )
