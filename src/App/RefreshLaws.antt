-- ===== src/App/RefreshLaws.antt =====
-- What polling does to the banners, the flags and the status bar.
use nats_demo.Common.{◌≡◌, refl, ◌∙◌, true, false, String, Option, none, some}
use nats_demo.Task.{Result, ok, err, Failure, settle, call, Ensures, ◌>>=◌, ◌>>◌}
use nats_demo.Task.Laws.{
  Anything, Ensures-caught, Ensures-mono, Ensures-done, Caught, Ensures-step, Ensures-await,
  Ensures-bind, Ensures-update, Ensures-finally, Ensures-catching,
}
use nats_demo.Api.{Fetch, Reply}
use nats_demo.Api.Queue.{fetch_dlq_status, get_queue_group_status}
use nats_demo.Api.Status.Laws.{get_service_status_rule}
use nats_demo.Api.Control.{get_consumer_status, get_activity, get_addressing_activity}
use nats_demo.App.State.{State, Handler}
use nats_demo.App.Refresh.{
  refresh_status, quietly, refresh_activity, refresh_addressing, load_status, load_optional,
}

-- Other handlers may run while one waits, but none of them touches the error banner.
abbrev pub KeepsError : State → State → Type 0
KeepsError s s' = s'.error ≡ s.error

abbrev pub NoError : State → Result (Unit {0}) → Type 0
NoError s out = (out ≡ ok tt) × (s.error ≡ none)

-- An optional request of `refreshStatus`: what follows it runs after the reply is stored, or after
-- a failure that changes nothing.
module _ {A : Type 0} {Rely : State → State → Type 0} {P : State → Result (Unit {0}) → Type 0}
    {s : State} where
  Ensures-quietly :
      (q : Fetch) (f : Reply q → Result A) (keep : A → State → State)
      (rest : Unit {0} → Handler (Unit {0}))
      → ((a : A) (s' : State) → Rely s s' → Ensures Rely P (rest tt) (keep a s'))
      → ((s' : State) → Rely s s' → Ensures Rely P (rest tt) s')
      → Ensures Rely P (quietly (call q (λ r. settle (f r))) keep >>= rest) s
  Ensures-quietly q f keep rest good bad = Ensures-bind _ _ (
      Ensures-catching _ _ (
        Ensures-await q f _ (λ a s' rel. Ensures-update _ (good a s' rel))
          (λ e s' rel. Ensures-done _ (bad s' rel))))

  Ensures-quietly_last :
      (q : Fetch) (f : Reply q → Result A) (keep : A → State → State)
      → ((a : A) (s' : State) → Rely s s' → P (keep a s') (ok tt))
      → ((s' : State) → Rely s s' → P s' (ok tt))
      → Ensures Rely P (quietly (call q (λ r. settle (f r))) keep) s
  Ensures-quietly_last q f keep good bad = Ensures-catching _ _ (
      Ensures-await q f _ (λ a s' rel. Ensures-update _ (good a s' rel))
        (λ e s' rel. Ensures-done _ (bad s' rel)))

refresh_addressing_quiet :
    (s : State) → s.error ≡ none → Ensures KeepsError NoError (refresh_addressing true) s
unfolding refresh_addressing get_addressing_activity
refresh_addressing_quiet s h = Ensures-step _ _ (
    Ensures-finally _ _ (
      Ensures-catching _ _ (
        Ensures-await _ _ _ (λ l s' e. Ensures-update _ (refl, e ∙ h))
          (λ failure s' e. Ensures-update _ (refl, e ∙ h)))))

abbrev pub Keeps : Option String → State → Result (Unit {0}) → Type 0
Keeps banner s out = (out ≡ ok tt) × (s.error ≡ banner)

-- A result without an exception passes a `catch` by.
Caught-ok :
    (banner : Option String) (c : Failure → Handler (Unit {0})) (s : State)
    (out : Result (Unit {0}))
    → Keeps banner s out
    → Caught KeepsError (Keeps banner) c s out
Caught-ok banner c s (ok tt) h = h
Caught-ok banner c s (err e) h = cc h.0

-- A silent refresh of the activity log, as the poll makes one every 2.5 seconds, ends without an
-- exception and with no error banner, whatever banner stood before and whatever its requests do,
-- if no other handler touches the banner meanwhile.
pub refresh_activity_clears_error :
    (s : State) → Ensures KeepsError NoError (refresh_activity true) s
unfolding refresh_activity get_activity
refresh_activity_clears_error s = Ensures-step _ _ (
    Ensures-step _ _ (
      Ensures-finally _ _ (
        Ensures-catching _ _ (
          Ensures-await _ _ _
            (λ l s' e.
              Ensures-step _ _
                (Ensures-mono KeepsError (Caught-ok none _) (refresh_addressing_quiet _ e)))
            (λ failure s' e. Ensures-update _ (refl, e))))))

load_optional-Keeps :
    (banner : Option String) (s : State)
    → s.error ≡ banner
    → Ensures KeepsError (Keeps banner) load_optional s
unfolding load_optional get_consumer_status fetch_dlq_status get_queue_group_status
load_optional-Keeps banner s h =
    Ensures-quietly _ _ _ _ (λ c s1 e. after_consumer _ (e ∙ h)) (λ s1 e. after_consumer _ (e ∙ h))
  where
    after_dlq :
        (s2 : State)
        → s2.error ≡ banner
        → Ensures KeepsError
            (Keeps banner)
            (quietly get_queue_group_status (λ q s'. record s' { queue_group_status = some q }))
            s2
    after_dlq s2 h2 = Ensures-quietly_last _ _ _ (λ q s3 e. (refl, e ∙ h2)) (λ s3 e. (refl, e ∙ h2))

    after_consumer :
        (s1 : State)
        → s1.error ≡ banner
        → Ensures KeepsError
            (Keeps banner)
            (quietly fetch_dlq_status (λ d s'. record s' { dlq_status = some d })
              >> quietly get_queue_group_status (λ q s'. record s' { queue_group_status = some q }))
            s1
    after_consumer s1 h1 =
        Ensures-quietly _ _ _ _ (λ d s2 e. after_dlq _ (e ∙ h1)) (λ s2 e. after_dlq _ (e ∙ h1))

-- A silent refresh of the status ends without an exception and leaves the error banner as it is,
-- if no other handler touches the banner meanwhile.
pub refresh_status-KeepsError :
    (s : State) → Ensures KeepsError (Keeps s.error) (refresh_status true) s
unfolding refresh_status load_status
refresh_status-KeepsError s = Ensures-step _ _ (
    Ensures-step _ _ (
      Ensures-finally _ _ (
        Ensures-catching _ _ (
          Ensures-bind _ _ (
            get_service_status_rule (λ a b c p q. q ∙ p) _
              (elim [
                | ok res ↦ λ s1 e. Ensures-step _ _ (
                    Ensures-mono KeepsError (Caught-ok s.error _) (load_optional-Keeps s.error _ e))
                | err failure ↦ λ s1 e. Ensures-update _ (refl, e)
              ]))))))

-- A refresh that the user asked for ends without an exception and with its button released,
-- whatever the replies are and whatever the other handlers do meanwhile.
pub refresh_status_releases :
    (s : State)
    → Ensures Anything
        (λ s' out. (out ≡ ok tt) × (s'.is_refreshing_status ≡ false))
        (refresh_status false)
        s
unfolding refresh_status
refresh_status_releases s =
    Ensures-step _ _
      (Ensures-step _ _ (Ensures-finally _ _ (Ensures-caught Anything _ _ (λ s'. (refl, refl)))))
