-- ===== src/DeadLetters/Alerts.antt =====
-- The alerts that the actions of frontend/src/components/DLQPanel.tsx show.
use nats_demo.Common.{ℕ, suc, ◌≡◌, refl, ◌∙◌, ap, Bool, false, String, List, [], ◌∷◌}
use nats_demo.Task.{finally, Failure, Result, ok, err, call, settle, Ensures, catching, ◌>>=◌}
use nats_demo.Task.Laws.{
  Ensures-step, Ensures-update, Ensures-finally, Ensures-catching, Ensures-done, Ensures-bind,
  Ensures-mono,
}
use nats_demo.Task.Together.{alone}
use nats_demo.Task.Together.Laws.{Ensures-alone, Ensures-all}
use nats_demo.Api.{Fetch, Reply}
use nats_demo.Api.Jobs.{submit_job}
use nats_demo.Api.Queue.{
  fetch_dlq_status, fetch_dlq_messages, reprocess_dlq_messages, purge_dlq, setup_dlq, cleanup_dlq,
}
use nats_demo.DeadLetters.{
  DlqPanel, DlqHandler, Told, alert_success, alert_error, activity_updated, refresh_all, tell,
  fetch_dlq_data, handle_setup_prerequisites, handle_cleanup_prerequisites, handle_send_failing_job,
  handle_reprocess_all, handle_reprocess_single, handle_purge,
}

-- How many alerts were shown.
abbrev pub alerts : List Told → ℕ
alerts [] = 0
alerts (alert_success t ∷ l) = suc (alerts l)
alerts (alert_error t ∷ l) = suc (alerts l)
alerts (activity_updated ∷ l) = alerts l
alerts (refresh_all ∷ l) = alerts l

-- What other handlers do not do while this one waits.
abbrev pub KeepsTold : DlqPanel → DlqPanel → Type 0
KeepsTold s s' = s'.told ≡ s.told

abbrev Alerts : ℕ → DlqPanel → Result (Unit {0}) → Type 0
Alerts n s out = (out ≡ ok tt) × (alerts s.told ≡ n)

fetch_dlq_data-Alerts :
    (n : ℕ) (s : DlqPanel) → alerts s.told ≡ n → Ensures KeepsTold (Alerts n) fetch_dlq_data s
unfolding fetch_dlq_data fetch_dlq_status fetch_dlq_messages
fetch_dlq_data-Alerts n s h = Ensures-step _ _ (
    Ensures-finally _ _ (
      Ensures-catching _ _ (
        Ensures-all _ _ _ _ _
          (λ a b s' rel. Ensures-step _ _ (Ensures-update _ (refl, ap alerts rel ∙ h)))
          (λ e s' rel. Ensures-done _ (refl, ap alerts rel ∙ h)))))

-- A poll, and then the call of `onRefreshAll`
refreshed-Alerts :
    (n : ℕ) (s : DlqPanel)
    → alerts s.told ≡ n
    → Ensures KeepsTold (Alerts n) (fetch_dlq_data >>= λ _. tell refresh_all) s
refreshed-Alerts n s h = Ensures-bind _ _ (
    Ensures-mono KeepsTold (λ s'. elim [ ok a ↦ λ p. Ensures-update _ p | err e ↦ λ p. cc ])
      (fetch_dlq_data-Alerts n s h))

module _ {B : Type 0} (q : Fetch) (f : Reply q → Result B) (k : B → DlqHandler)
    (failed : Failure → String) (off : DlqPanel → DlqPanel) (busy : DlqPanel → Bool)
    (free : (s : DlqPanel) → busy (off s) ≡ false) (quiet : (s : DlqPanel) → (off s).told ≡ s.told)
    (s : DlqPanel) where
  -- One request, whose reply is told with one alert before the rest, which tells none.
  acted :
      ((b : B) (s' : DlqPanel)
        → alerts s'.told ≡ alerts s.told
        → Ensures KeepsTold (Alerts (suc (alerts s.told))) (k b) s')
      → Ensures KeepsTold
          (λ s' out. (out ≡ ok tt) × (busy s' ≡ false) × (alerts s'.told ≡ suc (alerts s.told)))
          (finally
            (catching
              (alone (call q (λ r. settle (f r))) >>= k)
              (λ e. tell (alert_error (failed e))))
            off)
          s
  acted rest = Ensures-finally _ _ (
      Ensures-catching _ _ (
        Ensures-alone _ _ _
          (λ b s' rel.
            Ensures-mono KeepsTold
              (λ s''. elim [
                | ok a ↦ λ p. (p.0, free s'', ap alerts (quiet s'') ∙ p.1)
                | err e ↦ λ p. cc
              ])
              (rest b s' (ap alerts rel)))
          (λ e s' rel.
            Ensures-update _ (refl, free _, ap alerts (quiet _) ∙ ap (λ l. suc (alerts l)) rel))))

-- The five actions, with the reprocessing of one message and of all.
pub data DlqAction : Type 0 where
  setup cleanup reprocess_all purge : DlqAction
  send : (max_attempts suffix : ℕ) → DlqAction
  reprocess : (job_id : String) → DlqAction

unfoldable pub handle : DlqAction → DlqHandler
handle setup = handle_setup_prerequisites
handle cleanup = handle_cleanup_prerequisites
handle (send max_attempts suffix) = handle_send_failing_job max_attempts suffix
handle reprocess_all = handle_reprocess_all
handle (reprocess job_id) = handle_reprocess_single job_id
handle purge = handle_purge

abbrev pub is_busy : DlqAction → DlqPanel → Bool
is_busy setup s = s.is_setting_up
is_busy cleanup s = s.is_cleaning_up
is_busy (send max_attempts suffix) s = s.is_submitting
is_busy reprocess_all s = s.is_reprocessing
is_busy (reprocess job_id) s = s.is_reprocessing
is_busy purge s = s.is_purging

abbrev pub AlertsOnce : DlqAction → DlqPanel → DlqPanel → Result (Unit {0}) → Type 0
AlertsOnce a s s' out =
    (out ≡ ok tt) × (is_busy a s' ≡ false) × (alerts s'.told ≡ suc (alerts s.told))

-- Each action of the panel ends without an exception, with its button free and with one alert more,
-- whatever the replies are, if nothing else tells the parent anything while it waits: the poll that
-- follows a success never adds an alert of its own.
pub handle-AlertsOnce :
    (a : DlqAction) (s : DlqPanel) → Ensures KeepsTold (AlertsOnce a s) (handle a) s
unfolding handle handle_setup_prerequisites handle_cleanup_prerequisites handle_send_failing_job
    handle_reprocess_all handle_reprocess_single handle_purge setup_dlq cleanup_dlq submit_job
    reprocess_dlq_messages purge_dlq
handle-AlertsOnce setup s = Ensures-step _ _ (
    acted _ _ _ _ _ (λ x. x.is_setting_up) (λ x. refl) (λ x. refl) _
      (λ b s' h. Ensures-step _ _ (refreshed-Alerts _ _ (ap suc h))))
handle-AlertsOnce cleanup s = Ensures-step _ _ (
    acted _ _ _ _ _ (λ x. x.is_cleaning_up) (λ x. refl) (λ x. refl) _
      (λ b s' h. Ensures-step _ _ (refreshed-Alerts _ _ (ap suc h))))
handle-AlertsOnce (send max_attempts suffix) s = Ensures-step _ _ (
    acted _ _ _ _ _ (λ x. x.is_submitting) (λ x. refl) (λ x. refl) _
      (λ b s' h. Ensures-step _ _ (
        Ensures-step _ _ (
          Ensures-step _ _ (
            Ensures-step _ _ (
              Ensures-step _ _
                (Ensures-step _ _ (Ensures-step _ _ (Ensures-update _ (refl, ap suc h))))))))))
handle-AlertsOnce reprocess_all s = Ensures-step _ _ (
    acted _ _ _ _ _ (λ x. x.is_reprocessing) (λ x. refl) (λ x. refl) _
      (λ b s' h.
        Ensures-step _ _ (
          Ensures-step _ _
            (Ensures-step _ _ (Ensures-step _ _ (refreshed-Alerts _ _ (ap suc h)))))))
handle-AlertsOnce (reprocess job_id) s = Ensures-step _ _ (
    acted _ _ _ _ _ (λ x. x.is_reprocessing) (λ x. refl) (λ x. refl) _
      (λ b s' h.
        Ensures-step _ _ (
          Ensures-step _ _
            (Ensures-step _ _ (Ensures-step _ _ (refreshed-Alerts _ _ (ap suc h)))))))
handle-AlertsOnce purge s = Ensures-step _ _ (
    acted _ _ _ _ _ (λ x. x.is_purging) (λ x. refl) (λ x. refl) _
      (λ b s' h. Ensures-step _ _ (Ensures-step _ _ (refreshed-Alerts _ _ (ap suc h)))))
