-- ===== src/DeadLetters/Handling.antt =====
-- Which flags the handlers of frontend/src/components/DLQPanel.tsx turn on and off.
use nats_demo.Common.{ℕ, refl, String, Option}
use nats_demo.Task.{Result, Failure, call, settle, catching, ◌>>=◌, ◌>>◌}
use nats_demo.Task.Keeping.{
  Maintains-done, Maintains-update, Maintains-bind, Maintains-step, Maintains-catching,
  Maintains-finally,
}
use nats_demo.Task.Together.{alone}
use nats_demo.Task.Together.Laws.{Maintains-alone, Maintains-all}
use nats_demo.Panel.Holding.{Leaves}
use nats_demo.Panel.Taking.{Raises, Raises-Takes}
use nats_demo.Panel.Kinds.{Acts}
use nats_demo.Api.{Fetch, Reply}
use nats_demo.Api.Jobs.{submit_job}
use nats_demo.Api.Queue.{
  fetch_dlq_status, fetch_dlq_messages, reprocess_dlq_messages, purge_dlq, setup_dlq, cleanup_dlq,
}
use nats_demo.DeadLetters.{
  DlqPanel, DlqHandler, tell, fetch_dlq_data, handle_setup_prerequisites,
  handle_cleanup_prerequisites, handle_send_failing_job, handle_reprocess_all,
  handle_reprocess_single, handle_purge, Told, alert_error, refresh_all, reprocessed,
}
use nats_demo.DeadLetters.Acting.{
  DlqEvent, show_info, refresh, setup, cleanup, send_failing, reprocess_all, purge, poll,
  activity_due, set_max_attempts, reprocess_single, react,
}
use nats_demo.DeadLetters.Kinds.{
  DlqKind, submitting, reprocessing, purging, setting_up, cleaning_up, flag, kind, kinds,
}

fetch_dlq_data-Leaves : (κ : DlqKind) → Leaves (flag κ) fetch_dlq_data
unfolding fetch_dlq_data fetch_dlq_status fetch_dlq_messages
fetch_dlq_data-Leaves κ b =
    Maintains-step _ _ (λ s i. i)
      (Maintains-finally _ _
        (Maintains-catching _ _
          (Maintains-bind _ _ (Maintains-all _ _ _ _)
            (λ l v. Maintains-step _ _ (λ s i. i) (Maintains-update _ (λ s i. i))))
          (λ e. Maintains-done _ tt))
        (λ s i. i))

-- A poll, and then the call of `onRefreshAll`
refreshed-Leaves : (κ : DlqKind) → Leaves (flag κ) (fetch_dlq_data >>= λ _. tell refresh_all)
refreshed-Leaves κ b =
    Maintains-bind _ _ (fetch_dlq_data-Leaves κ b) (λ a v. Maintains-update _ (λ s i. i))

-- One request, whose reply is told before the rest
module _ {B : Type 0} (q : Fetch) (f : Reply q → Result B) (k : B → DlqHandler) (told : B → Told)
    (failed : Failure → String) where
  acted-Leaves :
      (κ : DlqKind)
      → ((b : B) → Leaves (flag κ) (k b))
      → Leaves (flag κ) (
          catching
            (do b ← alone (call q (λ r. settle (f r))); tell (told b); k b)
            (λ e. tell (alert_error (failed e))))
  acted-Leaves κ h b =
      Maintains-catching _ _
        (Maintains-bind _ _ (Maintains-alone _ _)
          (λ res v. Maintains-step _ _ (λ s i. i) (h res b)))
        (λ e. Maintains-update _ (λ s i. i))

setup-Raises : Raises kinds setting_up handle_setup_prerequisites
unfolding handle_setup_prerequisites setup_dlq
setup-Raises = record {
  body = _;
  shape = refl;
  leaves = λ κ. acted-Leaves _ _ _ _ _ κ (λ res. refreshed-Leaves κ);
}

cleanup-Raises : Raises kinds cleaning_up handle_cleanup_prerequisites
unfolding handle_cleanup_prerequisites cleanup_dlq
cleanup-Raises = record {
  body = _;
  shape = refl;
  leaves = λ κ. acted-Leaves _ _ _ _ _ κ (λ res. refreshed-Leaves κ);
}

purge-Raises : Raises kinds purging handle_purge
unfolding handle_purge purge_dlq
purge-Raises = record {
  body = _;
  shape = refl;
  leaves =
      λ κ. acted-Leaves _ _ _ _ _ κ (λ res b. Maintains-step _ _ (λ s i. i) (refreshed-Leaves κ b));
}

-- What follows the alert of a reprocessing
reprocessed-Leaves : (κ : DlqKind) → Leaves (flag κ) reprocessed
reprocessed-Leaves κ b =
    Maintains-step _ _ (λ s i. i)
      (Maintains-step _ _ (λ s i. i) (Maintains-step _ _ (λ s i. i) (refreshed-Leaves κ b)))

reprocess_all-Raises : Raises kinds reprocessing handle_reprocess_all
unfolding handle_reprocess_all reprocess_dlq_messages
reprocess_all-Raises = record {
  body = _;
  shape = refl;
  leaves = λ κ. acted-Leaves _ _ _ _ _ κ (λ res. reprocessed-Leaves κ);
}

reprocess_single-Raises :
    (job_id : String) → Raises kinds reprocessing (handle_reprocess_single job_id)
unfolding handle_reprocess_single reprocess_dlq_messages
reprocess_single-Raises job_id = record {
  body = _;
  shape = refl;
  leaves = λ κ. acted-Leaves _ _ _ _ _ κ (λ res. reprocessed-Leaves κ);
}

send-Raises :
    (max_attempts suffix : ℕ)
    → Raises kinds submitting (handle_send_failing_job max_attempts suffix)
unfolding handle_send_failing_job submit_job
send-Raises max_attempts suffix = record {
  body = _;
  shape = refl;
  leaves = λ κ. acted-Leaves _ _ _ _ _ κ (λ res b.
      Maintains-step _ _ (λ s i. i)
        (Maintains-step _ _ (λ s i. i)
          (Maintains-step _ _ (λ s i. i)
            (Maintains-step _ _ (λ s i. i)
              (Maintains-step _ _ (λ s i. i)
                (Maintains-step _ _ (λ s i. i) (Maintains-update _ (λ s i. i))))))));
}

module _ (parse_int : String → Option ℕ) where
  pub react-Acts :
      (e : DlqEvent) (suffix : ℕ) (s : DlqPanel)
      → Acts kinds (kind e) s (react parse_int e suffix s)
  unfolding react
  react-Acts (show_info topic) suffix s = λ κ b. Maintains-done _ tt
  react-Acts refresh suffix s = fetch_dlq_data-Leaves
  react-Acts poll suffix s = fetch_dlq_data-Leaves
  react-Acts activity_due suffix s = λ κ b. Maintains-update _ (λ s i. i)
  react-Acts (set_max_attempts v) suffix s = λ κ b. Maintains-update _ (λ s i. i)
  react-Acts setup suffix s = Raises-Takes kinds _ s _ refl setup-Raises
  react-Acts cleanup suffix s = Raises-Takes kinds _ s _ refl cleanup-Raises
  react-Acts send_failing suffix s = Raises-Takes kinds _ s _ refl (send-Raises _ _)
  react-Acts reprocess_all suffix s = Raises-Takes kinds _ s _ refl reprocess_all-Raises
  react-Acts (reprocess_single job_id) suffix s =
      Raises-Takes kinds _ s _ refl (reprocess_single-Raises job_id)
  react-Acts purge suffix s = Raises-Takes kinds _ s _ refl purge-Raises
