-- ===== src/Info/Laws.antt =====
-- Every button marked (i) has a text of its own.
use nats_demo.Common.{◌≡◌, refl, String, none, some}
use nats_demo.Info.{
  NatsComponentInfo, InfoButton, request_reply_panel, queue_group_panel, core_flow_nats_cli,
  core_flow_processor, core_flow_publisher, job_panel, delayed_retry_panel, replay_panel,
  addressing_panel, observability_panel, dlq_panel, activity_panel, job_inspector_panel,
  deduplication_panel, status_panel, info_key, shown_info, entry_of, nats_components_info,
  handle_key_down,
}

-- The popover shows the entry that is filed under the key and named by it, until Escape is pressed.
pub record Opens (key : String) : Type 0 where
  pub info : NatsComponentInfo
  pub shown : shown_info (some key) ≡ some info
  pub named : info.id ≡ key
  pub closed : shown_info (handle_key_down "Escape" (some key)) ≡ none

-- Each of the panels' buttons marked (i) opens an entry whose identifier is the key that the button
-- passes, and Escape closes it again.
pub info_key-Opens : (b : InfoButton) → Opens (info_key b)
unfolding info_key shown_info entry_of nats_components_info handle_key_down
info_key-Opens request_reply_panel = record { info = _; shown = refl; named = refl; closed = refl }
info_key-Opens queue_group_panel = record { info = _; shown = refl; named = refl; closed = refl }
info_key-Opens core_flow_nats_cli = record { info = _; shown = refl; named = refl; closed = refl }
info_key-Opens core_flow_processor = record { info = _; shown = refl; named = refl; closed = refl }
info_key-Opens core_flow_publisher = record { info = _; shown = refl; named = refl; closed = refl }
info_key-Opens job_panel = record { info = _; shown = refl; named = refl; closed = refl }
info_key-Opens delayed_retry_panel = record { info = _; shown = refl; named = refl; closed = refl }
info_key-Opens replay_panel = record { info = _; shown = refl; named = refl; closed = refl }
info_key-Opens addressing_panel = record { info = _; shown = refl; named = refl; closed = refl }
info_key-Opens observability_panel = record { info = _; shown = refl; named = refl; closed = refl }
info_key-Opens dlq_panel = record { info = _; shown = refl; named = refl; closed = refl }
info_key-Opens activity_panel = record { info = _; shown = refl; named = refl; closed = refl }
info_key-Opens job_inspector_panel = record { info = _; shown = refl; named = refl; closed = refl }
info_key-Opens deduplication_panel = record { info = _; shown = refl; named = refl; closed = refl }
info_key-Opens status_panel = record { info = _; shown = refl; named = refl; closed = refl }
