-- ===== src/Views.antt =====
-- What is in view: the view chosen in frontend/src/components/Header.tsx, which App keeps, the tabs of
-- frontend/src/components/CapabilityStudio.tsx, and the collapsing of
-- frontend/src/components/ObservabilityPanelContainer.tsx and ObservabilityPanel.tsx.
use nats_demo.Common.{Bool, true, false, not, if◌then◌else◌}

pub data DashboardView : Type 0 where
  nats_demo_view studio : DashboardView

pub data StudioTab : Type 0 where
  pubsub delayed_retry queue_group request_reply dlq replay : StudioTab

pub data PubsubMode : Type 0 where
  standard dedup : PubsubMode

pub record Studio : Type 0 where
  pub active_tab : StudioTab
  pub pubsub_sub_mode : PubsubMode

abbrev pub initial_studio : Studio
initial_studio = record { active_tab = pubsub; pubsub_sub_mode = standard }

pub data ObservabilityView : Type 0 where
  activity addressing : ObservabilityView

pub record Container : Type 0 where
  pub obs_view : ObservabilityView
  pub is_expanded : Bool

abbrev pub initial_container : Container
initial_container = record { obs_view = activity; is_expanded = false }

-- A click on a view's button, which also expands the panel
unfoldable pub show_view : ObservabilityView → Container → Container
show_view view s =
    let s' = record s { obs_view = view } in
    if not s.is_expanded then record s' { is_expanded = true } else s'

unfoldable pub toggle_expanded : Container → Container
toggle_expanded s = record s { is_expanded = not s.is_expanded }
