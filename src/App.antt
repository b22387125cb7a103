-- ===== src/App.antt =====
-- The root component, frontend/src/App.tsx: its state, its handlers as tasks over HTTP requests,
-- and the values that it derives for the header.
mod State
pub mod Refresh
pub mod Jobs
pub mod Inspector
pub mod Health
pub mod Frames
pub mod System
pub mod Linked
pub mod RefreshLaws
pub mod JobLaws
pub mod InspectorLaws
mod Tests
unfoldable pub use State.*
