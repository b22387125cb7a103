-- ===== src/Activity.antt =====
-- The activity log, frontend/src/components/ActivityPanel.tsx.
mod Classify
mod Filter
pub mod Counts
pub mod Shown
pub mod Options
pub mod CompactId
mod Tests
unfoldable pub use Classify.*
unfoldable pub use Filter.*
