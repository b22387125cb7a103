-- ===== src/Publisher.antt =====
-- The publisher, frontend/src/components/CoreFlow/CoreFlowPublisher.tsx.
pub mod NextId
pub mod NextIdLaws
pub mod SuffixLaws
pub mod Headers
pub mod Form
pub mod Send
pub mod SendLaws
pub mod BatchLaws
pub mod Acting
pub mod Fields
pub mod View
pub mod Kinds
pub mod Presses
mod Tests
