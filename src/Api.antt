-- ===== src/Api.antt =====
-- The HTTP client of the dashboard, frontend/src/api/demoApi.ts: its data, its requests, and one
-- function for each exported function.
mod Types
mod Http
pub mod Processor
pub mod Jobs
pub mod Control
pub mod Queue
pub mod Status
pub mod Endpoint
mod Tests
pub use Types.*
pub use Http.*
