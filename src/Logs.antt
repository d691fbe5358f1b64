-- ===== src/Logs.antt =====
-- handlers/logs.py: the two handlers of logs, with cursors and reorg detection.
pub mod Types
pub mod Input
pub mod Limit
pub mod Ranges
pub mod Search
pub mod Filters
pub mod Handlers
pub mod Laws
pub mod Page
mod Tests
