-- ===== src/Accounts.antt =====
-- handlers/accounts.py: the handlers of accounts.
pub mod Input
pub mod Handlers
pub mod Laws
mod Tests
