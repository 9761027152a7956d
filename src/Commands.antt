-- ===== src/Commands.antt =====
-- runtime/commands: the write side of the API, its request bodies and its tenant check.
pub mod Events
pub mod Ledger
pub mod Input
pub mod Access
