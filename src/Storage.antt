-- ===== src/Storage.antt =====
-- src/storage: the journal.
pub mod Payloads
pub mod Journal
