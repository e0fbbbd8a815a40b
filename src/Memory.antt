-- ===== src/Memory.antt =====
-- tree/memory: the hash-chained ledger, its verification, and its files.
pub mod Moment
pub mod Entry
pub mod Verifier
pub mod Scrub
pub mod Store
pub mod Ledger
pub mod CommitLog
