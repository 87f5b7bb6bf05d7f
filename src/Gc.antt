-- ===== src/Gc.antt =====
-- Garbage collection (src/storage/gc.ts): what a run may release, and why.
pub mod Plan
pub mod Safety
pub mod Accounts
pub mod Eviction
pub mod Tests
