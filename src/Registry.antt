-- ===== src/Registry.antt =====
-- src/storage/registry.ts, src/storage/admissionState.ts and src/storage/repairState.ts: the record
-- of a file, the ownership sets of the process, and the lifecycle predicates that every sweep uses.
-- Sizes and times are whole numbers. A CID, a peer id and a token are texts.
mod Types
mod Valid
pub mod Ownership
pub mod Staged
unfoldable pub use Types.*
unfoldable pub use Valid.*
