-- ===== src/Sync.antt =====
-- src/write/sync.rs: the organisation's whole declaration, applied in one transaction.
pub mod Request
pub mod Pairs
pub mod Declaration
pub mod Recorded
pub mod Apply
pub mod Keeps
pub mod Invariant
pub mod Steps
pub mod Loop
pub mod Converge
pub mod Ran
pub mod Named
pub mod Revoked
pub mod Granted
pub mod Told
pub mod Counts
pub mod Outcome
