-- ===== src/Read.antt =====
-- src/read.rs: the three reads.
pub mod Resolve
pub mod Walk
pub mod Prefixes
pub mod Deepest
pub mod Projects
pub mod Pages
pub mod Bounds
pub mod Resume
pub mod Filled
pub mod Whole
