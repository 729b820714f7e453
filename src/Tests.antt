-- ===== src/Tests.antt =====
-- Runs of the program at small inputs, and the theorems applied at them.
mod Fixtures
mod Paths
mod Reads
mod Writes
mod Shares
mod Schemas
mod Plans
mod Boots
mod Calls
mod Retry
mod Flush
mod Pool
