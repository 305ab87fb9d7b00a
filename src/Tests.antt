-- ===== src/Tests.antt =====
-- Runs of the code on concrete input, and inputs at which the theorems apply.
pub mod Data
pub mod Bytes
pub mod Requests
pub mod Locks
pub mod Exclusives
pub mod Streams
pub mod Rivals
pub mod Exchanges
pub mod Answers
pub mod Reads
pub mod Dumps
pub mod Loads
pub mod Writes
pub mod Stores
pub mod Roundtrip
pub mod Opens
pub mod Whole
pub mod Sessions
pub mod Grants
pub mod Sizes
pub mod Benches
pub mod Connections
