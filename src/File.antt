-- ===== src/File.antt =====
-- nfsv4/rpc.c and nfsv4/client.c: files on the server.
pub mod Segment
pub mod Access
pub mod Open
pub mod Reading
pub mod Whole
pub mod Requests
pub mod Ranges
pub mod Filled
pub mod Locking
pub mod Opening
pub mod Opens
pub mod Sizing
pub mod Written
pub mod Roundtrip
