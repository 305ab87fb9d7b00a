-- ===== src/Rpc.antt =====
-- nfsv4/rpc.c: requests, replies, the session and its recovery.
pub mod Config
pub mod Request
pub mod Socket
pub mod Reply
pub mod Session
pub mod Image
pub mod Replay
pub mod Stream
pub mod Exchange
pub mod Transact
pub mod Recovery
pub mod Setup
pub mod Connected
pub mod Finish
pub mod Resolve
