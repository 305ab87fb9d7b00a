-- ===== src/Vfs.antt =====
-- nfsv4/nfs4.c: the VFS that SQLite calls.
pub mod Base
pub mod Lock
pub mod Files
pub mod Registration
pub mod Methods
