-- ===== src/Protocol.antt =====
-- The constants of nfsv4/nfs4xdr.h.
pub mod Ops
pub mod Status
pub mod Tables
pub mod Attributes
pub mod Enums
