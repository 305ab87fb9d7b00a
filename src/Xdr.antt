-- ===== src/Xdr.antt =====
-- The wire format: words, the pushes of nfsv4/xdr.c and the parsers of replies.
pub mod Words
pub mod Encode
pub mod Decode
pub mod Push
pub mod Parse
pub mod At
pub mod Limits
pub mod Opened
pub mod Pieces
