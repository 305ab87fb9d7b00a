-- ===== src/Buffer.antt =====
-- nfsv4/buffer.h, passed on: the definitions and what a client may know of them.
mod Defs
pub mod Growth
unfoldable pub use Defs.*
pub mod Dump
