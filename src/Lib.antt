-- ===== src/Lib.antt =====
-- The user-space NFS 4.1 client that is a SQLite VFS (nfsv4/).
--
-- SQLite calls the methods of nfsv4/nfs4.c; they call the client of nfsv4/client.c, which builds
-- COMPOUND requests with nfsv4/xdr.c in the buffers of nfsv4/buffer.h, sends and parses them with
-- nfsv4/rpc.c, and recovers the session when the server has lost it.
--
-- Parts and files:
--   Prelude   lists, Boolean tests, and memory as a function from offsets to bytes
--   Buffer    nfsv4/buffer.h: `struct buffer`, `buffer_extend`, `push_bytes`, `push_char`,
--             `buffer_concat`; Buffer/Growth is what they do to the bytes, and Buffer/Dump is
--             `print_buffer_u32`
--   Protocol  nfsv4/nfs4xdr.h and nfsv4/codepoint.h: operations, status codes and their texts;
--             Protocol/Tables has the other tables of names and `codepoint_set_string`,
--             Protocol/Attributes and Protocol/Enums the enumerations
--   System    nfsv4/nfs4_internal.h: `struct client`, `struct file`, `struct rpc` and
--             `struct stateid`, the machine around the client as an interface (libc, sockets,
--             clock, environment), and the monad of functions that return a status
--   Xdr       nfsv4/nfs4_internal.h and nfsv4/xdr.c: Xdr/Words has the writers and readers,
--             Xdr/Push the operations of a request, Xdr/Parse the replies; Xdr/Encode and
--             Xdr/Decode state the encoding, Xdr/Pieces that of a whole request, Xdr/At the readers
--             as actions on a client, Xdr/Limits what a session's reply does to the client, and
--             Xdr/Opened the reply to OPEN
--   Rpc       nfsv4/rpc.c and nfsv4/config.h: Rpc/Config the settings, Rpc/Request how a request is
--             begun, finished and replayed, Rpc/Socket the socket, Rpc/Reply the header and the
--             scan of a reply, Rpc/Session the session and `transact`; Rpc/Image, Rpc/Finish,
--             Rpc/Replay, Rpc/Resolve and Rpc/Stream are about requests and the socket, Rpc/Reply/Header
--             and Rpc/Reply/Scan about replies, and Rpc/Exchange, Rpc/Transact and Rpc/Recovery
--             about the way from a request to its reply; Rpc/Setup and Rpc/Connected are about
--             the steps of `rpc_connection`
--   Text      nfsv4/vector.h, nfsv4/runtime.h and nfsv4/client.c: paths and numbers; Text/Vectors
--             has the vectors as buffers of pointers, and Text/Ticks is nfsv4/ticks.h
--   File      nfsv4/client.c and nfsv4/rpc.c: File/Segment is `segment`, File/Access reads, writes,
--             sizes and range locks, File/Open opening, creating, removing and the new client;
--             File/Reading, File/Whole, File/Written, File/Roundtrip, File/Requests and
--             File/Filled are about reads and writes, File/Ranges and File/Locking about range
--             locks, File/Opening and File/Opens about OPEN, and File/Sizing about the size
--   Vfs       nfsv4/nfs4.c: Vfs/Lock is `nfs4Lock` and `nfs4Unlock`, Vfs/Files the other methods,
--             Vfs/Registration the entry point and the methods of the default VFS, Vfs/Methods the
--             tables of methods;
--             Vfs/Lock/Held, Exchange, Rules, Grant and Cover are about one client's locks,
--             Vfs/Lock/Rivals and Vfs/Lock/Exclusion about two clients
--   Bench     pyvfsbench/vfsbench.c: the loops that call a VFS, and their times; Bench/Calls is
--             about the calls, Bench/Times about the times
--   Tests     runs on concrete input
--
-- State is passed on explicitly: `Sys` has the client, the world of the machine, the memory of the
-- caller, and the flag for a lost session. `Outcome` tells a value under STATUS_OK from a status,
-- a panic (also a failed `assert` or a null pointer) and the end of the fuel. A function that ends
-- with no `return` asks the machine what its caller finds (`left_over`), or gives `none`.
-- A `u32` wraps at 2 ^ 32 and a `u64` at 2 ^ 64. A buffer has at most 2 ^ 30 bytes in the theorems.
--
-- Fuel: `segment` counts its rounds and needs more than the number of bytes of the transfer;
-- `read_fully` needs more than the number of pieces that `read` returns; `transact` counts the
-- depth of its recursion through `rpc_connection` and `create_session`; the scan of a reply counts
-- operations; `print_u64` counts the rounds of its two loops, and the text of a fraction needs ten
-- rounds. The loops of the benchmark need more fuel than calls, or than bytes to fill.
--
-- The locks are those of the client: Vfs/Lock/Exchange lists the calls of `lock_range` and
-- `unlock_range` on the way from one level to another and what the server may do with each request.
-- Two clients (Vfs/Lock/Rivals) have each its own state, the memory included, and share the world;
-- their calls are steps of a relation, in any order.
--
-- A vector is the list of its elements but for Text/Vectors, where it is the buffer that the source
-- has, with pointers as the eight bytes that lie in memory. SQLite is a record of functions
-- (`Sqlite` in Vfs/Registration); the fuel there bounds the depth of calls from method to method.
--
-- Not modelled: the release of memory, what an open that fails leaves in the new file, negative
-- numbers in the settings of the benchmark, the trace, `rdtsc` and the floating point of nfsv4/ticks.h,
-- the Python module, the threads and the printing of
-- pyvfsbench/vfsbench.c, which is taken without TIMING_DETAIL, and the programs under test,
-- nfsv4/test, dist and tools. SQLite, libc and the NFS server are not under this repository.
pub mod Prelude
pub mod Buffer
pub mod Protocol
pub mod System
pub mod Xdr
pub mod Rpc
pub mod Text
pub mod File
pub mod Vfs
pub mod Bench
pub mod Tests
