-- ===== src/Protocol/Tables.antt =====
-- nfsv4/rpc.c and nfsv4/nfs4.c: the tables of names, and nfsv4/codepoint.h on sets of flags.
pub mod Flags
use Prim.Native.Nat.{bit_and}
use ssqlite.Prelude.{ℕ, String, List, [], ◌∷◌, ◌++◌, Option, none, some, ◌==◌, if◌then◌else◌}
use text.Mathlib.Text.{◌==◌ as str_eq}
use ssqlite.Protocol.Status.{Codepoint}
use ssqlite.Xdr.Push.{codes}

-- The operations. The table has no entry with an empty description at its end.
unfoldable pub nfsops : List Codepoint
nfsops =
    ("ACCESS", 3)
    ∷ ("CLOSE", 4)
    ∷ ("COMMIT", 5)
    ∷ ("CREATE", 6)
    ∷ ("DELEGPURGE", 7)
    ∷ ("DELEGRETURN", 8)
    ∷ ("GETATTR", 9)
    ∷ ("GETFH", 10)
    ∷ ("LINK", 11)
    ∷ ("LOCK", 12)
    ∷ ("LOCKT", 13)
    ∷ ("LOCKU", 14)
    ∷ ("LOOKUP", 15)
    ∷ ("LOOKUPP", 16)
    ∷ ("NVERIFY", 17)
    ∷ ("OPEN", 18)
    ∷ ("OPENATTR", 19)
    ∷ ("OPEN_CONFIRM", 20)
    ∷ ("OPEN_DOWNGRADE", 21)
    ∷ ("PUTFH", 22)
    ∷ ("PUTPUBFH", 23)
    ∷ ("PUTROOTFH", 24)
    ∷ ("READ", 25)
    ∷ ("READDIR", 26)
    ∷ ("READLINK", 27)
    ∷ ("REMOVE", 28)
    ∷ ("RENAME", 29)
    ∷ ("RENEW", 30)
    ∷ ("RESTOREFH", 31)
    ∷ ("SAVEFH", 32)
    ∷ ("SECINFO", 33)
    ∷ ("SETATTR", 34)
    ∷ ("SETCLIENTID", 35)
    ∷ ("SETCLIENTID_CONFIRM", 36)
    ∷ ("VERIFY", 37)
    ∷ ("WRITE", 38)
    ∷ ("RELEASE_LOCKOWNER", 39)
    ∷ ("BACKCHANNEL_CTL", 40)
    ∷ ("BIND_CONN_TO_SESSION", 41)
    ∷ ("EXCHANGE_ID", 42)
    ∷ ("CREATE_SESSION", 43)
    ∷ ("DESTROY_SESSION", 44)
    ∷ ("FREE_STATEID", 45)
    ∷ ("GET_DIR_DELEGATION", 46)
    ∷ ("GETDEVICEINFO", 47)
    ∷ ("GETDEVICELIST", 48)
    ∷ ("LAYOUTCOMMIT", 49)
    ∷ ("LAYOUTGET", 50)
    ∷ ("LAYOUTRETURN", 51)
    ∷ ("SECINFO_NO_NAME", 52)
    ∷ ("SEQUENCE", 53)
    ∷ ("SET_SSV", 54)
    ∷ ("TEST_STATEID", 55)
    ∷ ("WANT_DELEGATION", 56)
    ∷ ("DESTROY_CLIENTID", 57)
    ∷ ("RECLAIM_COMPLETE", 58)
    ∷ ("ALLOCATE", 59)
    ∷ ("COPY", 60)
    ∷ ("COPY_NOTIFY", 61)
    ∷ ("DEALLOCATE", 62)
    ∷ ("IO_ADVISE", 63)
    ∷ ("LAYOUTERROR", 64)
    ∷ ("LAYOUTSTATS", 65)
    ∷ ("OFFLOAD_CANCEL", 66)
    ∷ ("OFFLOAD_STATUS", 67)
    ∷ ("READ_PLUS", 68)
    ∷ ("SEEK", 69)
    ∷ ("WRITE_SAME", 70)
    ∷ ("CLONE", 71)
    ∷ ("ILLEGAL", 10044)
    ∷ []

unfoldable pub locktypes : List Codepoint
locktypes =
    ("NONE", 0) ∷ ("SHARED", 1) ∷ ("RESERVED", 2) ∷ ("PENDING", 3) ∷ ("EXCLUSIVE", 4) ∷ ("", 0) ∷ []

unfoldable pub fcntl : List Codepoint
fcntl =
    ("LOCKSTATE", 1)
    ∷ ("GET_LOCKPROXYFILE", 2)
    ∷ ("SET_LOCKPROXYFILE", 3)
    ∷ ("LAST_ERRNO", 4)
    ∷ ("SIZE_HINT", 5)
    ∷ ("CHUNK_SIZE", 6)
    ∷ ("FILE_POINTER", 7)
    ∷ ("SYNC_OMITTED", 8)
    ∷ ("WIN32_AV_RETRY", 9)
    ∷ ("PERSIST_WAL", 10)
    ∷ ("OVERWRITE", 11)
    ∷ ("VFSNAME", 12)
    ∷ ("POWERSAFE_OVERWRITE", 13)
    ∷ ("PRAGMA", 14)
    ∷ ("BUSYHANDLER", 15)
    ∷ ("TEMPFILENAME", 16)
    ∷ ("MMAP_SIZE", 18)
    ∷ ("TRACE", 19)
    ∷ ("HAS_MOVED", 20)
    ∷ ("SYNC", 21)
    ∷ ("COMMIT_PHASETWO", 22)
    ∷ ("WIN32_SET_HANDLE", 23)
    ∷ ("WAL_BLOCK", 24)
    ∷ ("ZIPVFS", 25)
    ∷ ("RBU", 26)
    ∷ ("VFS_POINTER", 27)
    ∷ ("JOURNAL_POINTER", 28)
    ∷ ("WIN32_GET_HANDLE", 29)
    ∷ ("PDB", 30)
    ∷ ("BEGIN_ATOMIC_WRITE", 31)
    ∷ ("COMMIT_ATOMIC_WRITE", 32)
    ∷ ("ROLLBACK_ATOMIC_WRITE", 33)
    ∷ ("", 0)
    ∷ []

unfoldable pub iocap : List Codepoint
iocap =
    ("SAFE_APPEND", 0x00000200)
    ∷ ("SEQUENTIAL", 0x00000400)
    ∷ ("UNDELETABLE_WHEN_OPEN", 0x00000800)
    ∷ ("POWERSAFE_OVERWRITE", 0x00001000)
    ∷ ("IMMUTABLE", 0x00002000)
    ∷ ("BATCH_ATOMIC", 0x00004000)
    ∷ ("", 0)
    ∷ []

unfoldable pub openflags : List Codepoint
openflags =
    ("READONLY", 0x00000001)
    ∷ ("READWRITE", 0x00000002)
    ∷ ("CREATE", 0x00000004)
    ∷ ("DELETEONCLOSE", 0x00000008)
    ∷ ("EXCLUSIVE", 0x00000010)
    ∷ ("AUTOPROXY", 0x00000020)
    ∷ ("URI", 0x00000040)
    ∷ ("MEMORY", 0x00000080)
    ∷ ("MAIN_DB", 0x00000100)
    ∷ ("TEMP_DB", 0x00000200)
    ∷ ("TRANSIENT_DB", 0x00000400)
    ∷ ("MAIN_JOURNAL", 0x00000800)
    ∷ ("TEMP_JOURNAL", 0x00001000)
    ∷ ("SUBJOURNAL", 0x00002000)
    ∷ ("MASTER_JOURNAL", 0x00004000)
    ∷ ("NOMUTEX", 0x00008000)
    ∷ ("FULLMUTEX", 0x00010000)
    ∷ ("SHAREDCACHE", 0x00020000)
    ∷ ("PRIVATECACHE", 0x00040000)
    ∷ ("WAL", 0x00080000)
    ∷ ("", 0)
    ∷ []

-- The description, with a bar before it unless it is the first.
abbrev pub with_bar : List ℕ → List ℕ → List ℕ
with_bar [] description = description
with_bar (x ∷ xs) description = (x ∷ xs) ++ (b'|' ∷ description)

-- The loop of `codepoint_set_string`; `text` is what stands in `temp_set` up to `offset`. `none`
-- is a scan that leaves a table with no empty description.
unfoldable pub set_string_from : List Codepoint → ℕ → List ℕ → Option (List ℕ)
set_string_from [] flags text = none
set_string_from ((description, v) ∷ set) flags text =
    let there = set_string_from set flags (with_bar text (codes description)) in
    let not_there = set_string_from set flags text in
    if str_eq description "" then some text else if bit_and flags v == 0 then not_there else there

-- The text up to the null byte behind it.
unfoldable pub codepoint_set_string : List Codepoint → ℕ → Option (List ℕ)
codepoint_set_string set flags = set_string_from set flags []
