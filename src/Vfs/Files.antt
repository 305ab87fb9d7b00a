-- ===== src/Vfs/Files.antt =====
-- nfsv4/nfs4.c: the methods on open files and names, but for the locks. A function that ends with
-- no `return` gives `none`.
use ssqlite.Prelude.{
  ℕ, ◌/◌, ◌%◌, Bool, true, false, List, [], ◌∷◌, Option, none, some, ◌==◌, if◌then◌else◌,
}
use ssqlite.System.{
  Client, File, Machine, M, ◌>>=◌, pure, panicking, attempt, Tried, done, error, Status,
}
use ssqlite.Text.{split, filename}
use ssqlite.File.Access.{readfile, writefile, file_size}
use ssqlite.File.Open.{create_client, file_open_read, file_open_write, file_create, exists, delete}
use ssqlite.Vfs.Base.{
  SqlFile, sqlite_ok, sqlite_error, sqlite_readonly, sqlite_notfound, sqlite_cantopen,
  translate_status,
}
use ssqlite.Vfs.Lock.{no_lock}

-- `flags & bit`, for a power of two
abbrev flag : ℕ → ℕ → Bool
flag flags bit = (flags / bit) % 2 == 1

abbrev open_readonly : ℕ
open_readonly = 1

abbrev open_readwrite : ℕ
open_readwrite = 2

abbrev open_create : ℕ
open_create = 4

abbrev access_exists : ℕ
access_exists = 0

abbrev access_readwrite : ℕ
access_readwrite = 1

abbrev fcntl_vfsname : ℕ
fcntl_vfsname = 12

abbrev fcntl_pragma : ℕ
fcntl_pragma = 14

abbrev fcntl_mmap_size : ℕ
fcntl_mmap_size = 18

-- `split` and `vector_pop`: the server's name and the path on it.
unfoldable pub server_and_path : List ℕ → Option (List ℕ × List (List ℕ))
server_and_path name = elim (split name b'/') [ [] ↦ none | server ∷ path ↦ some (server, path) ]

-- What is done with the two, unless `vector_pop` panics.
abbrev pub on_server :
    {W A : Type 0} → (List ℕ → List (List ℕ) → M W A) → Option (List ℕ × List (List ℕ)) → M W A
on_server f none = panicking "out of bounds vector reference"
on_server f (some (server, path)) = f server path

unfoldable pub device_characteristics : SqlFile → ℕ
device_characteristics sf =
    if sf.powersafe then 0x00001000 else if sf.readonly then 0x00002000 else 0

-- What is stored through `pArg`.
pub data Stored : Type 0 where
  untouched : Stored
  number : ℕ → Stored
  text : List ℕ → Stored

-- The result code, and what is stored; `mprintf` is `sqlite3_mprintf("nfs4(%s)", …)`.
unfoldable pub file_control : (List ℕ → List ℕ) → SqlFile → ℕ → ℕ × Stored
file_control mprintf sf op = if op == fcntl_pragma then (sqlite_notfound, untouched) else (
  sqlite_ok,
  if op == fcntl_vfsname
      then text (mprintf (filename sf.f.path))
      else if op == fcntl_mmap_size
      then number 0
      else untouched,
)

unfoldable pub sector_size : SqlFile → ℕ
sector_size sf = 512

-- `file_close` does nothing.
unfoldable pub close : SqlFile → ℕ
close sf = sqlite_ok

unfoldable pub unfetch : SqlFile → ℕ
unfetch sf = sqlite_ok

unfoldable pub truncate : SqlFile → ℕ → ℕ
truncate sf size = sqlite_error

unfoldable pub sync : SqlFile → ℕ → ℕ
sync sf flags = sqlite_ok

-- The result code and `*pResOut`.
unfoldable pub check_reserved_lock : SqlFile → ℕ × ℕ
check_reserved_lock sf = (sqlite_ok, 0)

unfoldable pub shm_map : SqlFile → ℕ
shm_map sf = sqlite_readonly

unfoldable pub shm_lock : SqlFile → ℕ
shm_lock sf = sqlite_readonly

unfoldable pub shm_barrier : SqlFile → Unit {0}
shm_barrier sf = tt

unfoldable pub shm_unmap : SqlFile → ℕ
shm_unmap sf = sqlite_ok

-- `f->ad = ad; f->eFileLock = NO_LOCK; f->powersafe = true; f->readonly = false;`
unfoldable pub fresh : SqlFile → SqlFile
fresh sf = record sf { file_lock = no_lock; powersafe = true; readonly = false }

unfoldable pub opened : SqlFile → Tried File → SqlFile × ℕ
opened sf (done f) = (record sf { f = f }, translate_status (done f))
opened sf (error e) = (sf, translate_status {A = File} (error e))

module _ {W : Type 0} (m : Machine W) (io depth : ℕ) where
  -- The status is translated and dropped, and no result is returned.
  unfoldable pub nfs_read : ℕ → SqlFile → ℕ → ℕ → ℕ → M W (Option ℕ)
  nfs_read fuel sf dest amount offset = do
    s ← attempt (readfile m io depth fuel sf.f dest offset amount)
    pure none

  unfoldable pub nfs_write : ℕ → SqlFile → ℕ → ℕ → ℕ → M W (Option ℕ)
  nfs_write fuel sf source amount offset = do
    s ← attempt (writefile m io depth fuel sf.f source offset amount)
    pure none

  unfoldable pub nfs_fetch : ℕ → SqlFile → ℕ → ℕ → ℕ → M W (Option ℕ)
  nfs_fetch fuel sf offset amount page = do
    s ← attempt (readfile m io depth fuel sf.f page offset amount)
    pure none

  -- The result code and `*pSize`; `none` is the value that the variable had on the stack.
  unfoldable pub nfs_file_size : SqlFile → M W (ℕ × Option ℕ)
  nfs_file_size sf = do
    s ← attempt (file_size m io depth sf.f)
    pure (elim s [
      | done size ↦ (translate_status (done size), some size)
      | error e ↦ (translate_status {A = ℕ} (error e), none)
    ])

  -- The open by the first of the flags that is set.
  unfoldable pub open_by_flags : SqlFile → File → List (List ℕ) → ℕ → M W (SqlFile × ℕ)
  open_by_flags sf raw path flags =
      if flag flags open_readonly
      then (attempt (file_open_read m io depth raw path) >>= λ f. pure (opened sf f))
      else if flag flags open_create
      then (attempt (file_create m io depth raw path) >>= λ f. pure (opened sf f))
      else if flag flags open_readwrite
      then (attempt (file_open_write m io depth raw path) >>= λ f. pure (opened sf f))
      else pure (sf, sqlite_cantopen)

  -- `if (!is_ok(st)) return translate_status(ad, st);`, and the open
  unfoldable pub connected_then : SqlFile → File → List (List ℕ) → ℕ → Status → M W (SqlFile × ℕ)
  connected_then sf raw path flags (error e) =
      pure (fresh sf, translate_status {A = Unit {0}} (error e))
  connected_then sf raw path flags (done x) = open_by_flags (fresh sf) raw path flags

  -- `connected` is `*c != 0`; `raw_client` and `raw` are what `malloc` finds.
  unfoldable pub open_on :
      Bool → Client → File → SqlFile → List ℕ → List (List ℕ) → ℕ → M W (SqlFile × ℕ)
  open_on true raw_client raw sf server path flags = open_by_flags (fresh sf) raw path flags
  open_on false raw_client raw sf server path flags = do
    st ← attempt (create_client m io depth raw_client server)
    connected_then sf raw path flags st

  -- `vector_get(path, 0)` panics on an empty path.
  unfoldable pub open_path :
      Bool → Client → File → SqlFile → ℕ → List ℕ → List (List ℕ) → M W (SqlFile × ℕ)
  open_path connected raw_client raw sf flags server [] = panicking "out of bounds vector reference"
  open_path connected raw_client raw sf flags server (x ∷ path) =
      open_on connected raw_client raw sf server (x ∷ path) flags

  unfoldable pub nfs_open : Bool → Client → File → SqlFile → List ℕ → ℕ → M W (SqlFile × ℕ)
  nfs_open connected raw_client raw sf name flags =
      on_server (open_path connected raw_client raw sf flags) (server_and_path name)

  -- `ad->c`, which may be null: the call reads through it.
  with_client : {A : Type 0} → Bool → M W A → M W A
  with_client true call = call
  with_client false call = panicking "null client"

  -- The status of the removal is dropped.
  unfoldable pub nfs_delete : Bool → List ℕ → M W ℕ
  unfolding with_client
  nfs_delete connected name =
      on_server
        (λ server path.
          attempt (with_client connected (delete m io depth path)) >>= λ s. pure sqlite_ok)
        (server_and_path name)

  found : Status → ℕ
  found (done x) = 1
  found (error e) = 0

  -- `exists` on the path, as 1 or 0.
  unfoldable pub look_up : Bool → List ℕ → M W (ℕ × Option ℕ)
  unfolding found with_client
  look_up connected name =
      on_server
        (λ server path. attempt (with_client connected (exists m io depth path)) >>= λ s.
          pure (sqlite_ok, some (found s)))
        (server_and_path name)

  -- The result code and `*pResOut`; `none` where it is not stored to.
  unfoldable pub nfs_access : Bool → List ℕ → ℕ → M W (ℕ × Option ℕ)
  nfs_access connected name flags =
      if flags == access_exists
      then look_up connected name
      else if flags == access_readwrite
      then pure (sqlite_ok, some 1)
      else pure (sqlite_ok, none)
