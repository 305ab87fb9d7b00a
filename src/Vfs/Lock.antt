-- ===== src/Vfs/Lock.antt =====
-- nfsv4/nfs4.c, `nfs4Lock` and `nfs4Unlock`: the locks of SQLite as byte-range locks of a file.
-- The two calls on ranges are parameters here; Vfs/Methods and the theorems give those of the client.
pub mod Held
pub mod Exchange
pub mod Rules
pub mod Grant
pub mod Cover
pub mod Rivals
pub mod Exclusion
use ssqlite.Prelude.{ℕ, ◌+◌, ◌<◌, Bool, true, false, not, ◌&&◌, ◌||◌, ltb, leb, ◌==◌, if◌then◌else◌}
use ssqlite.System.{File, M, ◌>>◌, ◌>>=◌, pure, panicking}
use ssqlite.Vfs.Base.{SqlFile, sqlite_ok, guarded}

abbrev pub pending_byte : ℕ
pending_byte = 0x40000000

abbrev pub reserved_byte : ℕ
reserved_byte = pending_byte + 1

abbrev pub shared_first : ℕ
shared_first = pending_byte + 2

abbrev pub shared_size : ℕ
shared_size = 510

abbrev pub no_lock : ℕ
no_lock = 0

abbrev pub shared_lock : ℕ
shared_lock = 1

abbrev pub reserved_lock : ℕ
reserved_lock = 2

abbrev pub pending_lock : ℕ
pending_lock = 3

abbrev pub exclusive_lock : ℕ
exclusive_lock = 4

-- `READ_LT`, `WRITE_LT`
abbrev pub read_lt : ℕ
read_lt = 1

abbrev pub write_lt : ℕ
write_lt = 2

-- `assert`
abbrev pub check : {W A : Type 0} → Bool → M W A → M W A
check true next = next
check false next = panicking "assertion failed"

module _ {W : Type 0} (lock_range unlock_range : File → ℕ → ℕ → ℕ → M W File) where
  abbrev locking : ℕ → ℕ → ℕ → SqlFile → (SqlFile → M W (SqlFile × ℕ)) → M W (SqlFile × ℕ)
  locking l_type l_start l_len sf = guarded (lock_range sf.f l_type l_start l_len) sf

  abbrev unlocking : ℕ → ℕ → ℕ → SqlFile → (SqlFile → M W (SqlFile × ℕ)) → M W (SqlFile × ℕ)
  unlocking l_type l_start l_len sf = guarded (unlock_range sf.f l_type l_start l_len) sf

  -- `f->eFileLock = eFileLock; return SQLITE_OK`
  abbrev granted : ℕ → SqlFile → M W (SqlFile × ℕ)
  granted level sf = pure (record sf { file_lock = level }, sqlite_ok)

  -- The read lock, and the temporary PENDING lock dropped.
  unfoldable pub take_shared : SqlFile → M W (SqlFile × ℕ)
  take_shared sf =
      locking read_lt shared_first shared_size sf
        λ sf. unlocking read_lt pending_byte 1 sf (granted shared_lock)

  unfoldable pub take_reserved : SqlFile → M W (SqlFile × ℕ)
  take_reserved sf = locking write_lt reserved_byte 1 sf (granted reserved_lock)

  unfoldable pub take_exclusive : SqlFile → M W (SqlFile × ℕ)
  take_exclusive sf = locking write_lt shared_first shared_size sf (granted exclusive_lock)

  -- From the comment "If control gets to this point" on.
  unfoldable pub take_lock : ℕ → SqlFile → M W (SqlFile × ℕ)
  unfolding take_shared take_reserved take_exclusive
  take_lock level sf =
      if level == shared_lock
      then take_shared sf
      else check (not (sf.file_lock == 0)) (
          check (level == reserved_lock || level == exclusive_lock)
            (if level == reserved_lock then take_reserved sf else take_exclusive sf))

  -- Whether the PENDING lock comes first.
  abbrev pub needs_pending : ℕ → ℕ → Bool
  needs_pending level held =
      level == shared_lock || level == exclusive_lock && ltb held pending_lock

  unfoldable pub lock : ℕ → SqlFile → M W (SqlFile × ℕ)
  lock level sf =
      if leb level sf.file_lock
      then pure (sf, sqlite_ok)
      else check (not (sf.file_lock == no_lock) || level == shared_lock) (
          check (not (level == pending_lock)) (
            check (not (level == reserved_lock) || sf.file_lock == shared_lock) (
              if needs_pending level sf.file_lock
              then locking (if level == shared_lock then read_lt else write_lt) pending_byte 1 sf
                  (take_lock level)
              else take_lock level sf)))

  -- The end of `nfs4Unlock`.
  unfoldable pub drop_shared : ℕ → SqlFile → M W (SqlFile × ℕ)
  drop_shared level sf =
      if level == no_lock
      then unlocking read_lt shared_first shared_size sf (granted level)
      else granted level sf

  -- PENDING and RESERVED are one range of two bytes.
  unfoldable pub drop_writers : ℕ → SqlFile → M W (SqlFile × ℕ)
  drop_writers level sf = unlocking read_lt pending_byte 2 sf (drop_shared level)

  unfoldable pub unlock : ℕ → SqlFile → M W (SqlFile × ℕ)
  unlock level sf = check (leb level shared_lock) (
      if leb sf.file_lock level
      then pure (sf, sqlite_ok)
      else if ltb shared_lock sf.file_lock
      then (if level == shared_lock
          then locking read_lt shared_first shared_size sf (drop_writers level)
          else drop_writers level sf)
      else drop_shared level sf)
