-- ===== src/Vfs/Methods.antt =====
-- nfsv4/nfs4.c, `nfs4_io_methods` and the methods of `nfs4_vfs`: what SQLite calls.
use ssqlite.Prelude.{ℕ, suc, ◌+◌, ◌^◌, ◌<◌, ◌≤◌, ◌≡◌, sym, ap, ◌∙◌, Bool, List, Option, none}
use ssqlite.Prelude.Memory.{Block, slice}
use ssqlite.File.Access.{lock_range, unlock_range, writefile, readfile}
use ssqlite.File.Segment.Chunks.{chunks}
use ssqlite.File.Whole.{Serves}
use ssqlite.File.Written.{StoresAll, writefile-Filled}
use ssqlite.File.Roundtrip.{readfile-writefile}
use ssqlite.System.{
  Client, File, Machine, M, Sys, ok, pure, ◌>>=◌, then_do, then-ok, tried, attempt,
}
use ssqlite.Vfs.Base.{SqlFile}
use ssqlite.Vfs.Files.{
  Stored, close, nfs_read, nfs_write, truncate, sync, nfs_file_size, check_reserved_lock,
  file_control, sector_size, device_characteristics, shm_map, shm_lock, shm_barrier, shm_unmap,
  nfs_fetch, unfetch, nfs_open, nfs_delete, nfs_access,
}
use ssqlite.Vfs.Lock.{lock, unlock}
use ssqlite.Vfs.Registration.{
  Appd, Sqlite, nfs_full_pathname, nfs_dl_open, nfs_dl_error, nfs_dl_sym, nfs_dl_close,
  nfs_randomness, nfs_sleep, nfs_current_time, nfs_get_last_error, nfs_current_time_int64,
}

-- `sqlite3_io_methods`, as the methods are modelled.
pub record IoMethods (W : Type 0) : Type 0 where
  pub version : ℕ
  pub x_close : SqlFile → ℕ
  pub x_read : SqlFile → ℕ → ℕ → ℕ → M W (Option ℕ)
  pub x_write : SqlFile → ℕ → ℕ → ℕ → M W (Option ℕ)
  pub x_truncate : SqlFile → ℕ → ℕ
  pub x_sync : SqlFile → ℕ → ℕ
  pub x_file_size : SqlFile → M W (ℕ × Option ℕ)
  pub x_lock : ℕ → SqlFile → M W (SqlFile × ℕ)
  pub x_unlock : ℕ → SqlFile → M W (SqlFile × ℕ)
  pub x_check_reserved_lock : SqlFile → ℕ × ℕ
  pub x_file_control : SqlFile → ℕ → ℕ × Stored
  pub x_sector_size : SqlFile → ℕ
  pub x_device_characteristics : SqlFile → ℕ
  pub x_shm_map : SqlFile → ℕ
  pub x_shm_lock : SqlFile → ℕ
  pub x_shm_barrier : SqlFile → Unit {0}
  pub x_shm_unmap : SqlFile → ℕ
  pub x_fetch : SqlFile → ℕ → ℕ → ℕ → M W (Option ℕ)
  pub x_unfetch : SqlFile → ℕ

-- `sqlite3_vfs`, its methods; the application's data stand for the VFS that is given to them, and
-- the Boolean of the first three for whether they have a client.
pub record VfsMethods (W : Type 0) : Type 0 where
  pub x_open : Bool → Client → File → SqlFile → List ℕ → ℕ → M W (SqlFile × ℕ)
  pub x_delete : Bool → List ℕ → M W ℕ
  pub x_access : Bool → List ℕ → ℕ → M W (ℕ × Option ℕ)
  pub x_full_pathname : List ℕ → ℕ → ℕ × List ℕ
  pub x_dl_open : Appd → List ℕ → W → Option (ℕ × W)
  pub x_dl_error : Appd → ℕ → W → Option (List ℕ × W)
  pub x_dl_sym : Appd → ℕ → List ℕ → W → Option (ℕ × W)
  pub x_dl_close : Appd → ℕ → W → Option (Unit {0} × W)
  pub x_randomness : Appd → ℕ → W → Option ((ℕ × List ℕ) × W)
  pub x_sleep : Appd → ℕ → W → Option (ℕ × W)
  pub x_current_time : Appd → W → Option ((ℕ × ℕ) × W)
  pub x_get_last_error : ℕ
  pub x_current_time_int64 : Appd → W → Option ((ℕ × ℕ) × W)

module _ {W : Type 0} (m : Machine W) (io depth : ℕ) where
  -- The locks are those of the client; `fuel` is that of the transfers.
  unfoldable pub nfs4_io_methods : ℕ → (List ℕ → List ℕ) → IoMethods W
  nfs4_io_methods fuel mprintf = record {
    version = 3;
    x_close = close;
    x_read = nfs_read m io depth fuel;
    x_write = nfs_write m io depth fuel;
    x_truncate = truncate;
    x_sync = sync;
    x_file_size = nfs_file_size m io depth;
    x_lock = lock (lock_range m io depth) (unlock_range m io depth);
    x_unlock = unlock (lock_range m io depth) (unlock_range m io depth);
    x_check_reserved_lock = check_reserved_lock;
    x_file_control = file_control mprintf;
    x_sector_size = sector_size;
    x_device_characteristics = device_characteristics;
    x_shm_map = shm_map;
    x_shm_lock = shm_lock;
    x_shm_barrier = shm_barrier;
    x_shm_unmap = shm_unmap;
    x_fetch = nfs_fetch m io depth fuel;
    x_unfetch = unfetch;
  }

  -- `fuel` is that of the methods of the VFS of before.
  unfoldable pub nfs4_vfs_methods : Sqlite W → ℕ → VfsMethods W
  nfs4_vfs_methods q fuel = record {
    x_open = nfs_open m io depth;
    x_delete = nfs_delete m io depth;
    x_access = nfs_access m io depth;
    x_full_pathname = nfs_full_pathname q;
    x_dl_open = nfs_dl_open q fuel;
    x_dl_error = nfs_dl_error q fuel;
    x_dl_sym = nfs_dl_sym q fuel;
    x_dl_close = nfs_dl_close q fuel;
    x_randomness = nfs_randomness q fuel;
    x_sleep = nfs_sleep q fuel;
    x_current_time = nfs_current_time q fuel;
    x_get_last_error = nfs_get_last_error;
    x_current_time_int64 = nfs_current_time_int64 q fuel;
  }

module _ {W : Type 0} where
  -- A call whose status is dropped.
  abbrev no_code : M W (Unit {0}) → M W (Option ℕ)
  no_code call = attempt call >>= λ a. pure none

  no_code_of :
      (call : M W (Unit {0})) (s s' : Sys W) → call s ≡ (ok tt, s') → no_code call s ≡ (ok none, s')
  no_code_of call s s' e = ap (λ r. then_do (λ a. pure {A = Option ℕ} none) (tried r)) e

module _ {W : Type 0} (m : Machine W) (io depth : ℕ) (sf : SqlFile) (disk : W → Block) where
  -- In the table `nfs4_io_methods`, where each chunk of an `xWrite` is answered and all its bytes
  -- are stored, and each chunk of an `xRead` of the same stretch right after it is answered with
  -- the bytes that the file then has, with both negotiated limits above 0, a length below 2 ^ 32,
  -- an end of at most 2 ^ 64 and the fuel above the length: both methods end, `xRead` without a
  -- result code, and the caller's memory has at `dest` the bytes that it had at `source` before
  -- the write.
  pub x_read-x_write :
      (mprintf : List ℕ → List ℕ) (fuel source dest offset amount : ℕ) (s : Sys W)
      → 0 < s.client.maxreq
      → amount < 2 ^ 32
      → offset + amount ≤ 2 ^ 64
      → amount < fuel
      → StoresAll m io depth sf.f disk source offset (chunks amount s.client.maxreq 0 amount) s
      → 0 < (writefile m io (suc depth) fuel sf.f source offset amount s).1.client.maxresp
      → Serves m io depth sf.f
          (disk (writefile m io (suc depth) fuel sf.f source offset amount s).1.world)
          dest
          offset
          (chunks amount
            (writefile m io (suc depth) fuel sf.f source offset amount s).1.client.maxresp
            0
            amount)
          (writefile m io (suc depth) fuel sf.f source offset amount s).1
      → (s' : Sys W) × (((nfs4_io_methods m io (suc depth) fuel mprintf).x_write sf source amount
                offset
              >>= λ rc.
                  (nfs4_io_methods m io (suc depth) fuel mprintf).x_read sf dest amount offset)
            s
          ≡ (ok none, s'))
        × (slice s'.memory dest amount ≡ slice s.memory source amount)
  unfolding nfs4_io_methods nfs_read nfs_write
  x_read-x_write mprintf fuel source dest offset amount s pos small fits enough h pos' h' =
      let write = writefile m io (suc depth) fuel sf.f source offset amount in
      let read = readfile m io (suc depth) fuel sf.f dest offset amount in
      let (s1, written, kept, stored) =
        writefile-Filled m io depth sf.f disk fuel source offset amount s pos small fits enough h in
      let (s2, both, same) =
        readfile-writefile m io depth sf.f disk fuel source dest offset amount s pos small fits
          enough h pos' h' in
      (
        s2,
        ap (then_do (λ (rc : Option ℕ). no_code read)) (no_code_of write s s1 written)
            ∙ no_code_of read s1 s2
                (ap (λ r. read r.1) (sym written) ∙ sym (then-ok write read s s1 written) ∙ both),
        same,
      )
