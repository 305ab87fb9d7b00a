-- ===== src/Vfs/Registration.antt =====
-- nfsv4/nfs4.c: the extension's entry point, and the methods that call the VFS that was the
-- default before.
use ssqlite.Prelude.{
  ℕ, zero, suc, ◌≡◌, refl, Bool, false, List, String, Option, none, some, ◌==◌, if◌then◌else◌,
}
use ssqlite.System.{Client, Machine}
use ssqlite.Rpc.Config.{config_boolean}
use ssqlite.Vfs.Base.{sqlite_ok}

-- The VFS that SQLite had as its default, and the one of this extension, `nfs4_vfs`.
pub data Vfs : Type 0 where
  default_vfs nfs4_vfs : Vfs

-- What the extension asks of SQLite, and the methods of the default VFS. A pointer is a number;
-- what a method stores through a pointer stands beside its result.
pub record Sqlite (W : Type 0) : Type 0 where
  -- `sqlite3_vfs_find(0)`
  pub vfs_find : W → Vfs
  -- `sqlite3_vfs_register(&nfs4_vfs, 1)`
  pub vfs_register : W → ℕ × W
  -- `sqlite3_snprintf(n, out, "%s", path)`
  pub snprintf : ℕ → List ℕ → List ℕ
  pub dl_open : List ℕ → W → ℕ × W
  pub dl_error : ℕ → W → List ℕ × W
  pub dl_sym : ℕ → List ℕ → W → ℕ × W
  pub dl_close : ℕ → W → Unit {0} × W
  pub randomness : ℕ → W → (ℕ × List ℕ) × W
  pub sleep : ℕ → W → ℕ × W
  pub current_time : W → (ℕ × ℕ) × W
  pub current_time_int64 : W → (ℕ × ℕ) × W

-- `struct appd`; `current_error` is never used.
pub record Appd : Type 0 where
  pub parent : Vfs
  pub c : Option Client
  pub trace : Bool

-- The fields of `nfs4_vfs` that are not methods; its size is that of `struct sqlfile`.
pub record VfsTable : Type 0 where
  pub version : ℕ
  pub os_file_size : ℕ
  pub max_pathname : ℕ
  pub next : Vfs
  pub name : String
  pub app_data : Appd

abbrev pub sqlite_ok_load_permanently : ℕ
sqlite_ok_load_permanently = 256

module _ {W : Type 0} (m : Machine W) (q : Sqlite W) (sqlfile_size : ℕ) where
  unfoldable pub sqlite3_nfs_init : W → (ℕ × VfsTable) × W
  sqlite3_nfs_init w =
      let ad : Appd = record {
        parent = q.vfs_find w;
        c = none;
        trace = config_boolean m "NFS_TRACE" false;
      } in
      let table : VfsTable = record {
        version = 2;
        os_file_size = sqlfile_size;
        max_pathname = 1024;
        next = q.vfs_find w;
        name = "nfs4";
        app_data = ad;
      } in
      let (rc, w') = q.vfs_register w in
      ((if rc == sqlite_ok then sqlite_ok_load_permanently else rc, table), w')

module _ {W : Type 0} where
  -- `ORIGVFS(pVfs)->x(ORIGVFS(pVfs), …)`. The method of `nfs4_vfs` makes the same call again.
  -- `fuel` bounds the depth of the calls.
  unfoldable pub orig_vfs : {A : Type 0} → ℕ → Vfs → (W → A × W) → W → Option (A × W)
  orig_vfs zero parent x w = none
  orig_vfs (suc fuel) default_vfs x w = some (x w)
  orig_vfs (suc fuel) nfs4_vfs x w = orig_vfs fuel nfs4_vfs x w

module _ {W : Type 0} (q : Sqlite W) (fuel : ℕ) (ad : Appd) where
  unfoldable pub nfs_dl_open : List ℕ → W → Option (ℕ × W)
  nfs_dl_open path = orig_vfs fuel ad.parent (q.dl_open path)

  unfoldable pub nfs_dl_error : ℕ → W → Option (List ℕ × W)
  nfs_dl_error n = orig_vfs fuel ad.parent (q.dl_error n)

  unfoldable pub nfs_dl_sym : ℕ → List ℕ → W → Option (ℕ × W)
  nfs_dl_sym p symbol = orig_vfs fuel ad.parent (q.dl_sym p symbol)

  unfoldable pub nfs_dl_close : ℕ → W → Option (Unit {0} × W)
  nfs_dl_close handle = orig_vfs fuel ad.parent (q.dl_close handle)

  unfoldable pub nfs_randomness : ℕ → W → Option ((ℕ × List ℕ) × W)
  nfs_randomness n = orig_vfs fuel ad.parent (q.randomness n)

  unfoldable pub nfs_sleep : ℕ → W → Option (ℕ × W)
  nfs_sleep micro = orig_vfs fuel ad.parent (q.sleep micro)

  unfoldable pub nfs_current_time : W → Option ((ℕ × ℕ) × W)
  nfs_current_time = orig_vfs fuel ad.parent q.current_time

  unfoldable pub nfs_current_time_int64 : W → Option ((ℕ × ℕ) × W)
  nfs_current_time_int64 = orig_vfs fuel ad.parent q.current_time_int64

-- The result code and the path.
unfoldable pub nfs_full_pathname : {W : Type 0} → Sqlite W → List ℕ → ℕ → ℕ × List ℕ
nfs_full_pathname q path n = (sqlite_ok, q.snprintf n path)

unfoldable pub nfs_get_last_error : ℕ
nfs_get_last_error = sqlite_ok

module _ {W : Type 0} where
  own_parent : {A : Type 0} (fuel : ℕ) (x : W → A × W) (w : W) → orig_vfs fuel nfs4_vfs x w ≡ none
  unfolding orig_vfs
  own_parent zero x w = refl
  own_parent (suc fuel) x w = own_parent fuel x w

module _ {W : Type 0} (q : Sqlite W) (ad : Appd) where
  -- The eight methods that go to the other VFS, on given arguments, none of which ends within the
  -- fuel.
  abbrev pub NoneEnds : ℕ → List ℕ → ℕ → W → Type 0
  NoneEnds fuel path n w =
      (nfs_dl_open q fuel ad path w ≡ none)
      × (nfs_dl_error q fuel ad n w ≡ none)
      × (nfs_dl_sym q fuel ad n path w ≡ none)
      × (nfs_dl_close q fuel ad n w ≡ none)
      × (nfs_randomness q fuel ad n w ≡ none)
      × (nfs_sleep q fuel ad n w ≡ none)
      × (nfs_current_time q fuel ad w ≡ none)
      × (nfs_current_time_int64 q fuel ad w ≡ none)

  -- As above, each the method of the default VFS.
  abbrev pub AllForward : ℕ → List ℕ → ℕ → W → Type 0
  AllForward fuel path n w =
      (nfs_dl_open q fuel ad path w ≡ some (q.dl_open path w))
      × (nfs_dl_error q fuel ad n w ≡ some (q.dl_error n w))
      × (nfs_dl_sym q fuel ad n path w ≡ some (q.dl_sym n path w))
      × (nfs_dl_close q fuel ad n w ≡ some (q.dl_close n w))
      × (nfs_randomness q fuel ad n w ≡ some (q.randomness n w))
      × (nfs_sleep q fuel ad n w ≡ some (q.sleep n w))
      × (nfs_current_time q fuel ad w ≡ some (q.current_time w))
      × (nfs_current_time_int64 q fuel ad w ≡ some (q.current_time_int64 w))

module _ {W : Type 0} (m : Machine W) (q : Sqlite W) (size : ℕ) where
  -- If another VFS is the default when `sqlite3_nfs_init` runs, then all eight methods that go to
  -- the VFS of before end with that VFS's own result and effect, at any fuel above 0.
  pub init_once-AllForward :
      (w0 : W) (fuel : ℕ) (path : List ℕ) (n : ℕ) (w : W)
      → q.vfs_find w0 ≡ default_vfs
      → AllForward q (sqlite3_nfs_init m q size w0).0.1.app_data (suc fuel) path n w
  unfolding sqlite3_nfs_init orig_vfs nfs_dl_open nfs_dl_error nfs_dl_sym nfs_dl_close
      nfs_randomness nfs_sleep nfs_current_time nfs_current_time_int64
  init_once-AllForward w0 fuel path n w e = rw e (refl, refl, refl, refl, refl, refl, refl, refl)

  -- If `sqlite3_vfs_register` makes `nfs4_vfs` the default where it succeeds, and does so in a
  -- first run of `sqlite3_nfs_init`, then after a second run none of the eight methods that go to
  -- the VFS of before ends: they use up any fuel.
  pub init_twice-NoneEnds :
      (w0 : W) (fuel : ℕ) (path : List ℕ) (n : ℕ) (w : W)
      → ((v : W) → (q.vfs_register v).0 ≡ sqlite_ok → q.vfs_find (q.vfs_register v).1 ≡ nfs4_vfs)
      → (q.vfs_register w0).0 ≡ sqlite_ok
      → NoneEnds q
          (sqlite3_nfs_init m q size (sqlite3_nfs_init m q size w0).1).0.1.app_data
          fuel
          path
          n
          w
  unfolding sqlite3_nfs_init nfs_dl_open nfs_dl_error nfs_dl_sym nfs_dl_close nfs_randomness
      nfs_sleep nfs_current_time nfs_current_time_int64
  init_twice-NoneEnds w0 fuel path n w makes_default success = rw (makes_default w0 success) (
    own_parent fuel (q.dl_open path) w,
    own_parent fuel (q.dl_error n) w,
    own_parent fuel (q.dl_sym n path) w,
    own_parent fuel (q.dl_close n) w,
    own_parent fuel (q.randomness n) w,
    own_parent fuel (q.sleep n) w,
    own_parent fuel q.current_time w,
    own_parent fuel q.current_time_int64 w,
  )
