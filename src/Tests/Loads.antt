-- ===== src/Tests/Loads.antt =====
-- The extension loaded once and twice.
use ssqlite.Prelude.{refl, true, false, Bool, [], ◌∷◌, none, if◌then◌else◌, replicate}
use ssqlite.System.{Machine}
use ssqlite.Vfs.Registration.{
  default_vfs, nfs4_vfs, Sqlite, sqlite3_nfs_init, NoneEnds, init_twice-NoneEnds,
}
use ssqlite.Tests.Data.{machine7}

-- The world is whether `nfs4_vfs` is registered.
abbrev sqlite7 : Sqlite Bool
sqlite7 = record {
  vfs_find = λ w. if w then nfs4_vfs else default_vfs;
  vfs_register = λ w. (0, true);
  snprintf = λ n path. path;
  dl_open = λ path w. (1, w);
  dl_error = λ n w. ([], w);
  dl_sym = λ p symbol w. (2, w);
  dl_close = λ handle w. (tt, w);
  randomness = λ n w. ((n, replicate n 4), w);
  sleep = λ micro w. (micro, w);
  current_time = λ w. ((0, 5), w);
  current_time_int64 = λ w. ((0, 6), w);
}

abbrev quiet : Machine Bool
quiet = machine7 (λ fd n w. (none, w))

init_twice-NoneEnds_example :
    NoneEnds sqlite7
      (sqlite3_nfs_init quiet sqlite7 400 (sqlite3_nfs_init quiet sqlite7 400 false).1).0.1.app_data
      50
      (b'a' ∷ [])
      8
      true
init_twice-NoneEnds_example =
    init_twice-NoneEnds quiet sqlite7 400 false 50 (b'a' ∷ []) 8 true (λ v e. refl) refl
