-- ===== src/Vfs/Base.antt =====
-- nfsv4/nfs4.c: the open file of SQLite, result codes, and the translation of a status.
use ssqlite.Prelude.{ℕ, Bool}
use ssqlite.System.{File, Tried, done, error, M, Sys, Outcome, ok, fail, panic, stuck}

-- `struct sqlfile` without the name, which only the trace prints, and without the client, which
-- is the system's. `f` holds what `malloc` left until the file is opened.
pub record SqlFile : Type 0 where
  pub f : File
  pub file_lock : ℕ
  pub powersafe : Bool
  pub readonly : Bool

abbrev pub sqlite_ok : ℕ
sqlite_ok = 0

abbrev pub sqlite_error : ℕ
sqlite_error = 1

abbrev pub sqlite_readonly : ℕ
sqlite_readonly = 8

abbrev pub sqlite_notfound : ℕ
sqlite_notfound = 12

abbrev pub sqlite_cantopen : ℕ
sqlite_cantopen = 14

unfoldable pub translate_status {ℓ} : {A : Type ℓ} → Tried A → ℕ
translate_status (done _) = sqlite_ok
translate_status (error _) = sqlite_error

-- `st = …; if (!is_ok(st)) return translate_status(ad, st);`, once the call has ended.
unfoldable pub resume :
    {W : Type 0}
    → SqlFile
    → (SqlFile → M W (SqlFile × ℕ))
    → Outcome File × Sys W
    → Outcome (SqlFile × ℕ) × Sys W
unfolding translate_status
resume sf next (ok f, s) = next (record sf { f = f }) s
resume sf next (fail e, s) = (ok (sf, translate_status {A = File} (error e)), s)
resume sf next (panic e, s) = (panic e, s)
resume sf next (stuck, s) = (stuck, s)

unfoldable pub guarded :
    {W : Type 0} → M W File → SqlFile → (SqlFile → M W (SqlFile × ℕ)) → M W (SqlFile × ℕ)
guarded call sf next s = resume sf next (call s)
