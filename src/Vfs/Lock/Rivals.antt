-- ===== src/Vfs/Lock/Rivals.antt =====
-- nfsv4/nfs4.c: two clients that lock the same file on one server, as a relation of steps.
use ssqlite.Prelude.{ℕ, suc, ◌≡◌}
use ssqlite.File.Access.{lock_range, unlock_range}
use ssqlite.System.{M, Machine, Sys, ok}
use ssqlite.Vfs.Base.{SqlFile, sqlite_ok}
use ssqlite.Vfs.Lock.{lock, unlock}
use ssqlite.Vfs.Lock.Exchange.{Conversation, lock_calls, unlock_calls}
use ssqlite.Vfs.Lock.Held.{Held, Level, level_code}

-- What a client runs on, and the locks that the server has for it.
pub record Station (W : Type 0) : Type 0 where
  pub machine : Machine W
  pub io : ℕ
  pub depth : ℕ
  pub held : W → Held

-- Each client has its file and its own state, memory included; the world has the server.
pub record Pair (W : Type 0) : Type 0 where
  pub first : SqlFile
  pub second : SqlFile
  pub one : Sys W
  pub two : Sys W
  pub world : W

module _ {W : Type 0} (v : Station W) where
  abbrev pub lock_at : Level → SqlFile → M W (SqlFile × ℕ)
  lock_at to =
      lock (lock_range v.machine v.io (suc v.depth)) (unlock_range v.machine v.io (suc v.depth))
        (level_code to)

  abbrev pub unlock_at : Level → SqlFile → M W (SqlFile × ℕ)
  unlock_at to =
      unlock (lock_range v.machine v.io (suc v.depth)) (unlock_range v.machine v.io (suc v.depth))
        (level_code to)

  -- Each request of the way up or down from the level of the file is granted or refused.
  abbrev pub LockServed : Level → SqlFile → Sys W → Type 0
  LockServed to sf s =
      (l : Level)
      → sf.file_lock ≡ level_code l
      → Conversation v.machine v.io v.depth v.held (lock_calls l to) sf.f s

  abbrev pub UnlockServed : Level → SqlFile → Sys W → Type 0
  UnlockServed to sf s =
      (l : Level)
      → sf.file_lock ≡ level_code l
      → Conversation v.machine v.io v.depth v.held (unlock_calls l to) sf.f s

-- The state of a client in the world as it stands.
abbrev pub now : {W : Type 0} → Sys W → W → Sys W
now s w = record s { world = w }

module _ {W : Type 0} (v u : Station W) where
  -- Either client calls `nfs4Lock` or `nfs4Unlock` for any level, its requests are answered, and
  -- the server leaves the locks of the other client. A lock may be refused.
  pub data Step (p : Pair W) : Pair W → Type 0 where
    first_lock :
        (to : Level) {sf : SqlFile} {rc : ℕ} {s : Sys W}
        → LockServed v to p.first (now p.one p.world)
        → lock_at v to p.first (now p.one p.world) ≡ (ok (sf, rc), s)
        → u.held s.world ≡ u.held p.world
        → Step p (record p { first = sf; one = s; world = s.world })
    second_lock :
        (to : Level) {sf : SqlFile} {rc : ℕ} {s : Sys W}
        → LockServed u to p.second (now p.two p.world)
        → lock_at u to p.second (now p.two p.world) ≡ (ok (sf, rc), s)
        → v.held s.world ≡ v.held p.world
        → Step p (record p { second = sf; two = s; world = s.world })
    first_unlock :
        (to : Level) {sf : SqlFile} {s : Sys W}
        → UnlockServed v to p.first (now p.one p.world)
        → unlock_at v to p.first (now p.one p.world) ≡ (ok (sf, sqlite_ok), s)
        → u.held s.world ≡ u.held p.world
        → Step p (record p { first = sf; one = s; world = s.world })
    second_unlock :
        (to : Level) {sf : SqlFile} {s : Sys W}
        → UnlockServed u to p.second (now p.two p.world)
        → unlock_at u to p.second (now p.two p.world) ≡ (ok (sf, sqlite_ok), s)
        → v.held s.world ≡ v.held p.world
        → Step p (record p { second = sf; two = s; world = s.world })

  pub data Reach (p : Pair W) : Pair W → Type 0 where
    initial : Reach p p
    later : {q t : Pair W} → Reach p q → Step q t → Reach p t
