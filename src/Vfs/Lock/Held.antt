-- ===== src/Vfs/Lock/Held.antt =====
-- The abstract view of the locks: the mode in which the file holds each byte on the server.
use ssqlite.Prelude.{ℕ, ◌+◌, ◌≡◌, ◌⊎◌, ◌≤◌, ltb, leb, ◌&&◌, ◌==◌, if◌then◌else◌}
use ssqlite.Vfs.Lock.{
  pending_byte, reserved_byte, shared_first, shared_size, no_lock, shared_lock, reserved_lock,
  exclusive_lock, read_lt,
}

pub data Mode : Type 0 where
  free read write : Mode

abbrev pub Held : Type 0
Held = ℕ → Mode

-- The mode asked for by a lock type of the protocol.
abbrev pub mode_of : ℕ → Mode
mode_of l_type = if l_type == read_lt then read else write

-- The range of `len` bytes from `start` on goes to `mode`.
abbrev pub claim : Mode → ℕ → ℕ → Held → Held
claim mode start len h j = if leb start j && ltb j (start + len) then mode else h j

-- The levels of SQLite that a file can be at; PENDING is only ever passed through.
pub data Level : Type 0 where
  none shared reserved exclusive : Level

abbrev pub level_code : Level → ℕ
level_code none = no_lock
level_code shared = shared_lock
level_code reserved = reserved_lock
level_code exclusive = exclusive_lock

abbrev pub in_shared : ℕ → Mode → Mode
in_shared j mode = if leb shared_first j && ltb j (shared_first + shared_size) then mode else free

-- What a file at a level holds.
abbrev pub mode_at : Level → Held
mode_at none j = free
mode_at shared j = in_shared j read
mode_at reserved j = if j == reserved_byte then write else in_shared j read
mode_at exclusive j = if j == pending_byte then write else in_shared j write

-- EXCLUSIVE may be reached with or without RESERVED.
abbrev pub Consistent : Level → Held → Type 0
Consistent exclusive h = (j : ℕ) → (j ≡ reserved_byte) ⊎ (h j ≡ mode_at exclusive j)
Consistent l h = (j : ℕ) → h j ≡ mode_at l j

abbrev pub mode_rank : Mode → ℕ
mode_rank free = 0
mode_rank read = 1
mode_rank write = 2

-- At least what a level wants is held.
abbrev pub Covers : Level → Held → Type 0
Covers l h = (j : ℕ) → mode_rank (mode_at l j) ≤ mode_rank (h j)
