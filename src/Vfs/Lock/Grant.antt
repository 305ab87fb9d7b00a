-- ===== src/Vfs/Lock/Grant.antt =====
-- nfsv4/nfs4.c: `nfs4Lock` and `nfs4Unlock` against the level of a file and what it holds.
use ssqlite.Prelude.{ℕ, suc, [], ◌∷◌, ◌≤◌, ◌<◌, ◌+◌, ◌≡◌, ◌⊎◌, inl, inr, refl, arith}
use ssqlite.File.Access.{lock_range, unlock_range}
use ssqlite.Vfs.Lock.Exchange.{Conversation, lock_calls, unlock_calls, locks, unlocks}
use ssqlite.System.{Machine, Sys}
use ssqlite.Vfs.Base.{SqlFile, guarded}
use ssqlite.Vfs.Lock.{
  lock, unlock, take_lock, drop_shared, drop_writers, pending_byte, reserved_byte, shared_first,
  shared_size, no_lock, shared_lock, reserved_lock, exclusive_lock, read_lt, write_lt,
}
use ssqlite.Vfs.Lock.Held.{
  Held, free, Level, none, shared, reserved, exclusive, level_code, mode_at, Consistent,
}
use ssqlite.Vfs.Lock.Rules.{Ends, Lowers, Raises, MayAsk, higher, lower, here, at, call_rule}

module _ {W : Type 0} (m : Machine W) (io depth : ℕ) (held : W → Held) where
  lock_none_shared :
      (sf : SqlFile) (s : Sys W)
      → Consistent none (held s.world)
      → Conversation m io depth held (lock_calls none shared) sf.f s
      → Ends (Raises held none shared) (
          lock
            (lock_range m io (suc depth))
            (unlock_range m io (suc depth))
            shared_lock
            (at none sf)
            s)
  unfolding lock take_lock
  lock_none_shared sf s c k =
      call_rule m io depth held P _ _ s (locks read_lt pending_byte 1)
        (locks read_lt shared_first shared_size ∷ unlocks read_lt pending_byte 1 ∷ []) k
        (λ s' h. inr (refl, refl, λ j. omega arith))
        λ f1 s1 k1 h1.
          call_rule m io depth held P _ _ s1 (locks read_lt shared_first shared_size)
            (unlocks read_lt pending_byte 1 ∷ []) k1 (λ s' h. inr (refl, refl, λ j. omega arith))
            λ f2 s2 k2 h2.
              call_rule m io depth held P _ _ s2 (unlocks read_lt pending_byte 1) [] k2
                (λ s' h. inr (refl, refl, λ j. omega arith))
                λ f3 s3 k3 h3.
                  inl (refl, refl, λ j. ground (arith, c j, here j h1, here j h2, here j h3))
    where
      P : SqlFile → ℕ → Sys W → Type 0
      P = Raises held none shared

  lock_shared_reserved :
      (sf : SqlFile) (s : Sys W)
      → Consistent shared (held s.world)
      → Conversation m io depth held (lock_calls shared reserved) sf.f s
      → Ends (Raises held shared reserved) (
          lock
            (lock_range m io (suc depth))
            (unlock_range m io (suc depth))
            reserved_lock
            (at shared sf)
            s)
  unfolding lock take_lock
  lock_shared_reserved sf s c k =
      call_rule m io depth held (Raises held shared reserved) _ _ s (locks write_lt reserved_byte 1)
        [] k (λ s' h. inr (refl, refl, λ j. ground (arith, c j, h j)))
        λ f1 s1 k1 h1. inl (refl, refl, λ j. ground (arith, c j, here j h1))

  lock_shared_exclusive :
      (sf : SqlFile) (s : Sys W)
      → Consistent shared (held s.world)
      → Conversation m io depth held (lock_calls shared exclusive) sf.f s
      → Ends (Raises held shared exclusive) (
          lock
            (lock_range m io (suc depth))
            (unlock_range m io (suc depth))
            exclusive_lock
            (at shared sf)
            s)
  unfolding lock take_lock
  lock_shared_exclusive sf s c k =
      call_rule m io depth held P _ _ s (locks write_lt pending_byte 1)
        (locks write_lt shared_first shared_size ∷ []) k
        (λ s' h. inr (refl, refl, λ j. ground (arith, c j, h j)))
        λ f1 s1 k1 h1.
          call_rule m io depth held P _ _ s1 (locks write_lt shared_first shared_size) [] k1
            (λ s' h. inr (refl, refl, λ j. ground (arith, c j, here j h1, h j)))
            λ f2 s2 k2 h2. inl (refl, refl, λ j. ground (arith, c j, here j h1, here j h2))
    where
      P : SqlFile → ℕ → Sys W → Type 0
      P = Raises held shared exclusive

  lock_reserved_exclusive :
      (sf : SqlFile) (s : Sys W)
      → Consistent reserved (held s.world)
      → Conversation m io depth held (lock_calls reserved exclusive) sf.f s
      → Ends (Raises held reserved exclusive) (
          lock
            (lock_range m io (suc depth))
            (unlock_range m io (suc depth))
            exclusive_lock
            (at reserved sf)
            s)
  unfolding lock take_lock
  lock_reserved_exclusive sf s c k =
      call_rule m io depth held P _ _ s (locks write_lt pending_byte 1)
        (locks write_lt shared_first shared_size ∷ []) k
        (λ s' h. inr (refl, refl, λ j. ground (arith, c j, h j)))
        λ f1 s1 k1 h1.
          call_rule m io depth held P _ _ s1 (locks write_lt shared_first shared_size) [] k1
            (λ s' h. inr (refl, refl, λ j. ground (arith, c j, here j h1, h j)))
            λ f2 s2 k2 h2. inl (refl, refl, λ j. ground (arith, c j, here j h1, here j h2))
    where
      P : SqlFile → ℕ → Sys W → Type 0
      P = Raises held reserved exclusive

  -- For a file at a level that holds on the server what the level wants, and a request that SQLite
  -- may make (nothing above SHARED while the file holds nothing), where each LOCK and LOCKU on the
  -- way is granted, refused, or lost with its effect or without, `nfs4Lock` with the client's
  -- `lock_range` and `unlock_range` returns: either SQLITE_OK at the higher of the two levels,
  -- holding what that level wants, or SQLITE_ERROR at the old level, still holding at least what
  -- the old level wants.
  pub lock-Raises :
      (from to : Level) (sf : SqlFile) (s : Sys W)
      → MayAsk from to
      → Consistent from (held s.world)
      → Conversation m io depth held (lock_calls from to) sf.f s
      → Ends (Raises held from (higher from to)) (
          lock
            (lock_range m io (suc depth))
            (unlock_range m io (suc depth))
            (level_code to)
            (at from sf)
            s)
  unfolding lock
  lock-Raises none none sf s a c k = inl (refl, refl, c)
  lock-Raises none shared sf s a c k = lock_none_shared sf s c k
  lock-Raises none reserved sf s a c k = absurd a
  lock-Raises none exclusive sf s a c k = absurd a
  lock-Raises shared none sf s a c k = inl (refl, refl, c)
  lock-Raises shared shared sf s a c k = inl (refl, refl, c)
  lock-Raises shared reserved sf s a c k = lock_shared_reserved sf s c k
  lock-Raises shared exclusive sf s a c k = lock_shared_exclusive sf s c k
  lock-Raises reserved none sf s a c k = inl (refl, refl, c)
  lock-Raises reserved shared sf s a c k = inl (refl, refl, c)
  lock-Raises reserved reserved sf s a c k = inl (refl, refl, c)
  lock-Raises reserved exclusive sf s a c k = lock_reserved_exclusive sf s c k
  lock-Raises exclusive none sf s a c k = inl (refl, refl, c)
  lock-Raises exclusive shared sf s a c k = inl (refl, refl, c)
  lock-Raises exclusive reserved sf s a c k = inl (refl, refl, c)
  lock-Raises exclusive exclusive sf s a c k = inl (refl, refl, c)

  unlock_shared_none :
      (sf : SqlFile) (s : Sys W)
      → Consistent shared (held s.world)
      → Conversation m io depth held (unlock_calls shared none) sf.f s
      → Ends (Lowers held shared none) (
          unlock
            (lock_range m io (suc depth))
            (unlock_range m io (suc depth))
            no_lock
            (at shared sf)
            s)
  unfolding unlock drop_shared
  unlock_shared_none sf s c k =
      call_rule m io depth held (Lowers held shared none) _ _ s
        (unlocks read_lt shared_first shared_size) [] k (λ s' h. inr (refl, refl))
        λ f1 s1 k1 h1. inl (refl, refl, λ j. ground (arith, c j, here j h1))

  drop_writers_none :
      (from : Level) (sf : SqlFile) (s : Sys W)
      → sf.file_lock ≡ level_code from
      → ((j : ℕ) → (j < pending_byte) ⊎ (shared_first + shared_size ≤ j) → held s.world j ≡ free)
      → Conversation m io depth held (unlock_calls reserved none) sf.f s
      → Ends
          (Lowers held from none)
          (drop_writers (lock_range m io (suc depth)) (unlock_range m io (suc depth)) no_lock sf s)
  unfolding drop_writers drop_shared
  drop_writers_none from sf s e c k =
      call_rule m io depth held P _ _ s (unlocks read_lt pending_byte 2)
        (unlocks read_lt shared_first shared_size ∷ []) k (λ s' h. inr (refl, e))
        λ f1 s1 k1 h1.
          call_rule m io depth held P _ _ s1 (unlocks read_lt shared_first shared_size) [] k1
            (λ s' h. inr (refl, e))
            λ f2 s2 k2 h2. inl (refl, refl, λ j. ground (arith, c j, here j h1, here j h2))
    where
      P : SqlFile → ℕ → Sys W → Type 0
      P = Lowers held from none

  drop_writers_shared :
      (from : Level) (sf : SqlFile) (s : Sys W)
      → sf.file_lock ≡ level_code from
      → ((j : ℕ) → (j < pending_byte) ⊎ (shared_first ≤ j) → held s.world j ≡ mode_at shared j)
      → Conversation m io depth held (unlocks read_lt pending_byte 2 ∷ []) sf.f s
      → Ends (Lowers held from shared) (
          drop_writers
            (lock_range m io (suc depth))
            (unlock_range m io (suc depth))
            shared_lock
            sf
            s)
  unfolding drop_writers drop_shared
  drop_writers_shared from sf s e c k =
      call_rule m io depth held (Lowers held from shared) _ _ s (unlocks read_lt pending_byte 2) []
        k (λ s' h. inr (refl, e))
        λ f1 s1 k1 h1. inl (refl, refl, λ j. ground (arith, c j, here j h1))

  unlock_writer_shared :
      (from : Level) (sf : SqlFile) (s : Sys W)
      → ((j : ℕ) → (j < pending_byte) ⊎ (shared_first ≤ j) → held s.world j ≡ mode_at from j)
      → ((j : ℕ) → (j < pending_byte) ⊎ (shared_first + shared_size ≤ j) → mode_at from j ≡ free)
      → sf.file_lock ≡ level_code from
      → Conversation m io depth held (unlock_calls reserved shared) sf.f s
      → Ends (Lowers held from shared) (
          guarded
            (lock_range m io (suc depth) sf.f read_lt shared_first shared_size)
            sf
            (drop_writers (lock_range m io (suc depth)) (unlock_range m io (suc depth)) shared_lock)
            s)
  unlock_writer_shared from sf s c out e k =
      call_rule m io depth held (Lowers held from shared) sf _ s
        (locks read_lt shared_first shared_size) (unlocks read_lt pending_byte 2 ∷ []) k
        (λ s' h. inr (refl, e))
        λ f1 s1 k1 h1.
          drop_writers_shared from _ s1 e (λ j o. ground (arith, c j, out j, here j h1)) k1

  -- For a file at a level that holds on the server what the level wants, where each LOCK and LOCKU
  -- on the way is granted, refused, or lost with its effect or without, `nfs4Unlock` to SHARED or
  -- to no lock, with the client's `lock_range` and `unlock_range`, returns: either SQLITE_OK at
  -- the lower of the two levels, holding what that level wants, or SQLITE_ERROR at the old level.
  pub unlock-Lowers :
      (from to : Level) (sf : SqlFile) (s : Sys W)
      → level_code to ≤ shared_lock
      → Consistent from (held s.world)
      → Conversation m io depth held (unlock_calls from to) sf.f s
      → Ends (Lowers held from (lower from to)) (
          unlock
            (lock_range m io (suc depth))
            (unlock_range m io (suc depth))
            (level_code to)
            (at from sf)
            s)
  unfolding unlock drop_shared
  unlock-Lowers none none sf s a c k = inl (refl, refl, c)
  unlock-Lowers none shared sf s a c k = inl (refl, refl, c)
  unlock-Lowers shared none sf s a c k = unlock_shared_none sf s c k
  unlock-Lowers shared shared sf s a c k = inl (refl, refl, c)
  unlock-Lowers reserved none sf s a c k =
      drop_writers_none reserved _ s refl (λ j o. ground (arith, c j)) k
  unlock-Lowers reserved shared sf s a c k =
      unlock_writer_shared reserved _ s (λ j o. ground (arith, c j)) (λ j o. ground arith) refl k
  unlock-Lowers exclusive none sf s a c k =
      drop_writers_none exclusive _ s refl (λ j o. ground (arith, c j)) k
  unlock-Lowers exclusive shared sf s a c k =
      unlock_writer_shared exclusive _ s (λ j o. ground (arith, c j)) (λ j o. ground arith) refl k
  unlock-Lowers from reserved sf s a c k = absurd (omega arith)
  unlock-Lowers from exclusive sf s a c k = absurd (omega arith)
