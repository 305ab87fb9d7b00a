-- ===== src/Vfs/Lock/Cover.antt =====
-- nfsv4/nfs4.c: what a file at a level holds at least, over calls that are refused or granted.
use ssqlite.Prelude.{ℕ, suc, [], ◌∷◌, ◌≤◌, ◌≡◌, ◌⊎◌, inl, inr, refl, arith}
use ssqlite.File.Access.{lock_range, unlock_range}
use ssqlite.Vfs.Lock.Exchange.{Conversation, lock_calls, unlock_calls, locks, unlocks}
use ssqlite.System.{Machine, Sys, Outcome, ok, fail, panic, stuck}
use ssqlite.Vfs.Base.{SqlFile, sqlite_ok, sqlite_error, guarded}
use ssqlite.Vfs.Lock.{
  lock, unlock, take_lock, drop_shared, drop_writers, pending_byte, shared_first, shared_size,
  shared_lock, read_lt, write_lt, reserved_byte,
}
use ssqlite.Vfs.Lock.Held.{Held, Level, none, shared, reserved, exclusive, level_code, Covers}
use ssqlite.Vfs.Lock.Rules.{Ends, higher, lower, here, at, call_rule}

-- The call succeeds at `to` and covers it, or fails at `from` and covers `kept`.
abbrev pub Moves : {W : Type 0} → (W → Held) → Level → Level → Level → SqlFile → ℕ → Sys W → Type 0
Moves held from to kept sf rc s =
    ((rc ≡ sqlite_ok) × (sf.file_lock ≡ level_code to) × Covers to (held s.world))
    ⊎ ((rc ≡ sqlite_error) × (sf.file_lock ≡ level_code from) × Covers kept (held s.world))

-- As `Ends`, for a call that may also stop in an `assert`.
abbrev pub Yields :
    {W : Type 0} → (SqlFile → ℕ → Sys W → Type 0) → Outcome (SqlFile × ℕ) × Sys W → Type 0
Yields P (ok (sf, rc), s) = P sf rc s
Yields P (fail e, s) = ⊥
Yields P (panic e, s) = Unit
Yields P (stuck, s) = ⊥

Ends-Yields :
    {W : Type 0} (P : SqlFile → ℕ → Sys W → Type 0) (r : Outcome (SqlFile × ℕ) × Sys W)
    → Ends P r
    → Yields P r
Ends-Yields P (ok (sf, rc), s) h = h
Ends-Yields P (fail e, s) h = h
Ends-Yields P (panic e, s) h = tt
Ends-Yields P (stuck, s) h = h

module _ {W : Type 0} (m : Machine W) (io depth : ℕ) (held : W → Held) where
  none_to_shared :
      (sf : SqlFile) (s : Sys W)
      → Conversation m io depth held (lock_calls none shared) sf.f s
      → Ends (Moves held none shared none) (
          lock
            (lock_range m io (suc depth))
            (unlock_range m io (suc depth))
            shared_lock
            (at none sf)
            s)
  unfolding lock take_lock
  none_to_shared sf s k =
      call_rule m io depth held P _ _ s (locks read_lt pending_byte 1)
        (locks read_lt shared_first shared_size ∷ unlocks read_lt pending_byte 1 ∷ []) k
        (λ s' h. inr (refl, refl, λ j. omega arith))
        λ f1 s1 k1 h1.
          call_rule m io depth held P _ _ s1 (locks read_lt shared_first shared_size)
            (unlocks read_lt pending_byte 1 ∷ []) k1 (λ s' h. inr (refl, refl, λ j. omega arith))
            λ f2 s2 k2 h2.
              call_rule m io depth held P _ _ s2 (unlocks read_lt pending_byte 1) [] k2
                (λ s' h. inr (refl, refl, λ j. omega arith))
                λ f3 s3 k3 h3.
                  inl (refl, refl, λ j. ground (arith, here j h1, here j h2, here j h3))
    where
      P : SqlFile → ℕ → Sys W → Type 0
      P = Moves held none shared none

  shared_to_reserved :
      (sf : SqlFile) (s : Sys W)
      → Covers shared (held s.world)
      → Conversation m io depth held (lock_calls shared reserved) sf.f s
      → Ends (Moves held shared reserved shared) (
          lock
            (lock_range m io (suc depth))
            (unlock_range m io (suc depth))
            (level_code reserved)
            (at shared sf)
            s)
  unfolding lock take_lock
  shared_to_reserved sf s c k =
      call_rule m io depth held (Moves held shared reserved shared) _ _ s
        (locks write_lt reserved_byte 1) [] k
        (λ s' h. inr (refl, refl, λ j. ground (arith, c j, h j)))
        λ f1 s1 k1 h1. inl (refl, refl, λ j. ground (arith, c j, here j h1))

  shared_to_exclusive :
      (sf : SqlFile) (s : Sys W)
      → Covers shared (held s.world)
      → Conversation m io depth held (lock_calls shared exclusive) sf.f s
      → Ends (Moves held shared exclusive shared) (
          lock
            (lock_range m io (suc depth))
            (unlock_range m io (suc depth))
            (level_code exclusive)
            (at shared sf)
            s)
  unfolding lock take_lock
  shared_to_exclusive sf s c k =
      call_rule m io depth held P _ _ s (locks write_lt pending_byte 1)
        (locks write_lt shared_first shared_size ∷ []) k
        (λ s' h. inr (refl, refl, λ j. ground (arith, c j, h j)))
        λ f1 s1 k1 h1.
          call_rule m io depth held P _ _ s1 (locks write_lt shared_first shared_size) [] k1
            (λ s' h. inr (refl, refl, λ j. ground (arith, c j, here j h1, h j)))
            λ f2 s2 k2 h2. inl (refl, refl, λ j. ground (arith, c j, here j h1, here j h2))
    where
      P : SqlFile → ℕ → Sys W → Type 0
      P = Moves held shared exclusive shared

  reserved_to_exclusive :
      (sf : SqlFile) (s : Sys W)
      → Covers reserved (held s.world)
      → Conversation m io depth held (lock_calls reserved exclusive) sf.f s
      → Ends (Moves held reserved exclusive reserved) (
          lock
            (lock_range m io (suc depth))
            (unlock_range m io (suc depth))
            (level_code exclusive)
            (at reserved sf)
            s)
  unfolding lock take_lock
  reserved_to_exclusive sf s c k =
      call_rule m io depth held P _ _ s (locks write_lt pending_byte 1)
        (locks write_lt shared_first shared_size ∷ []) k
        (λ s' h. inr (refl, refl, λ j. ground (arith, c j, h j)))
        λ f1 s1 k1 h1.
          call_rule m io depth held P _ _ s1 (locks write_lt shared_first shared_size) [] k1
            (λ s' h. inr (refl, refl, λ j. ground (arith, c j, here j h1, h j)))
            λ f2 s2 k2 h2. inl (refl, refl, λ j. ground (arith, c j, here j h1, here j h2))
    where
      P : SqlFile → ℕ → Sys W → Type 0
      P = Moves held reserved exclusive reserved

  pub lock-Covers :
      (from to : Level) (sf : SqlFile) (s : Sys W)
      → Covers from (held s.world)
      → Conversation m io depth held (lock_calls from to) sf.f s
      → Yields (Moves held from (higher from to) from) (
          lock
            (lock_range m io (suc depth))
            (unlock_range m io (suc depth))
            (level_code to)
            (at from sf)
            s)
  unfolding lock
  lock-Covers none none sf s c k = inl (refl, refl, c)
  lock-Covers none shared sf s c k =
      Ends-Yields (Moves held none shared none) _ (none_to_shared sf s k)
  lock-Covers none reserved sf s c k = tt
  lock-Covers none exclusive sf s c k = tt
  lock-Covers shared none sf s c k = inl (refl, refl, c)
  lock-Covers shared shared sf s c k = inl (refl, refl, c)
  lock-Covers shared reserved sf s c k =
      Ends-Yields (Moves held shared reserved shared) _ (shared_to_reserved sf s c k)
  lock-Covers shared exclusive sf s c k =
      Ends-Yields (Moves held shared exclusive shared) _ (shared_to_exclusive sf s c k)
  lock-Covers reserved none sf s c k = inl (refl, refl, c)
  lock-Covers reserved shared sf s c k = inl (refl, refl, c)
  lock-Covers reserved reserved sf s c k = inl (refl, refl, c)
  lock-Covers reserved exclusive sf s c k =
      Ends-Yields (Moves held reserved exclusive reserved) _ (reserved_to_exclusive sf s c k)
  lock-Covers exclusive none sf s c k = inl (refl, refl, c)
  lock-Covers exclusive shared sf s c k = inl (refl, refl, c)
  lock-Covers exclusive reserved sf s c k = inl (refl, refl, c)
  lock-Covers exclusive exclusive sf s c k = inl (refl, refl, c)

  to_none :
      (from : Level) (sf : SqlFile) (s : Sys W)
      → sf.file_lock ≡ level_code from
      → Conversation m io depth held (unlock_calls shared none) sf.f s
      → Ends (Moves held from none none) (
          drop_shared
            (lock_range m io (suc depth))
            (unlock_range m io (suc depth))
            (level_code none)
            sf
            s)
  unfolding drop_shared
  to_none from sf s e k =
      call_rule m io depth held (Moves held from none none) _ _ s
        (unlocks read_lt shared_first shared_size) [] k (λ s' h. inr (refl, e, λ j. omega arith))
        λ f1 s1 k1 h1. inl (refl, refl, λ j. omega arith)

  writers_to_none :
      (from : Level) (sf : SqlFile) (s : Sys W)
      → sf.file_lock ≡ level_code from
      → Conversation m io depth held (unlock_calls reserved none) sf.f s
      → Ends (Moves held from none none) (
          drop_writers
            (lock_range m io (suc depth))
            (unlock_range m io (suc depth))
            (level_code none)
            sf
            s)
  unfolding drop_writers
  writers_to_none from sf s e k =
      call_rule m io depth held (Moves held from none none) _ _ s (unlocks read_lt pending_byte 2)
        (unlocks read_lt shared_first shared_size ∷ []) k (λ s' h. inr (refl, e, λ j. omega arith))
        λ f1 s1 k1 h1. to_none from _ s1 e k1

  writers_to_shared :
      (from : Level) (sf : SqlFile) (s : Sys W)
      → sf.file_lock ≡ level_code from
      → Covers shared (held s.world)
      → Conversation m io depth held (unlock_calls reserved shared) sf.f s
      → Ends (Moves held from shared shared) (
          guarded
            (lock_range m io (suc depth) sf.f read_lt shared_first shared_size)
            sf
            (drop_writers
              (lock_range m io (suc depth))
              (unlock_range m io (suc depth))
              (level_code shared))
            s)
  unfolding drop_writers drop_shared
  writers_to_shared from sf s e c k =
      call_rule m io depth held P _ _ s (locks read_lt shared_first shared_size)
        (unlocks read_lt pending_byte 2 ∷ []) k
        (λ s' h. inr (refl, e, λ j. ground (arith, c j, h j)))
        λ f1 s1 k1 h1.
          call_rule m io depth held P _ _ s1 (unlocks read_lt pending_byte 2) [] k1
            (λ s' h. inr (refl, e, λ j. ground (arith, c j, here j h1, h j)))
            λ f2 s2 k2 h2. inl (refl, refl, λ j. ground (arith, c j, here j h1, here j h2))
    where
      P : SqlFile → ℕ → Sys W → Type 0
      P = Moves held from shared shared

  -- A higher level wants at least what SHARED wants.
  Covers-shared : (l : Level) (h : Held) → shared_lock ≤ level_code l → Covers l h → Covers shared h
  Covers-shared none h k c = absurd (omega arith)
  Covers-shared shared h k c = c
  Covers-shared reserved h k c = λ j. ground (arith, c j)
  Covers-shared exclusive h k c = λ j. ground (arith, c j)

  pub unlock-Covers :
      (from to : Level) (sf : SqlFile) (s : Sys W)
      → Covers from (held s.world)
      → Conversation m io depth held (unlock_calls from to) sf.f s
      → Yields (Moves held from (lower from to) (lower from to)) (
          unlock
            (lock_range m io (suc depth))
            (unlock_range m io (suc depth))
            (level_code to)
            (at from sf)
            s)
  unfolding unlock
  unlock-Covers none none sf s c k = inl (refl, refl, c)
  unlock-Covers none shared sf s c k = inl (refl, refl, c)
  unlock-Covers shared none sf s c k =
      Ends-Yields (Moves held shared none none) _ (to_none shared _ s refl k)
  unlock-Covers shared shared sf s c k = inl (refl, refl, c)
  unlock-Covers reserved none sf s c k =
      Ends-Yields (Moves held reserved none none) _ (writers_to_none reserved _ s refl k)
  unlock-Covers reserved shared sf s c k =
      Ends-Yields (Moves held reserved shared shared) _
        (writers_to_shared reserved _ s refl (Covers-shared reserved _ (omega arith) c) k)
  unlock-Covers exclusive none sf s c k =
      Ends-Yields (Moves held exclusive none none) _ (writers_to_none exclusive _ s refl k)
  unlock-Covers exclusive shared sf s c k =
      Ends-Yields (Moves held exclusive shared shared) _
        (writers_to_shared exclusive _ s refl (Covers-shared exclusive _ (omega arith) c) k)
  unlock-Covers none reserved sf s c k = tt
  unlock-Covers none exclusive sf s c k = tt
  unlock-Covers shared reserved sf s c k = tt
  unlock-Covers shared exclusive sf s c k = tt
  unlock-Covers reserved reserved sf s c k = tt
  unlock-Covers reserved exclusive sf s c k = tt
  unlock-Covers exclusive reserved sf s c k = tt
  unlock-Covers exclusive exclusive sf s c k = tt
