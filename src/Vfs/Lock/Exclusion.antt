-- ===== src/Vfs/Lock/Exclusion.antt =====
-- nfsv4/nfs4.c: two clients that lock the same file on one server, in any order of their calls.
use mathlib.Core.Path.{subst}
use ssqlite.Prelude.{ℕ, ◌+◌, ◌≤◌, ◌<◌, ◌≡◌, ◌⊎◌, inl, inr, refl, sym, ap, ◌∙◌, arith}
use ssqlite.System.{Sys, Outcome, ok}
use ssqlite.Vfs.Base.{SqlFile, sqlite_ok}
use ssqlite.Vfs.Lock.{no_lock, shared_lock, exclusive_lock, shared_first, reserved_byte}
use ssqlite.Vfs.Lock.Held.{
  Held, Level, none, shared, reserved, exclusive, level_code, Covers, mode_rank, mode_at,
}
use ssqlite.Vfs.Lock.Cover.{Moves, Yields, lock-Covers, unlock-Covers}
use ssqlite.Vfs.Lock.Rules.{higher, lower, at}
use ssqlite.Vfs.Lock.Rivals.{
  Station, Pair, Step, Reach, LockServed, UnlockServed, lock_at, unlock_at, now, first_lock,
  second_lock, first_unlock, second_unlock, initial, later,
}

-- The file is at a level and holds on the server at least what it wants.
abbrev pub Settled : {W : Type 0} → Station W → SqlFile → W → Type 0
Settled v sf w = (l : Level) × (sf.file_lock ≡ level_code l) × Covers l (v.held w)

module _ {W : Type 0} (v : Station W) where
  -- The file after a call, from the postcondition of `Cover`.
  settle :
      (from to : Level) (sf' : SqlFile) (rc : ℕ) (s' : Sys W)
      → Moves v.held from to from sf' rc s'
      → Settled v sf' s'.world
  settle from to sf' rc s' (inl (r, e, c)) = (to, e, c)
  settle from to sf' rc s' (inr (r, e, c)) = (from, e, c)

  same_level :
      (l : Level) (sf : SqlFile) (f : SqlFile → Outcome (SqlFile × ℕ) × Sys W)
      → sf.file_lock ≡ level_code l
      → f (at l sf) ≡ f sf
  same_level l sf f e = ap (λ (n : ℕ). f (record sf { file_lock = n })) (sym e)

  settle_ok :
      (from to kept : Level) (sf' : SqlFile) (s' : Sys W)
      → Moves v.held from to kept sf' sqlite_ok s'
      → Settled v sf' s'.world
  settle_ok from to kept sf' s' (inl (r, e, c)) = (to, e, c)
  settle_ok from to kept sf' s' (inr (r, e, c)) = absurd (omega arith)

  lock-Settled :
      (sf sf' : SqlFile) (to : Level) (rc : ℕ) (s s' : Sys W)
      → Settled v sf s.world
      → LockServed v to sf s
      → lock_at v to sf s ≡ (ok (sf', rc), s')
      → Settled v sf' s'.world
  lock-Settled sf sf' to rc s s' (l, e, c) k h = settle l (higher l to) sf' rc s' (
      subst (Yields (Moves v.held l (higher l to) l))
        (same_level l sf (λ x. lock_at v to x s) e ∙ h)
        (lock-Covers v.machine v.io v.depth v.held l to sf s c (k l e)))

  unlock-Settled :
      (sf sf' : SqlFile) (to : Level) (s s' : Sys W)
      → Settled v sf s.world
      → UnlockServed v to sf s
      → unlock_at v to sf s ≡ (ok (sf', sqlite_ok), s')
      → Settled v sf' s'.world
  unlock-Settled sf sf' to s s' (l, e, c) k h = settle_ok l (lower l to) (lower l to) sf' s' (
      subst (Yields (Moves v.held l (lower l to) (lower l to)))
        (same_level l sf (λ x. unlock_at v to x s) e ∙ h)
        (unlock-Covers v.machine v.io v.depth v.held l to sf s c (k l e)))

  -- What the other file holds is as it was.
  apart : (sf : SqlFile) (w w' : W) → v.held w' ≡ v.held w → Settled v sf w → Settled v sf w'
  apart sf w w' e (l, k, c) =
      (l, k, λ j. subst (λ (h : Held). mode_rank (mode_at l j) ≤ mode_rank (h j)) (sym e) (c j))

-- SQLite's rule for two locks on one database: if both files hold one, neither is EXCLUSIVE, and
-- one of them is SHARED.
abbrev pub Excluded : ℕ → ℕ → Type 0
Excluded a b =
    (a ≡ no_lock)
    ⊎ (b ≡ no_lock)
    ⊎ ((a < exclusive_lock) × (b < exclusive_lock) × ((a ≤ shared_lock) ⊎ (b ≤ shared_lock)))

Covers-Excluded :
    (l k : Level) (h g : Held)
    → Covers l h
    → Covers k g
    → ((j : ℕ) → mode_rank (h j) + mode_rank (g j) ≤ 2)
    → Excluded (level_code l) (level_code k)
Covers-Excluded none k h g c d e = inl refl
Covers-Excluded shared none h g c d e = inr (inl refl)
Covers-Excluded reserved none h g c d e = inr (inl refl)
Covers-Excluded exclusive none h g c d e = inr (inl refl)
Covers-Excluded shared shared h g c d e = inr (inr (omega arith, omega arith, inl (omega arith)))
Covers-Excluded shared reserved h g c d e = inr (inr (omega arith, omega arith, inl (omega arith)))
Covers-Excluded reserved shared h g c d e = inr (inr (omega arith, omega arith, inr (omega arith)))
Covers-Excluded reserved reserved h g c d e =
    absurd (omega (arith, c reserved_byte, d reserved_byte, e reserved_byte))
Covers-Excluded shared exclusive h g c d e =
    absurd (omega (arith, c shared_first, d shared_first, e shared_first))
Covers-Excluded reserved exclusive h g c d e =
    absurd (omega (arith, c shared_first, d shared_first, e shared_first))
Covers-Excluded exclusive shared h g c d e =
    absurd (omega (arith, c shared_first, d shared_first, e shared_first))
Covers-Excluded exclusive reserved h g c d e =
    absurd (omega (arith, c shared_first, d shared_first, e shared_first))
Covers-Excluded exclusive exclusive h g c d e =
    absurd (omega (arith, c shared_first, d shared_first, e shared_first))

module _ {W : Type 0} (v u : Station W) where
  abbrev BothSettled : Pair W → Type 0
  BothSettled p = Settled v p.first p.world × Settled u p.second p.world

  Step-BothSettled : {p q : Pair W} → Step v u p q → BothSettled p → BothSettled q
  Step-BothSettled {p} (first_lock to {s = s} k e apart_e) (a, b) = (
    lock-Settled v p.first _ to _ (now p.one p.world) s a k e,
    apart u p.second p.world s.world apart_e b,
  )
  Step-BothSettled {p} (second_lock to {s = s} k e apart_e) (a, b) = (
    apart v p.first p.world s.world apart_e a,
    lock-Settled u p.second _ to _ (now p.two p.world) s b k e,
  )
  Step-BothSettled {p} (first_unlock to {s = s} k e apart_e) (a, b) = (
    unlock-Settled v p.first _ to (now p.one p.world) s a k e,
    apart u p.second p.world s.world apart_e b,
  )
  Step-BothSettled {p} (second_unlock to {s = s} k e apart_e) (a, b) = (
    apart v p.first p.world s.world apart_e a,
    unlock-Settled u p.second _ to (now p.two p.world) s b k e,
  )

  Reach-BothSettled : {p q : Pair W} → BothSettled p → Reach v u p q → BothSettled q
  Reach-BothSettled h initial = h
  Reach-BothSettled h (later k st) = Step-BothSettled st (Reach-BothSettled h k)

  -- Two clients of one server, each with its own state and a file at a level for which it holds at
  -- least what the level wants, make any calls of `nfs4Lock` and `nfs4Unlock` with the client's
  -- `lock_range` and `unlock_range`, in any order, the unlocks that count being those that return
  -- SQLITE_OK. Each request on the way is granted, refused or lost, a lost one with its effect or
  -- without, and a call leaves what the server holds for the other client. Then, where the server
  -- holds no byte for writing for one and at all for the other, never is one at EXCLUSIVE while
  -- the other is at SHARED or above, nor are both at RESERVED or above.
  pub mutual_exclusion :
      {p q : Pair W}
      → Settled v p.first p.world
      → Settled u p.second p.world
      → Reach v u p q
      → ((j : ℕ) → mode_rank (v.held q.world j) + mode_rank (u.held q.world j) ≤ 2)
      → Excluded q.first.file_lock q.second.file_lock
  mutual_exclusion {p} {q} a b k excludes =
      let ((l1, f1, c1), (l2, f2, c2)) = Reach-BothSettled (a, b) k in
      subst (λ (i : ℕ). Excluded i q.second.file_lock) (sym f1)
        (subst (λ (i : ℕ). Excluded (level_code l1) i) (sym f2)
          (Covers-Excluded l1 l2 _ _ c1 c2 excludes))
