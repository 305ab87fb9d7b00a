-- ===== src/Vfs/Lock/Rules.antt =====
-- nfsv4/nfs4.c: how the calls of `nfs4Lock` and `nfs4Unlock` are followed one by one, and what
-- they may end in.
use ssqlite.Prelude.{refl, List, ◌∷◌, ℕ, ◌≡◌, ◌⊎◌, ap, leb, if◌then◌else◌}
use ssqlite.Vfs.Lock.Exchange.{Call, Either, Answers, Conversation, Exchanged-Answers, effect, run}
use ssqlite.System.{Machine, File, Sys, M, Outcome, ok, fail, panic, stuck}
use ssqlite.Vfs.Base.{SqlFile, sqlite_ok, sqlite_error, guarded, resume, translate_status}
use ssqlite.Vfs.Lock.Held.{Held, Level, none, reserved, exclusive, level_code, Consistent, Covers}

-- The call returns, and `P` holds of the file, the result and the state.
abbrev pub Ends :
    {W : Type 0} → (SqlFile → ℕ → Sys W → Type 0) → Outcome (SqlFile × ℕ) × Sys W → Type 0
Ends P (ok (sf, rc), s) = P sf rc s
Ends P (fail e, s) = ⊥
Ends P (panic e, s) = ⊥
Ends P (stuck, s) = ⊥

resume_rule :
    {W : Type 0} (held : W → Held) (P : SqlFile → ℕ → Sys W → Type 0) (sf : SqlFile)
    (next : SqlFile → M W (SqlFile × ℕ)) (c : Call) (before : Held) (x r : Outcome File × Sys W)
    → x ≡ r
    → Answers held r c before
    → ((s' : Sys W) → Either c before (held s'.world) → P sf sqlite_error s')
    → ((f : File) (s' : Sys W)
        → x ≡ (ok f, s')
        → held s'.world ≡ effect c before
        → Ends P (next (record sf { f = f }) s'))
    → Ends P (resume sf next r)
unfolding resume
resume_rule held P sf next c before x (ok f, s) e a on_refused on_granted = on_granted f s e a
resume_rule held P sf next c before x (fail t, s) e a on_refused on_granted =
    unfold translate_status in on_refused s a
resume_rule held P sf next c before x (panic t, s) e a on_refused on_granted = a
resume_rule held P sf next c before x (stuck, s) e a on_refused on_granted = a

-- The postcondition of a call that goes from one level to another: the new level with what it
-- wants, or an error at the old level.
abbrev pub Lowers : {W : Type 0} → (W → Held) → Level → Level → SqlFile → ℕ → Sys W → Type 0
Lowers held from to sf rc s =
    ((rc ≡ sqlite_ok) × (sf.file_lock ≡ level_code to) × Consistent to (held s.world))
    ⊎ ((rc ≡ sqlite_error) × (sf.file_lock ≡ level_code from))

-- The same, where an error loses nothing of what the old level wants.
abbrev pub Raises : {W : Type 0} → (W → Held) → Level → Level → SqlFile → ℕ → Sys W → Type 0
Raises held from to sf rc s =
    ((rc ≡ sqlite_ok) × (sf.file_lock ≡ level_code to) × Consistent to (held s.world))
    ⊎ ((rc ≡ sqlite_error) × (sf.file_lock ≡ level_code from) × Covers from (held s.world))

-- What SQLite may ask for: nothing above SHARED while it holds nothing.
abbrev pub MayAsk : Level → Level → Type 0
MayAsk none reserved = ⊥
MayAsk none exclusive = ⊥
MayAsk from to = Unit

abbrev pub higher : Level → Level → Level
higher from to = if leb (level_code to) (level_code from) then from else to

abbrev pub lower : Level → Level → Level
lower from to = if leb (level_code from) (level_code to) then from else to

-- What an equation of views says of one byte.
pub here : (j : ℕ) {h k : Held} → h ≡ k → h j ≡ k j
here j e = ap (λ (h : Held). h j) e

-- A file that is at a level.
abbrev pub at : Level → SqlFile → SqlFile
at l sf = record sf { file_lock = level_code l }

module _ {W : Type 0} (m : Machine W) (io depth : ℕ) (held : W → Held) where
  -- The first of the calls fails, or the rest goes on.
  pub call_rule :
      (P : SqlFile → ℕ → Sys W → Type 0) (sf : SqlFile) (next : SqlFile → M W (SqlFile × ℕ))
      (s : Sys W) (c : Call) (cs : List Call)
      → Conversation m io depth held (c ∷ cs) sf.f s
      → ((s' : Sys W) → Either c (held s.world) (held s'.world) → P sf sqlite_error s')
      → ((f : File) (s' : Sys W)
          → Conversation m io depth held cs f s'
          → held s'.world ≡ effect c (held s.world)
          → Ends P (next (record sf { f = f }) s'))
      → Ends P (guarded (run m io depth c sf.f) sf next s)
  unfolding guarded
  call_rule P sf next s c cs k on_refused on_granted =
      resume_rule held P sf next c (held s.world) _ _ refl
        (Exchanged-Answers m io depth held c sf.f s k.0) on_refused
        λ f s' e h. on_granted f s' (k.1 f s' e) h
