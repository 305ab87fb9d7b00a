-- ===== src/Vfs/Lock/Exchange.antt =====
-- nfsv4/rpc.c, `lock_range` and `unlock_range`, as `nfs4Lock` and `nfs4Unlock` call them one after
-- the other: the requests, and what the server does to the locks when it answers them.
use mathlib.Core.Path.{subst}
use ssqlite.Prelude.{String, ◌⊎◌, inl, ap, ℕ, suc, ◌≡◌, sym, List, [], ◌∷◌, false, ◌==◌}
use ssqlite.Protocol.Ops.{OpNum, op_lock, op_locku}
use ssqlite.Protocol.Status.{err_badsession}
use ssqlite.Rpc.Transact.{Answered, Refused}
use ssqlite.Rpc.Recovery.{transact-Refused}
use ssqlite.Xdr.Opened.{stateid_bytes, IsStateId}
use ssqlite.File.Access.{lock_range, unlock_range}
use ssqlite.File.Ranges.{lock_request, unlock_request}
use ssqlite.File.Locking.{lock_range-Answered, unlock_range-Answered}
use ssqlite.System.{
  Client, File, Machine, M, Rpc, StateId, Sys, Outcome, ok, fail, panic, stuck, to_reverse,
}
use ssqlite.Vfs.Lock.{pending_byte, reserved_byte, shared_first, shared_size, read_lt, write_lt}
use ssqlite.Vfs.Lock.Held.{free, Held, claim, mode_of, Level, none, shared, reserved, exclusive}

-- A call: the type of the lock, the first byte and the number of bytes.
pub data Call : Type 0 where
  locks unlocks : ℕ → ℕ → ℕ → Call

abbrev pub effect : Call → Held → Held
effect (locks l_type start len) = claim (mode_of l_type) start len
effect (unlocks l_type start len) = claim free start len

abbrev pub op_of : Call → OpNum
op_of (locks l_type start len) = op_lock
op_of (unlocks l_type start len) = op_locku

-- The calls on the way from one level to another, as long as they succeed.
abbrev pub lock_calls : Level → Level → List Call
lock_calls none shared =
    locks read_lt pending_byte 1
    ∷ locks read_lt shared_first shared_size
    ∷ unlocks read_lt pending_byte 1
    ∷ []
lock_calls shared reserved = locks write_lt reserved_byte 1 ∷ []
lock_calls shared exclusive =
    locks write_lt pending_byte 1 ∷ locks write_lt shared_first shared_size ∷ []
lock_calls reserved exclusive =
    locks write_lt pending_byte 1 ∷ locks write_lt shared_first shared_size ∷ []
lock_calls from to = []

abbrev pub unlock_calls : Level → Level → List Call
unlock_calls shared none = unlocks read_lt shared_first shared_size ∷ []
unlock_calls reserved none =
    unlocks read_lt pending_byte 2 ∷ unlocks read_lt shared_first shared_size ∷ []
unlock_calls exclusive none =
    unlocks read_lt pending_byte 2 ∷ unlocks read_lt shared_first shared_size ∷ []
unlock_calls reserved shared =
    locks read_lt shared_first shared_size ∷ unlocks read_lt pending_byte 2 ∷ []
unlock_calls exclusive shared =
    locks read_lt shared_first shared_size ∷ unlocks read_lt pending_byte 2 ∷ []
unlock_calls from to = []

-- The locks after a call that failed: each byte is as it was, or as the call would make it.
abbrev pub Either : Call → Held → Held → Type 0
Either c before after = (j : ℕ) → (after j ≡ before j) ⊎ (after j ≡ effect c before j)

-- A call answers with a file and has its effect, or with a status.
abbrev pub Answers : {W : Type 0} → (W → Held) → Outcome File × Sys W → Call → Held → Type 0
Answers held (ok f, s) c before = held s.world ≡ effect c before
Answers held (fail e, s) c before = Either c before (held s.world)
Answers held (panic e, s) c before = ⊥
Answers held (stuck, s) c before = ⊥

module _ {W : Type 0} (m : Machine W) (io depth : ℕ) where
  abbrev pub run : Call → File → M W File
  run (locks l_type start len) f = lock_range m io (suc depth) f l_type start len
  run (unlocks l_type start len) f = unlock_range m io (suc depth) f l_type start len

  abbrev pub request_of : Call → Client → File → Rpc
  request_of (locks l_type start len) c f = lock_request m c f l_type start len
  request_of (unlocks l_type start len) c f = unlock_request m c f l_type start len

  -- The request of the call is answered with a state id, and the server has given or freed the
  -- range; or it is answered with a status other than a lost session, and the server has done
  -- nothing; or the call fails in another way, as where the reply is lost, and the server has done
  -- what it asks for or not.
  pub data Exchanged (held : W → Held) (c : Call) (f : File) (s : Sys W) : Type 0 where
    granted :
        (w : W) (sid : StateId) (rest : List ℕ)
        → Answered m io
            (request_of c s.client f)
            (op_of c)
            to_reverse
            (stateid_bytes sid rest)
            s.world
            w
        → IsStateId sid
        → held w ≡ effect c (held s.world)
        → Exchanged held c f s
    refused :
        (w : W) (status : ℕ)
        → Refused m io (request_of c s.client f) to_reverse status s.world w
        → (status == err_badsession) ≡ false
        → held w ≡ held s.world
        → Exchanged held c f s
    lost :
        (cause : String) (s' : Sys W)
        → run c f s ≡ (fail cause, s')
        → Either c (held s.world) (held s'.world)
        → Exchanged held c f s

  -- Each call is answered or lost, in the state and for the file that the one before leaves.
  abbrev pub Conversation : (W → Held) → List Call → File → Sys W → Type 0
  Conversation held [] f s = Unit {0}
  Conversation held (c ∷ cs) f s =
      Exchanged held c f s
      × ((f' : File) (s' : Sys W) → run c f s ≡ (ok f', s') → Conversation held cs f' s')

  Refused-Answers :
      (held : W → Held) (c : Call) (f : File) (s : Sys W) (w : W) (status : ℕ)
      → Refused m io (request_of c s.client f) to_reverse status s.world w
      → (status == err_badsession) ≡ false
      → held w ≡ held s.world
      → Answers held (run c f s) c (held s.world)
  unfolding lock_range unlock_range
  Refused-Answers held (locks l_type start len) f s w status q n h =
      let (text, t, (y, e)) =
        transact-Refused m io depth (lock_request m s.client f l_type start len) op_lock to_reverse
          s w status q n in
      rw e (λ j. inl (ap (λ (k : Held). k j) h))
  Refused-Answers held (unlocks l_type start len) f s w status q n h =
      let (text, t, (y, e)) =
        transact-Refused m io depth (unlock_request m s.client f l_type start len) op_locku
          to_reverse s w status q n in
      rw e (λ j. inl (ap (λ (k : Held). k j) h))

  pub Exchanged-Answers :
      (held : W → Held) (c : Call) (f : File) (s : Sys W)
      → Exchanged held c f s
      → Answers held (run c f s) c (held s.world)
  Exchanged-Answers held (locks l_type start len) f s (granted w sid rest q i h) =
      let (y, e) = lock_range-Answered m io depth f s w sid rest l_type start len q i in
      subst (λ r. Answers held r (locks l_type start len) (held s.world)) (sym e) h
  Exchanged-Answers held (unlocks l_type start len) f s (granted w sid rest q i h) =
      let (y, e) = unlock_range-Answered m io depth f s w sid rest l_type start len q i in
      subst (λ r. Answers held r (unlocks l_type start len) (held s.world)) (sym e) h
  Exchanged-Answers held c f s (lost cause s' e h) =
      subst (λ r. Answers held r c (held s.world)) (sym e) h
  Exchanged-Answers held c f s (refused w status q n h) = Refused-Answers held c f s w status q n h
