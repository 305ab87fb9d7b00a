-- ===== src/File/Locking.antt =====
-- nfsv4/rpc.c, `lock_range` and `unlock_range`: what the server's answer makes of the file.
use ssqlite.Prelude.{ℕ, suc, ◌≡◌, refl, false, List}
use ssqlite.Buffer.{Buffer}
use ssqlite.Protocol.Ops.{OpNum, op_lock, op_locku}
use ssqlite.Xdr.At.{at_buffer}
use ssqlite.Xdr.Decode.{Ahead}
use ssqlite.Xdr.Opened.{stateid_bytes, IsStateId, parse_stateid-at}
use ssqlite.Rpc.Request.{finish}
use ssqlite.Rpc.Transact.{Answered}
use ssqlite.Rpc.Recovery.{transact-Answered}
use ssqlite.File.Access.{lock_range, unlock_range}
use ssqlite.File.Ranges.{lock_request, unlock_request, ranged}
use ssqlite.System.{File, Machine, Rpc, StateId, Sys, to_reverse, ok}

module _ {W : Type 0} (m : Machine W) (io depth : ℕ) (f : File) (s : Sys W) (w : W) (sid : StateId)
    (rest : List ℕ) where
  ranged-at :
      (o : OpNum) (r : Rpc)
      → Answered m io r o to_reverse (stateid_bytes sid rest) s.world w
      → IsStateId sid
      → (y : Buffer) × (ranged m io (suc depth) f o r s ≡ (
        ok (record f { latest_sid = sid }),
        at_buffer to_reverse y (record s { client = (finish r).c; world = w; badsession = false }),
      ))
        × Ahead y rest
  ranged-at o r q h =
      let after : Sys W = record s { client = (finish r).c; world = w; badsession = false } in
      let (x, e, a) = transact-Answered m io depth r o to_reverse s w (stateid_bytes sid rest) q in
      let (y, k, a1) = parse_stateid-at to_reverse x after f.latest_sid sid rest h a in
      (y, rw e (rw k refl), a1)

  -- If the request of `lock_range` is written whole and answered, with the status 0 of each result
  -- up to that of LOCK, with a state id, then it succeeds, and the file has that as its latest
  -- state id and is else as before.
  pub lock_range-Answered :
      (locktype offset n : ℕ)
      → Answered m io
          (lock_request m s.client f locktype offset n)
          op_lock
          to_reverse
          (stateid_bytes sid rest)
          s.world
          w
      → IsStateId sid
      → (y : Buffer) × (lock_range m io (suc depth) f locktype offset n s ≡ (
        ok (record f { latest_sid = sid }),
        at_buffer to_reverse y (record s {
          client = (finish (lock_request m s.client f locktype offset n)).c;
          world = w;
          badsession = false;
        }),
      ))
  unfolding lock_range
  lock_range-Answered locktype offset n q h =
      let (y, e, a) = ranged-at op_lock (lock_request m s.client f locktype offset n) q h in (y, e)

  -- As above, with what is ahead after the state id.
  pub lock_range-Ahead :
      (locktype offset n : ℕ)
      → Answered m io
          (lock_request m s.client f locktype offset n)
          op_lock
          to_reverse
          (stateid_bytes sid rest)
          s.world
          w
      → IsStateId sid
      → (y : Buffer) × (lock_range m io (suc depth) f locktype offset n s ≡ (
        ok (record f { latest_sid = sid }),
        at_buffer to_reverse y (record s {
          client = (finish (lock_request m s.client f locktype offset n)).c;
          world = w;
          badsession = false;
        }),
      ))
        × Ahead y rest
  unfolding lock_range
  lock_range-Ahead locktype offset n q h =
      ranged-at op_lock (lock_request m s.client f locktype offset n) q h

  -- If the request of `unlock_range` is written whole and answered, with the status 0 of each result
  -- up to that of LOCKU, with a state id, then it succeeds, and the file has that as its latest
  -- state id and is else as before.
  pub unlock_range-Answered :
      (locktype offset n : ℕ)
      → Answered m io
          (unlock_request m s.client f locktype offset n)
          op_locku
          to_reverse
          (stateid_bytes sid rest)
          s.world
          w
      → IsStateId sid
      → (y : Buffer) × (unlock_range m io (suc depth) f locktype offset n s ≡ (
        ok (record f { latest_sid = sid }),
        at_buffer to_reverse y (record s {
          client = (finish (unlock_request m s.client f locktype offset n)).c;
          world = w;
          badsession = false;
        }),
      ))
  unfolding unlock_range
  unlock_range-Answered locktype offset n q h =
      let (y, e, a) = ranged-at op_locku (unlock_request m s.client f locktype offset n) q h in
      (y, e)
