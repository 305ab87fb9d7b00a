-- ===== src/Rpc/Replay.antt =====
-- nfsv4/rpc.c and nfsv4/xdr.c: where SEQUENCE puts the session, and where `replay_rpc` writes.
use mathlib.Core.Path.{ap₂, subst}
use ssqlite.Prelude.{
  ℕ, ◌+◌, ◌-◌, ◌^◌, ◌≤◌, ◌≡◌, refl, sym, ap, ◌∙◌, inl, inr, List, ◌++◌, append_assoc, arith, length,
  length-append,
}
use ssqlite.Prelude.Memory.{Block, slice, memcpy, slice-memcpy, slice-memcpy_self, slice_split}
use ssqlite.Buffer.{Buffer, u32}
use ssqlite.Buffer.Growth.{Holds, limit, push_bytes-Holds}
use ssqlite.Protocol.Ops.{opcode}
use ssqlite.Xdr.Words.{be32}
use ssqlite.Xdr.Encode.{push_be32-Holds, length-be32}
use ssqlite.Xdr.Push.{push_opaque, push_word, push_raw, push_op, push_session_id, push_sequence}
use ssqlite.Rpc.Request.{push_header, leave_opcount, replay_rpc, patch, allocate_rpc}
use ssqlite.Rpc.Image.{get_buffer-set_buffer, header, length-header, allocate_rpc-Holds}
use ssqlite.System.{Client, Rpc, Which, to_forward, to_reverse, get_buffer, rpc_buffer}

-- The request's buffer holds `xs`, `n` bytes.
abbrev HoldsIn : Rpc → List ℕ → ℕ → Type 0
HoldsIn r xs n = Holds (rpc_buffer r) xs × (length xs ≡ n)

push_word-HoldsIn :
    (r : Rpc) (xs : List ℕ) (n w : ℕ)
    → HoldsIn r xs n
    → n + 4 ≤ limit
    → HoldsIn (push_word w r) (xs ++ be32 w) (n + 4)
unfolding push_word
push_word-HoldsIn r xs n w (h, e) k = (
  rw get_buffer-set_buffer (push_be32-Holds _ xs w h (omega (arith, e))),
  omega (arith, e, length-append xs (be32 w), length-be32 w),
)

push_raw-HoldsIn :
    (r : Rpc) (xs x : List ℕ) (n : ℕ)
    → HoldsIn r xs n
    → n + length x ≤ limit
    → HoldsIn (push_raw x r) (xs ++ x) (n + length x)
unfolding push_raw
push_raw-HoldsIn r xs x n (h, e) k = (
  rw get_buffer-set_buffer (push_bytes-Holds _ xs x h (omega (arith, e))),
  omega (arith, e, length-append xs x),
)

get_buffer-sequence :
    (w : Which) (x : ℕ) (c : Client) → get_buffer w (record c { sequence = x }) ≡ get_buffer w c
get_buffer-sequence to_forward x c = refl
get_buffer-sequence to_reverse x c = refl

-- The operation, the session id, the sequence, the slot, the highest slot and `cachethis`.
abbrev sequence_op : List ℕ → ℕ → List ℕ
sequence_op session sequence =
    be32 53 ++ (session ++ (be32 sequence ++ (be32 0 ++ (be32 0 ++ be32 0))))

push_sequence-Holds :
    (r : Rpc) (xs : List ℕ) (n : ℕ)
    → HoldsIn r xs n
    → n + length r.c.session + 20 ≤ limit
    → Holds (rpc_buffer (push_sequence r)) (xs ++ sequence_op r.c.session r.c.sequence)
unfolding push_sequence push_op push_session_id opcode
push_sequence-Holds r xs n h k = rw get_buffer-sequence (
    subst (Holds _) regroup
      (push_word-HoldsIn _ _ _ 0
        (push_word-HoldsIn _ _ _ 0
          (push_word-HoldsIn _ _ _ 0
            (push_word-HoldsIn _ _ _ r.c.sequence
              (push_raw-HoldsIn _ _ r.c.session (n + 4)
                (push_word-HoldsIn r xs n 53 h (omega arith)) (omega arith))
              (omega arith))
            (omega arith))
          (omega arith))
        (omega arith)).0)
  where
    s : ℕ
    s = length r.c.session

    regroup :
        (((((xs ++ be32 53) ++ r.c.session) ++ be32 r.c.sequence) ++ be32 0) ++ be32 0) ++ be32 0
        ≡ xs ++ sequence_op r.c.session r.c.sequence
    regroup = simp append_assoc

allocate_rpc-session : (c : Client) (w : Which) → (allocate_rpc c w).c.session ≡ c.session
unfolding allocate_rpc push_header push_word push_opaque leave_opcount
allocate_rpc-session c to_forward = refl
allocate_rpc-session c to_reverse = refl

-- What a buffer holds between two other pieces.
slice_middle :
    (b : Buffer) (xs ys zs : List ℕ)
    → Holds b (xs ++ (ys ++ zs))
    → slice b.contents (length xs) (length ys) ≡ ys
slice_middle b xs ys zs h =
    let (front, back, size) =
      slice_split b.contents b.start (b.end - b.start) xs (ys ++ zs) h.live in
    let (middle, last, rest) =
      slice_split b.contents (b.start + length xs) (b.end - b.start - length xs) ys zs back in
    ap (λ (i : ℕ). slice b.contents i (length ys)) (omega (arith, h.origin)) ∙ middle

-- In a request that `allocate_rpc` began, in a buffer with a capacity from 92 to 2 ^ 31, and whose
-- first operation is that of `push_sequence`, the bytes 96 to 111 are the session id of the
-- client, if that has 16 bytes.
pub push_sequence-allocate_rpc :
    (c : Client) (w : Which)
    → 92 ≤ (get_buffer w c).capacity
    → (get_buffer w c).capacity ≤ 2 ^ 31
    → length c.session ≡ 16
    → slice (rpc_buffer (push_sequence (allocate_rpc c w))).contents 96 16 ≡ c.session
push_sequence-allocate_rpc c w h k l =
    let (slot, held, four, loc) = allocate_rpc-Holds c w h k in
    let front = header (u32 (c.xid + 1)) ++ slot in
    let same = allocate_rpc-session c w in
    let size : length front ≡ 92 = omega (
      arith,
      length-append (header (u32 (c.xid + 1))) slot,
      four,
      length-header (u32 (c.xid + 1)),
    ) in
    let r =
      push_sequence-Holds (allocate_rpc c w) front 92 (held, size)
        (omega (arith, ap length same)) in
    let start = length-append front (be32 53) in
    ap₂ (λ (i n : ℕ). slice (rpc_buffer (push_sequence (allocate_rpc c w))).contents i n)
      (omega (arith, start, length-be32 53, size)) (sym (ap length same ∙ l))
    ∙ slice_middle _ (front ++ be32 53) (allocate_rpc c w).c.session _
        (subst (Holds _) (sym (append_assoc front (be32 53) _)) r)
    ∙ same

get_buffer-counters :
    (w : Which) (x y : ℕ) (c : Client)
    → get_buffer w (record c { sequence = x; xid = y }) ≡ get_buffer w c
get_buffer-counters to_forward x y c = refl
get_buffer-counters to_reverse x y c = refl

abbrev patched : Block → List ℕ → ℕ → ℕ → Block
patched m session n x = memcpy (memcpy (memcpy m 60 session) 76 (be32 n)) 4 (be32 x)

patched-after :
    (m : Block) (session : List ℕ) (n x k : ℕ)
    → length session ≡ 16
    → slice (patched m session n x) 96 k ≡ slice m 96 k
patched-after m session n x k l =
    slice-memcpy _ 4 (be32 x) 96 k (inl (omega (arith, length-be32 x)))
    ∙ slice-memcpy _ 76 (be32 n) 96 k (inl (omega (arith, length-be32 n)))
    ∙ slice-memcpy m 60 session 96 k (inl (omega (arith, l)))

patched-at :
    (m : Block) (session : List ℕ) (n x k : ℕ)
    → length session ≡ 16
    → k ≡ length session
    → slice (patched m session n x) 60 k ≡ session
patched-at m session n x k l e =
    slice-memcpy _ 4 (be32 x) 60 k (inl (omega (arith, length-be32 x)))
    ∙ slice-memcpy _ 76 (be32 n) 60 k (inr (omega (arith, l)))
    ∙ ap (slice (memcpy m 60 session) 60) e
    ∙ slice-memcpy_self m 60 session

-- For a client whose session id has 16 bytes, `replay_rpc` leaves the bytes 96 to 111 of the
-- request as they were and writes the session id of the client over the bytes 60 to 75.
pub replay_rpc-session :
    (r : Rpc)
    → length r.c.session ≡ 16
    → (slice (rpc_buffer (replay_rpc r)).contents 96 16 ≡ slice (rpc_buffer r).contents 96 16)
      × (slice (rpc_buffer (replay_rpc r)).contents 60 16 ≡ r.c.session)
unfolding replay_rpc patch
replay_rpc-session r l =
    rw (get_buffer-set_buffer, get_buffer-counters r.b (u32 (r.c.sequence + 1)) (u32 (r.c.xid + 1)))
      ((
        patched-after _ r.c.session r.c.sequence (u32 (r.c.xid + 1)) 16 l,
        patched-at _ r.c.session r.c.sequence (u32 (r.c.xid + 1)) 16 l (sym l),
      ))
