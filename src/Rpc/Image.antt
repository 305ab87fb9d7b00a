-- ===== src/Rpc/Image.antt =====
-- nfsv4/rpc.c: the bytes that `allocate_rpc` lays down, and where SEQUENCE puts the session.
use mathlib.Core.Path.{ap₂}
use ssqlite.Prelude.{
  ℕ, ◌+◌, ◌-◌, ◌%◌, ◌^◌, ◌≤◌, ◌≡◌, refl, sym, ◌∙◌, List, [], ◌++◌, arith, length, length-append,
}
use ssqlite.Prelude.Memory.{slice, slice-add}
use ssqlite.Buffer.{Buffer, u32}
use ssqlite.Buffer.Growth.{Holds}
use ssqlite.Protocol.Ops.{nfs_program}
use ssqlite.Xdr.Words.{be32}
use ssqlite.Xdr.Encode.{Room, push_be32-Room, push_string-Room, xdr_opaque}
use ssqlite.Xdr.Push.{codes, push_word, push_opaque}
use ssqlite.Rpc.Request.{allocate_rpc, push_header, next_xid, reset, leave_opcount}
use ssqlite.System.{
  Client, Rpc, Which, to_forward, to_reverse, get_buffer, set_buffer, on_buffer, rpc_buffer,
}

pub get_buffer-set_buffer :
    (w : Which) (x : Buffer) (c : Client) → get_buffer w (set_buffer w x c) ≡ x
get_buffer-set_buffer to_forward x c = refl
get_buffer-set_buffer to_reverse x c = refl

-- A request whose buffer holds `xs` with room for `n` bytes more.
abbrev RoomIn : Rpc → List ℕ → ℕ → Type 0
RoomIn r xs n = Room (rpc_buffer r) xs n

push_word-RoomIn :
    (r : Rpc) (xs : List ℕ) (w n : ℕ)
    → RoomIn r xs (4 + n)
    → RoomIn (push_word w r) (xs ++ be32 w) n
unfolding push_word
push_word-RoomIn r xs w n h = rw get_buffer-set_buffer (push_be32-Room _ xs w n h)

push_opaque-RoomIn :
    (r : Rpc) (xs x : List ℕ) (n : ℕ)
    → RoomIn r xs (4 + (length x + ((4 - length x % 4) % 4 + n)))
    → RoomIn (push_opaque x r) (xs ++ xdr_opaque x) n
unfolding push_opaque
push_opaque-RoomIn r xs x n h = rw get_buffer-set_buffer (push_string-Room _ xs x n h)

-- RFC 5531 and RFC 5661: the record mark, the call header with AUTH_UNIX credentials, and the
-- start of the COMPOUND up to the number of operations. Each list is a field.
unfoldable pub header : ℕ → List ℕ
header xid =
    be32 0
    ++ (be32 xid
        ++ (be32 0
            ++ (be32 2
                ++ (be32 nfs_program
                    ++ (be32 4
                        ++ (be32 1
                            ++ (be32 1
                                ++ (be32 36
                                    ++ (be32 0x111ff274
                                        ++ (xdr_opaque (codes "ip-192-168-1-40")
                                            ++ (be32 0
                                                ++ (be32 0
                                                    ++ (be32 0
                                                        ++ (be32 0
                                                            ++ (be32 0
                                                            ++ (be32 0 ++ be32 1))))))))))))))))

pub length-header : (xid : ℕ) → length (header xid) ≡ 88
unfolding header be32
length-header xid = refl

push_header-RoomIn :
    (r : Rpc) (xid : ℕ) → RoomIn r [] 92 → RoomIn (push_header xid r) (header xid) 4
unfolding push_header header be32
push_header-RoomIn r xid h = push_word-RoomIn _ _ 1 4 (
    push_word-RoomIn _ _ 0 8 (
      push_word-RoomIn _ _ 0 12 (
        push_word-RoomIn _ _ 0 16 (
          push_word-RoomIn _ _ 0 20 (
            push_word-RoomIn _ _ 0 24 (
              push_word-RoomIn _ _ 0 28 (
                push_opaque-RoomIn _ _ (codes "ip-192-168-1-40") 32 (
                  push_word-RoomIn _ _ 0x111ff274 52 (
                    push_word-RoomIn _ _ 36 56 (
                      push_word-RoomIn _ _ 1 60 (
                        push_word-RoomIn _ _ 1 64 (
                          push_word-RoomIn _ _ 4 68 (
                            push_word-RoomIn _ _ nfs_program 72 (
                              push_word-RoomIn _ _ 2 76 (
                                push_word-RoomIn _ _ 0 80 (
                                  push_word-RoomIn _ _ xid 84
                                    (push_word-RoomIn r [] 0 88 h)))))))))))))))))

-- A buffer as `allocate_buffer` leaves it, or any that an earlier request was built in.
reset-Room : (b : Buffer) → 92 ≤ b.capacity → b.capacity ≤ 2 ^ 31 → Room (reset b) [] 92
unfolding reset
reset-Room b h k = record {
  held = record { valid = omega arith; origin = refl; size = refl; live = refl };
  space = omega arith;
  fits = omega arith;
}

leave_opcount-Holds :
    (r : Rpc) (xs : List ℕ)
    → RoomIn r xs 4
    → Holds (rpc_buffer (leave_opcount r)) (xs ++ slice (rpc_buffer r).contents (length xs) 4)
unfolding leave_opcount
leave_opcount-Holds r xs h = rw get_buffer-set_buffer (record {
  valid = record {
    ordered = omega (arith, h.held.size, h.held.origin, h.fits);
    within = omega (arith, h.held.size, h.space, h.fits);
    small = h.held.valid.small;
  };
  origin = h.held.origin;
  size =
      omega (
        arith,
        h.held.size,
        h.fits,
        length-append xs (slice (rpc_buffer r).contents (length xs) 4),
      );
  live = body;
})
  where
    b : Buffer
    b = rpc_buffer r

    body :
        slice b.contents b.start ((b.end + 4) % 2 ^ 32 - b.start)
        ≡ xs ++ slice b.contents (length xs) 4
    body =
        ap₂ (λ (i n : ℕ). slice b.contents i n) h.held.origin
          (omega (arith, h.held.size, h.held.origin, h.fits))
        ∙ slice-add b.contents 0 (length xs) 4
        ∙ ap₂ (λ t (i : ℕ). t ++ slice b.contents i 4)
            (ap₂ (λ (i n : ℕ). slice b.contents i n) (sym h.held.origin)
                (omega (arith, h.held.size, h.held.origin))
              ∙ h.held.live)
            (omega arith)

abbrev begun : Client → Which → Rpc
begun c w = record { c = next_xid c; opcountloc = 0; opcount = 0; b = w }

begun-RoomIn :
    (c : Client) (w : Which)
    → 92 ≤ (get_buffer w c).capacity
    → (get_buffer w c).capacity ≤ 2 ^ 31
    → RoomIn (on_buffer reset (begun c w)) [] 92
begun-RoomIn c to_forward h k = reset-Room c.forward h k
begun-RoomIn c to_reverse h k = reset-Room c.reverse h k

-- On a buffer with a capacity from 92 to 2 ^ 31, whatever an earlier request left in it,
-- `allocate_rpc` leaves the record mark, the call header with the next xid and AUTH_UNIX
-- credentials and the start of the COMPOUND, 88 bytes, then four bytes for the number of
-- operations, whose offset, 88, it keeps.
pub allocate_rpc-Holds :
    (c : Client) (w : Which)
    → 92 ≤ (get_buffer w c).capacity
    → (get_buffer w c).capacity ≤ 2 ^ 31
    → (slot : List ℕ) × Holds (rpc_buffer (allocate_rpc c w)) (header (u32 (c.xid + 1)) ++ slot)
      × (length slot ≡ 4)
      × ((allocate_rpc c w).opcountloc ≡ 88)
unfolding allocate_rpc
allocate_rpc-Holds c w h k =
    let r = push_header-RoomIn _ (u32 (c.xid + 1)) (begun-RoomIn c w h k) in
    (
      _,
      leave_opcount-Holds _ _ r,
      refl,
      unfold leave_opcount in omega (arith, r.held.size, length-header (u32 (c.xid + 1))),
    )
