-- ===== src/Xdr/Pieces.antt =====
-- nfsv4/xdr.c and nfsv4/rpc.c: a request as the list of what is pushed, and its bytes.
use mathlib.Core.Path.{subst}
use ssqlite.Prelude.{
  ℕ, suc, ◌+◌, ◌≤◌, ◌≡◌, refl, sym, Bool, List, [], ◌∷◌, ◌++◌, append_assoc, append-nil, arith,
  length, length-append, if◌then◌else◌,
}
use ssqlite.Buffer.Growth.{Holds, limit, push_bytes-Holds}
use ssqlite.Protocol.Ops.{OpNum, opcode}
use ssqlite.Xdr.Words.{be32, be64}
use ssqlite.Xdr.At.{get-set}
use ssqlite.Xdr.Encode.{
  xdr_opaque, xdr_fixed, length-be32, length-be64, push_be32-Holds, push_be64-Holds,
  push_boolean-Holds, push_string-Holds, push_fixed_string-Holds,
}
use ssqlite.Xdr.Push.{
  push_word, push_long, push_flag, push_opaque, push_fixed, push_raw, push_op, bump_sequence,
}
use ssqlite.System.{Client, Rpc, Which, to_forward, to_reverse, get_buffer, rpc_buffer}

pub data Piece : Type 0 where
  word long : ℕ → Piece
  flag : Bool → Piece
  opaque fixed raw : List ℕ → Piece
  op : OpNum → Piece
  bump : Piece

abbrev pub push_piece : Piece → Rpc → Rpc
push_piece (word w) r = push_word w r
push_piece (long w) r = push_long w r
push_piece (flag x) r = push_flag x r
push_piece (opaque x) r = push_opaque x r
push_piece (fixed x) r = push_fixed x r
push_piece (raw x) r = push_raw x r
push_piece (op o) r = push_op o r
push_piece bump r = bump_sequence r

abbrev pub piece_bytes : Piece → List ℕ
piece_bytes (word w) = be32 w
piece_bytes (long w) = be64 w
piece_bytes (flag x) = be32 (if x then 1 else 0)
piece_bytes (opaque x) = xdr_opaque x
piece_bytes (fixed x) = xdr_fixed x
piece_bytes (raw x) = x
piece_bytes (op o) = be32 (opcode o)
piece_bytes bump = []

abbrev pub build : List Piece → Rpc → Rpc
build [] r = r
build (p ∷ ps) r = build ps (push_piece p r)

abbrev pub bytes_of : List Piece → List ℕ
bytes_of [] = []
bytes_of (p ∷ ps) = piece_bytes p ++ bytes_of ps

get-bump :
    (w : Which) (n : ℕ) (c : Client) → get_buffer w (record c { sequence = n }) ≡ get_buffer w c
get-bump to_forward n c = refl
get-bump to_reverse n c = refl

push_piece-Holds :
    (p : Piece) (r : Rpc) (xs : List ℕ)
    → Holds (rpc_buffer r) xs
    → length xs + length (piece_bytes p) + 8 ≤ limit
    → Holds (rpc_buffer (push_piece p r)) (xs ++ piece_bytes p)
unfolding push_word push_long push_flag push_opaque push_fixed push_raw push_op
push_piece-Holds (word w) r xs h k =
    rw get-set (push_be32-Holds _ xs w h (omega (arith, length-be32 w)))
push_piece-Holds (long w) r xs h k =
    rw get-set (push_be64-Holds _ xs w h (omega (arith, length-be64 w)))
push_piece-Holds (flag x) r xs h k =
    rw get-set (push_boolean-Holds _ xs x h (omega (arith, length-be32 (if x then 1 else 0))))
push_piece-Holds (opaque x) r xs h k = rw get-set (
    push_string-Holds _ xs x h (
      omega (
        arith,
        length-append (be32 (length x)) (xdr_fixed x),
        length-be32 (length x),
        length-append x _,
      )))
push_piece-Holds (fixed x) r xs h k =
    rw get-set (push_fixed_string-Holds _ xs x h (omega (arith, length-append x _)))
push_piece-Holds (raw x) r xs h k = rw get-set (push_bytes-Holds _ xs x h (omega arith))
push_piece-Holds (op o) r xs h k =
    rw get-set (push_be32-Holds _ xs (opcode o) h (omega (arith, length-be32 (opcode o))))
push_piece-Holds bump r xs h k = rw (get-bump, append-nil) h

-- Pieces that are pushed behind `xs` are there in their XDR form, one behind the other.
pub build-Holds :
    (ps : List Piece) (r : Rpc) (xs : List ℕ)
    → Holds (rpc_buffer r) xs
    → length xs + length (bytes_of ps) + 8 ≤ limit
    → Holds (rpc_buffer (build ps r)) (xs ++ bytes_of ps)
build-Holds [] r xs h k = subst (Holds (rpc_buffer r)) (sym (append-nil xs)) h
build-Holds (p ∷ ps) r xs h k =
    let size = length-append (piece_bytes p) (bytes_of ps) in
    subst (Holds _) (append_assoc xs (piece_bytes p) (bytes_of ps)) (
      build-Holds ps (push_piece p r) (xs ++ piece_bytes p)
        (push_piece-Holds p r xs h (omega (arith, size)))
        (omega (arith, size, length-append xs (piece_bytes p))))

pub build-append : (ps qs : List Piece) (r : Rpc) → build (ps ++ qs) r ≡ build qs (build ps r)
build-append [] qs r = refl
build-append (p ∷ ps) qs r = build-append ps qs (push_piece p r)

-- The operations among the pieces.
abbrev pub operations : List Piece → ℕ
operations [] = 0
operations (op o ∷ ps) = suc (operations ps)
operations (word w ∷ ps) = operations ps
operations (long w ∷ ps) = operations ps
operations (flag x ∷ ps) = operations ps
operations (opaque x ∷ ps) = operations ps
operations (fixed x ∷ ps) = operations ps
operations (raw x ∷ ps) = operations ps
operations (bump ∷ ps) = operations ps

pub opcount-build : (ps : List Piece) (r : Rpc) → (build ps r).opcount ≡ r.opcount + operations ps
unfolding push_word push_long push_flag push_opaque push_fixed push_raw push_op
opcount-build [] r = omega arith
opcount-build (op o ∷ ps) r = omega (arith, opcount-build ps (push_op o r))
opcount-build (word w ∷ ps) r = opcount-build ps (push_word w r)
opcount-build (long w ∷ ps) r = opcount-build ps (push_long w r)
opcount-build (flag x ∷ ps) r = opcount-build ps (push_flag x r)
opcount-build (opaque x ∷ ps) r = opcount-build ps (push_opaque x r)
opcount-build (fixed x ∷ ps) r = opcount-build ps (push_fixed x r)
opcount-build (raw x ∷ ps) r = opcount-build ps (push_raw x r)
opcount-build (bump ∷ ps) r = opcount-build ps (bump_sequence r)

pub operations-append : (ps qs : List Piece) → operations (ps ++ qs) ≡ operations ps + operations qs
operations-append [] qs = omega arith
operations-append (op o ∷ ps) qs = omega (arith, operations-append ps qs)
operations-append (word w ∷ ps) qs = operations-append ps qs
operations-append (long w ∷ ps) qs = operations-append ps qs
operations-append (flag x ∷ ps) qs = operations-append ps qs
operations-append (opaque x ∷ ps) qs = operations-append ps qs
operations-append (fixed x ∷ ps) qs = operations-append ps qs
operations-append (raw x ∷ ps) qs = operations-append ps qs
operations-append (bump ∷ ps) qs = operations-append ps qs
