-- ===== src/File/Sizing.antt =====
-- nfsv4/rpc.c, `file_size`, and nfsv4/xdr.c, `push_open`: the attributes that are asked for and set.
use mathlib.Core.Path.{subst}
use ssqlite.Prelude.{
  append-nil, ℕ, zero, suc, ◌+◌, ◌-◌, ◌*◌, ◌/◌, ◌%◌, ◌^◌, ◌<◌, ◌≡◌, refl, sym, ap, true, false,
  List, [], ◌∷◌, ◌++◌, max, arith, length, length-append, ◌==◌, if◌then◌else◌,
}
use ssqlite.Prelude.Memory.{length-slice}
use ssqlite.Buffer.{Buffer, sub32}
use ssqlite.Protocol.Ops.{op_getattr, fattr_size}
use ssqlite.Protocol.Attributes.{Attribute, attribute_number, size, mode}
use ssqlite.Protocol.Enums.{open_type, open_create, open_nocreate, create_mode, unchecked4}
use ssqlite.Xdr.Words.{be32, be64, skip}
use ssqlite.Xdr.Encode.{xdr_opaque, length-be64}
use ssqlite.Xdr.Decode.{Ahead, skip-Ahead}
use ssqlite.Xdr.At.{at_buffer, read_beu64-at}
use ssqlite.Xdr.Push.{◌|>◌, push_op, push_word, push_how}
use ssqlite.Xdr.Pieces.{word, build, bytes_of}
use ssqlite.Rpc.Request.{finish}
use ssqlite.Rpc.Session.{file_rpc}
use ssqlite.Rpc.Transact.{Answered}
use ssqlite.Rpc.Recovery.{transact-Answered}
use ssqlite.File.Access.{file_size}
use ssqlite.File.Opens.{how_pieces}
use ssqlite.System.{Client, File, Machine, Rpc, Sys, to_reverse, ok}

-- RFC 5661, bitmap4: the words up to that of the last attribute, with the bit `n % 32` of the word
-- `n / 32` for the attribute `n`.
abbrev pub bitmap_word : ℕ → List Attribute → ℕ
bitmap_word i [] = 0
bitmap_word i (a ∷ attrs) =
    (if attribute_number a / 32 == i then 2 ^ (attribute_number a % 32) else 0)
    + bitmap_word i attrs

abbrev pub word_count : List Attribute → ℕ
word_count [] = 0
word_count (a ∷ attrs) = max (attribute_number a / 32 + 1) (word_count attrs)

-- The words from `i` on, `n` of them.
abbrev pub bitmap_words : ℕ → ℕ → List Attribute → List ℕ
bitmap_words zero i attrs = []
bitmap_words (suc n) i attrs = be32 (bitmap_word i attrs) ++ bitmap_words n (i + 1) attrs

abbrev pub xdr_bitmap : List Attribute → List ℕ
xdr_bitmap attrs = be32 (word_count attrs) ++ bitmap_words (word_count attrs) 0 attrs

-- How a file is created or not, as RFC 5661 has it: UNCHECKED4 with the mode rw-r--r--.
abbrev pub create_mode_bits : ℕ
create_mode_bits = 6 * 64 + 4 * 8 + 4

-- What `push_open` sends for a file to create is OPEN4_CREATE, UNCHECKED4 and the attributes of
-- the new file, in their XDR form: a bitmap of MODE alone and its value rw-r--r--; for a file that
-- is there it is OPEN4_NOCREATE.
push_how-Attributes :
    (r : Rpc)
    → (push_how true r ≡ build (how_pieces true []) r)
      × (bytes_of (how_pieces true [])
          ≡ be32 (open_type open_create)
            ++ (be32 (create_mode unchecked4)
                ++ (xdr_bitmap (mode ∷ []) ++ xdr_opaque (be32 create_mode_bits))))
      × (push_how false r ≡ build (how_pieces false []) r)
      × (bytes_of (how_pieces false []) ≡ be32 (open_type open_nocreate))
unfolding push_how open_type create_mode attribute_number be32
push_how-Attributes r = (refl, refl, refl, refl)

-- The request of `file_size`, and that it asks for SIZE alone.
abbrev pub size_request : {W : Type 0} → Machine W → Client → File → Rpc
size_request m c f =
    file_rpc m c f |> push_op op_getattr |> push_word 1 |> push_word (2 ^ fattr_size)

-- The last eight bytes of a buffer.
last_word-Ahead :
    (y : Buffer) (xs ys : List ℕ)
    → length ys ≡ 8
    → Ahead y (xs ++ ys)
    → Ahead (record y { start = sub32 y.end 8 }) ys
unfolding skip
last_word-Ahead y xs ys e a =
    let start : (y.start + length xs) % 2 ^ 32 ≡ sub32 y.end 8 = omega (
      arith,
      e,
      ap length a.live,
      length-append xs ys,
      length-slice y.contents y.start (y.end - y.start),
      a.valid.ordered,
      a.valid.within,
      a.valid.small,
    ) in
    subst (λ (i : ℕ). Ahead (record y { start = i }) ys) start (skip-Ahead y xs ys a).0

-- `file_size` asks for a bitmap of SIZE alone; and if its request is written whole and answered,
-- with the status 0 of each result up to that of GETATTR, with attributes of which the last is a
-- number of eight bytes, then it succeeds with that number.
pub file_size-be64 :
    {W : Type 0} (m : Machine W) (io depth : ℕ) (f : File) (s : Sys W) (w : W) (n : ℕ)
    (front : List ℕ)
    → n < 2 ^ 64
    → Answered m io (size_request m s.client f) op_getattr to_reverse (front ++ be64 n) s.world w
    → (bytes_of (word 1 ∷ word (2 ^ fattr_size) ∷ []) ≡ xdr_bitmap (size ∷ []))
      × ((y : Buffer) × (file_size m io (suc depth) f s ≡ (
        ok n,
        at_buffer to_reverse y (record s {
          client = (finish (size_request m s.client f)).c;
          world = w;
          badsession = false;
        }),
      )))
unfolding file_size
file_size-be64 {W} m io depth f s w n front small q =
    let r = size_request m s.client f in
    let after : Sys W = record s { client = (finish r).c; world = w; badsession = false } in
    let (y, e, a) = transact-Answered m io depth r op_getattr to_reverse s w (front ++ be64 n) q in
    let last : Buffer = record y { start = sub32 y.end 8 } in
    (
      unfold attribute_number be32 in refl,
      (
        skip last 8,
        rw e (
            read_beu64-at to_reverse last after n [] small (
              subst (Ahead last) (sym (append-nil (be64 n)))
                (last_word-Ahead y front (be64 n) (length-be64 n) a))),
      ),
    )
