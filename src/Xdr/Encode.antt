-- ===== src/Xdr/Encode.antt =====
-- nfsv4/nfs4_internal.h and nfsv4/xdr.c: the writers against the XDR form of their argument.
use mathlib.Core.Path.{subst}
use ssqlite.Prelude.{
  zero, suc, ℕ, ◌+◌, ◌-◌, ◌%◌, ◌≤◌, ◌≡◌, refl, Bool, true, false, List, ◌++◌, append_assoc,
  append-nil, arith, ◌==◌, if◌then◌else◌, length, length-append, replicate, length-replicate,
}
use ssqlite.Buffer.{Buffer, u32, sub32, buffer_extend, append_bytes}
use ssqlite.Buffer.Growth.{
  Holds, limit, buffer_extend-Holds, append_bytes-Holds, buffer_extend_keeps,
}
use ssqlite.Xdr.Words.{
  be32, be64, pad, push_be32, push_be64, push_boolean, push_padding, push_string, push_fixed_string,
}

pub length-be32 : (w : ℕ) → length (be32 w) ≡ 4
unfolding be32
length-be32 w = refl

pub length-be64 : (w : ℕ) → length (be64 w) ≡ 8
unfolding be64 be32
length-be64 w = refl

-- The number of zero bytes that XDR wants behind `n` bytes.
abbrev pub padding : ℕ → ℕ
padding n = (4 - n % 4) % 4

abbrev pub xdr_fixed : List ℕ → List ℕ
xdr_fixed x = x ++ replicate (padding (length x)) 0

-- RFC 4506, variable-length opaque data.
abbrev pub xdr_opaque : List ℕ → List ℕ
xdr_opaque x = be32 (length x) ++ xdr_fixed x

-- A buffer that holds `xs` and has room for `n` bytes more.
pub record Room (b : Buffer) (xs : List ℕ) (n : ℕ) : Type 0 where
  pub held : Holds b xs
  pub space : b.end + n ≤ b.capacity
  pub fits : length xs + n ≤ limit

pub append_bytes-Room :
    (b : Buffer) (xs ys : List ℕ) (k n : ℕ)
    → Room b xs k
    → length ys + n ≤ k
    → Room (append_bytes b ys) (xs ++ ys) n
append_bytes-Room b xs ys k n r e = record {
  held = append_bytes-Holds b xs ys r.held (omega (arith, r.fits)) (omega (arith, r.space));
  space = unfold append_bytes in omega (arith, r.space, r.fits, r.held.size);
  fits = omega (arith, r.fits, length-append xs ys);
}

pub push_be32-Room :
    (b : Buffer) (xs : List ℕ) (w n : ℕ) → Room b xs (4 + n) → Room (push_be32 b w) (xs ++ be32 w) n
unfolding push_be32
push_be32-Room b xs w n r =
    rw (buffer_extend_keeps b 4 (omega (arith, r.space)) (omega (arith, r.fits, r.held.size)))
      (append_bytes-Room b xs (be32 w) (4 + n) n r (omega (arith, length-be32 w)))

extend-Room :
    (b : Buffer) (xs : List ℕ) (n : ℕ)
    → Holds b xs
    → length xs + n ≤ limit
    → Room (buffer_extend b n) xs n
extend-Room b xs n h k =
    let (held, room) = buffer_extend-Holds b xs n h k in
    record { held = held; space = room; fits = k }

pub push_be32-Holds :
    (b : Buffer) (xs : List ℕ) (w : ℕ)
    → Holds b xs
    → length xs + 4 ≤ limit
    → Holds (push_be32 b w) (xs ++ be32 w)
unfolding push_be32
push_be32-Holds b xs w h k =
    (append_bytes-Room _ xs (be32 w) 4 0 (extend-Room b xs 4 h k)
      (omega (arith, length-be32 w))).held

-- `push_be64` on a buffer that holds `xs` from offset 0 on appends the eight bytes of a number, as
-- long as the result is at most 2 ^ 30 bytes.
pub push_be64-Holds :
    (b : Buffer) (xs : List ℕ) (w : ℕ)
    → Holds b xs
    → length xs + 8 ≤ limit
    → Holds (push_be64 b w) (xs ++ be64 w)
unfolding push_be64
push_be64-Holds b xs w h k =
    (append_bytes-Room _ xs (be64 w) 8 0 (extend-Room b xs 8 h k)
      (omega (arith, length-be64 w))).held

pub push_boolean-Holds :
    (b : Buffer) (xs : List ℕ) (x : Bool)
    → Holds b xs
    → length xs + 4 ≤ limit
    → Holds (push_boolean b x) (xs ++ be32 (if x then 1 else 0))
unfolding push_boolean
push_boolean-Holds b xs true h k =
    (append_bytes-Room _ xs (be32 1) 4 0 (extend-Room b xs 4 h k)
      (omega (arith, length-be32 1))).held
push_boolean-Holds b xs false h k =
    (append_bytes-Room _ xs (be32 0) 4 0 (extend-Room b xs 4 h k)
      (omega (arith, length-be32 0))).held

pad-sub : (n : ℕ) → n ≤ limit → sub32 (pad n 4) n ≡ padding n
unfolding pad
pad-sub n h = omega arith

suc_test : (n : ℕ) → (suc n == 0) ≡ false
suc_test n = ground arith

push_padding-Room :
    (b : Buffer) (xs : List ℕ) (k n : ℕ)
    → Room b xs (k + n)
    → Room (push_padding b k) (xs ++ replicate k 0) n
unfolding push_padding
push_padding-Room b xs zero n r = rw append-nil (subst (Room b xs) (omega arith) r)
push_padding-Room b xs (suc k) n r = rw (suc_test k) (
    append_bytes-Room b xs (replicate (suc k) 0) (suc k + n) n r
      (omega (arith, length-replicate {A = ℕ} (suc k) 0)))

-- The length, the bytes and the zeros, in a buffer with room for them.
string_body :
    (b : Buffer) (xs x : List ℕ) (plen n : ℕ)
    → Room b xs (4 + (length x + (plen + n)))
    → plen ≡ padding (length x)
    → Room (push_padding (append_bytes (push_be32 b (length x)) x) plen) (xs ++ xdr_opaque x) n
string_body b xs x plen n r e =
    subst (λ ys. Room (push_padding (append_bytes (push_be32 b (length x)) x) plen) ys n) regroup
      (push_padding-Room _ _ plen n (
        append_bytes-Room _ _ x (length x + (plen + n)) (plen + n)
          (push_be32-Room _ xs (length x) (length x + (plen + n)) r) (omega arith)))
  where
    regroup : ((xs ++ be32 (length x)) ++ x) ++ replicate plen 0 ≡ xs ++ xdr_opaque x
    regroup = rw e (simp append_assoc)

fixed_body :
    (b : Buffer) (xs x : List ℕ) (plen n : ℕ)
    → Room b xs (length x + (plen + n))
    → plen ≡ padding (length x)
    → Room (push_padding (append_bytes b x) plen) (xs ++ xdr_fixed x) n
fixed_body b xs x plen n r e =
    subst (λ ys. Room (push_padding (append_bytes b x) plen) ys n) regroup
      (push_padding-Room _ _ plen n
        (append_bytes-Room _ _ x (length x + (plen + n)) (plen + n) r (omega arith)))
  where
    regroup : (xs ++ x) ++ replicate plen 0 ≡ xs ++ xdr_fixed x
    regroup = rw e (simp append_assoc)

-- The room that the two pushes make before they write.
string-Room :
    (b : Buffer) (xs x : List ℕ) (plen : ℕ)
    → Holds b xs
    → length xs + length x + 8 ≤ limit
    → plen ≡ padding (length x)
    → Room (buffer_extend b (u32 (length x + plen + 4))) xs (length x + plen + 4)
string-Room b xs x plen h k e =
    subst (λ n. Room (buffer_extend b n) xs (length x + plen + 4)) (omega arith)
      (extend-Room b xs (length x + plen + 4) h (omega arith))

-- `push_string` on a buffer that holds `xs` from offset 0 on appends the XDR form of a string, its
-- length as four bytes, its bytes, and zeros up to a multiple of four, as long as the result with
-- its room is at most 2 ^ 30 bytes.
pub push_string-Holds :
    (b : Buffer) (xs x : List ℕ)
    → Holds b xs
    → length xs + length x + 8 ≤ limit
    → Holds (push_string b x) (xs ++ xdr_opaque x)
unfolding push_string
push_string-Holds b xs x h k =
    let e = pad-sub (length x) (omega arith) in
    (string_body _ xs x _ 0 (subst (Room _ xs) (omega arith) (string-Room b xs x _ h k e)) e).held

-- With room for it the string goes where the buffer stands.
pub push_string-Room :
    (b : Buffer) (xs x : List ℕ) (n : ℕ)
    → Room b xs (4 + (length x + (padding (length x) + n)))
    → Room (push_string b x) (xs ++ xdr_opaque x) n
unfolding push_string
push_string-Room b xs x n r =
    let e = pad-sub (length x) (omega (arith, r.fits)) in
    rw
      (buffer_extend_keeps b (u32 (length x + sub32 (pad (length x) 4) (length x) + 4))
        (omega (arith, e, r.space, r.fits, r.held.size)) (omega (arith, e, r.fits, r.held.size)))
      (string_body b xs x _ n (subst (Room b xs) (omega (arith, e)) r) e)

-- `push_fixed_string` on a buffer that holds `xs` from offset 0 on appends the bytes of the string
-- and zeros up to a multiple of four, as long as the result with its room is at most 2 ^ 30 bytes.
pub push_fixed_string-Holds :
    (b : Buffer) (xs x : List ℕ)
    → Holds b xs
    → length xs + length x + 8 ≤ limit
    → Holds (push_fixed_string b x) (xs ++ xdr_fixed x)
unfolding push_fixed_string
push_fixed_string-Holds b xs x h k =
    let e = pad-sub (length x) (omega arith) in
    (fixed_body _ xs x _ 4 (subst (Room _ xs) (omega arith) (string-Room b xs x _ h k e)) e).held
