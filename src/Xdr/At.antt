-- ===== src/Xdr/At.antt =====
-- nfsv4/nfs4_internal.h: the readers as actions, on a client whose buffer `b` is `x`.
use mathlib.Core.Path.{subst}
use ssqlite.Prelude.{
  ℕ, ◌^◌, ◌<◌, ◌≡◌, refl, List, ◌++◌, Option, none, some, length, ==_refl, ◌==◌, false,
}
use ssqlite.Buffer.{Buffer}
use ssqlite.Xdr.Words
use ssqlite.Xdr.Words.{be32, be64, skip}
use ssqlite.Xdr.Decode.{Ahead, skip-Ahead, read_beu32-be32, read_beu64-be64, read_buffer-append}
use ssqlite.Xdr.Parse.{reading, read_beu32, read_beu64, read_buffer, verify_and_adv, advance}
use ssqlite.System.{Client, Sys, Which, to_forward, to_reverse, get_buffer, set_buffer, ok, fail}

pub get-set : (b : Which) (x : Buffer) (c : Client) → get_buffer b (set_buffer b x c) ≡ x
get-set to_forward x c = refl
get-set to_reverse x c = refl

pub set-set :
    (b : Which) (x y : Buffer) (c : Client) → set_buffer b y (set_buffer b x c) ≡ set_buffer b y c
set-set to_forward x y c = refl
set-set to_reverse x y c = refl

-- The state with `x` in the place of the buffer.
abbrev pub at_buffer : {W : Type 0} → Which → Buffer → Sys W → Sys W
at_buffer b x s = record s { client = set_buffer b x s.client }

reading-at :
    {W A : Type 0} (b : Which) (f : Buffer → Option (A × Buffer)) (x y : Buffer) (a : A) (s : Sys W)
    → f x ≡ some (a, y)
    → reading f b (at_buffer b x s) ≡ (ok a, at_buffer b y s)
unfolding reading
reading-at to_forward f x y a s e = rw e refl
reading-at to_reverse f x y a s e = rw e refl

reading-short :
    {W A : Type 0} (b : Which) (f : Buffer → Option (A × Buffer)) (x : Buffer) (s : Sys W)
    → f x ≡ none
    → reading f b (at_buffer b x s) ≡ (fail "out of data", at_buffer b x s)
unfolding reading
reading-short to_forward f x s e = rw e refl
reading-short to_reverse f x s e = rw e refl

module _ {W : Type 0} (b : Which) (x : Buffer) (s : Sys W) where
  pub read_beu32-at :
      (w : ℕ) (rest : List ℕ)
      → w < 2 ^ 32
      → Ahead x (be32 w ++ rest)
      → read_beu32 b (at_buffer b x s) ≡ (ok w, at_buffer b (skip x 4) s)
  unfolding read_beu32
  read_beu32-at w rest h a =
      reading-at b Words.read_beu32 x (skip x 4) w s (read_beu32-be32 x w rest h a).0

  pub read_beu64-at :
      (w : ℕ) (rest : List ℕ)
      → w < 2 ^ 64
      → Ahead x (be64 w ++ rest)
      → read_beu64 b (at_buffer b x s) ≡ (ok w, at_buffer b (skip x 8) s)
  unfolding read_beu64
  read_beu64-at w rest h a =
      reading-at b Words.read_beu64 x (skip x 8) w s (read_beu64-be64 x w rest h a).0

  pub read_buffer-at :
      (xs rest : List ℕ) (n : ℕ)
      → length xs ≡ n
      → Ahead x (xs ++ rest)
      → read_buffer b n (at_buffer b x s) ≡ (ok xs, at_buffer b (skip x n) s)
  unfolding read_buffer
  read_buffer-at xs rest n e a =
      subst
        (λ (k : ℕ).
          reading (λ y. Words.read_buffer y k) b (at_buffer b x s)
          ≡ (ok xs, at_buffer b (skip x k) s))
        e
        (reading-at b (λ y. Words.read_buffer y (length xs)) x (skip x (length xs)) xs s
          (read_buffer-append x xs rest a).0)

  pub verify_and_adv-at :
      (v : ℕ) (rest : List ℕ)
      → v < 2 ^ 32
      → Ahead x (be32 v ++ rest)
      → verify_and_adv b v (at_buffer b x s) ≡ (ok tt, at_buffer b (skip x 4) s)
  unfolding verify_and_adv
  verify_and_adv-at v rest h a = rw (read_beu32-at v rest h a, ==_refl) refl

  pub verify_and_adv-ne :
      (v w : ℕ) (rest : List ℕ)
      → w < 2 ^ 32
      → (v == w) ≡ false
      → Ahead x (be32 w ++ rest)
      → verify_and_adv b v (at_buffer b x s) ≡ (fail "encoding mismatch", at_buffer b (skip x 4) s)
  unfolding verify_and_adv
  verify_and_adv-ne v w rest h e a = rw (read_beu32-at w rest h a, e) refl

  pub advance-at : (n : ℕ) → advance b n (at_buffer b x s) ≡ (ok tt, at_buffer b (skip x n) s)
  unfolding advance
  advance-at n = rw (get-set, set-set) refl

pub skip_word :
    (x : Buffer) (w : ℕ) (rest : List ℕ) → Ahead x (be32 w ++ rest) → Ahead (skip x 4) rest
unfolding be32
skip_word x w rest a = (skip-Ahead x (be32 w) rest a).0

pub skip_bytes :
    (x : Buffer) (xs rest : List ℕ) (n : ℕ)
    → length xs ≡ n
    → Ahead x (xs ++ rest)
    → Ahead (skip x n) rest
skip_bytes x xs rest n e a = subst (λ (k : ℕ). Ahead (skip x k) rest) e (skip-Ahead x xs rest a).0

pub skip_long :
    (x : Buffer) (w : ℕ) (rest : List ℕ) → Ahead x (be64 w ++ rest) → Ahead (skip x 8) rest
unfolding be64 be32
skip_long x w rest a = (skip-Ahead x (be64 w) rest a).0
