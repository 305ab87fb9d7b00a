-- ===== src/File/Filled.antt =====
-- Memory with bytes written over a stretch of it, chunk by chunk.
use mathlib.Core.Path.{subst, ap₂}
use ssqlite.Prelude.{
  ℕ, ◌+◌, ◌-◌, ◌≤◌, ◌≡◌, ◌⊎◌, inr, refl, sym, ap, ◌∙◌, List, [], ◌++◌, arith, length, length-append,
}
use ssqlite.Prelude.Memory.{
  Block, slice, memcpy, slice-memcpy, slice-memcpy_self, slice-add, length-slice,
}

-- The memory `k` is `m` with the bytes `xs` from `dest` on.
pub record Filled (m k : Block) (dest : ℕ) (xs : List ℕ) : Type 0 where
  pub there : slice k dest (length xs) ≡ xs
  pub elsewhere : (i n : ℕ) → (dest + length xs ≤ i) ⊎ (i + n ≤ dest) → slice k i n ≡ slice m i n

pub Filled-nil : (m : Block) (dest : ℕ) → Filled m m dest []
Filled-nil m dest = record { there = refl; elsewhere = λ i n apart. refl }

pub Filled-memcpy : (m : Block) (dest : ℕ) (xs : List ℕ) → Filled m (memcpy m dest xs) dest xs
Filled-memcpy m dest xs = record {
  there = slice-memcpy_self m dest xs;
  elsewhere = slice-memcpy m dest xs;
}

pub Filled-append :
    (m k : Block) (dest : ℕ) (xs ys : List ℕ)
    → Filled (memcpy m dest xs) k (dest + length xs) ys
    → Filled m k dest (xs ++ ys)
Filled-append m k dest xs ys h =
    let size = length-append xs ys in
    record {
      there =
          ap (slice k dest) size
          ∙ slice-add k dest (length xs) (length ys)
          ∙ ap₂ ◌++◌
              (h.elsewhere dest (length xs) (inr (omega arith)) ∙ slice-memcpy_self m dest xs)
              h.there;
      elsewhere = λ i n apart.
          h.elsewhere i n (ground (arith, size))
          ∙ slice-memcpy m dest xs i n (ground (arith, size));
    }

pub Filled-eq :
    (m k : Block) (dest dest' : ℕ) (xs xs' : List ℕ)
    → dest ≡ dest'
    → xs ≡ xs'
    → Filled m k dest xs
    → Filled m k dest' xs'
Filled-eq m k dest dest' xs xs' e l h =
    subst (λ (i : ℕ). Filled m k i xs') e (subst (λ (ys : List ℕ). Filled m k dest ys) l h)

-- A chunk of `from_block`, copied from `source` to `dest`, and the rest up to `stop` behind it.
pub Filled-chunk :
    (from_block m k : Block) (to from done n stop dest source : ℕ)
    → dest ≡ to + done
    → source ≡ from + done
    → done + n ≤ stop
    → Filled
        (memcpy m dest (slice from_block source n))
        k
        (to + (done + n))
        (slice from_block (from + (done + n)) (stop - (done + n)))
    → Filled m k (to + done) (slice from_block (from + done) (stop - done))
Filled-chunk from_block m k to from done n stop dest source d e le h =
    let xs = slice from_block source n in
    let ys = slice from_block (from + (done + n)) (stop - (done + n)) in
    let size = length-slice from_block source n in
    Filled-eq m k dest (to + done) (xs ++ ys) (slice from_block (from + done) (stop - done)) d
      (ap (λ (i : ℕ). slice from_block i n ++ ys) e
        ∙ ap (λ (i : ℕ). slice from_block (from + done) n ++ slice from_block i (stop - (done + n)))
            (omega arith)
        ∙ sym (slice-add from_block (from + done) n (stop - (done + n)))
        ∙ ap (slice from_block (from + done)) (omega arith))
      (Filled-append m k dest xs ys (
        Filled-eq (memcpy m dest xs) k (to + (done + n)) (dest + length xs) ys ys
          (omega (arith, size, d)) refl h))
