-- ===== src/Prelude/Memory.antt =====
-- A block of memory as a function from offsets to bytes, with the reads and writes of `memcpy`.
use Prim.Native.Nat.{ℕ, zero, suc, ◌+◌, ◌-◌, ◌≤◌, ◌<◌}
use mathlib.Core.Path.{◌≡◌, refl, ap, ap₂, ◌∙◌}
use mathlib.Core.Logic.{◌⊎◌, inl}
use mathlib.Core.List.{List, [], ◌∷◌, ◌++◌}
use native.Mathlib.Omega.{arith}
use ssqlite.Prelude.Tests.{◌==◌, if◌then◌else◌}
use ssqlite.Prelude.Lists.{length}

abbrev pub Block : Type 0
Block = ℕ → ℕ

-- The `n` bytes from offset `s` on.
abbrev pub slice : Block → ℕ → ℕ → List ℕ
slice m s zero = []
slice m s (suc n) = m s ∷ slice m (suc s) n

abbrev pub poke : Block → ℕ → ℕ → Block
poke m p x j = if j == p then x else m j

-- `memcpy(m + p, xs, length(xs))`
abbrev pub memcpy : Block → ℕ → List ℕ → Block
memcpy m p [] = m
memcpy m p (x ∷ xs) = poke (memcpy m (suc p) xs) p x

pub length-slice : (m : Block) (s n : ℕ) → length (slice m s n) ≡ n
length-slice m s zero = refl
length-slice m s (suc n) = ap suc (length-slice m (suc s) n)

pub slice-add : (m : Block) (s k n : ℕ) → slice m s (k + n) ≡ slice m s k ++ slice m (s + k) n
slice-add m s zero n = ap₂ (λ i j. slice m i j) (omega arith) (omega arith)
slice-add m s (suc k) n =
    ap (slice m s) shift
    ∙ ap (λ t. m s ∷ t)
        (slice-add m (suc s) k n ∙ ap (λ i. slice m (suc s) k ++ slice m i n) (omega arith))
  where
    shift : suc k + n ≡ suc (k + n)
    shift = omega arith

-- A byte that is written outside a slice leaves it alone.
pub slice-poke :
    (m : Block) (p x s n : ℕ) → (p < s) ⊎ (s + n ≤ p) → slice (poke m p x) s n ≡ slice m s n
slice-poke m p x s zero h = refl
slice-poke m p x s (suc n) h = ap₂ ◌∷◌ (ground arith) (slice-poke m p x (suc s) n (ground arith))

-- So does a copy that is made outside it.
pub slice-memcpy :
    (m : Block) (p : ℕ) (xs : List ℕ) (s n : ℕ)
    → (p + length xs ≤ s) ⊎ (s + n ≤ p)
    → slice (memcpy m p xs) s n ≡ slice m s n
slice-memcpy m p [] s n h = refl
slice-memcpy m p (x ∷ xs) s n h =
    slice-poke (memcpy m (suc p) xs) p x s n (ground arith)
    ∙ slice-memcpy m (suc p) xs s n (ground arith)

-- What was copied is read back.
pub slice-memcpy_self : (m : Block) (p : ℕ) (xs : List ℕ) → slice (memcpy m p xs) p (length xs) ≡ xs
slice-memcpy_self m p [] = refl
slice-memcpy_self m p (x ∷ xs) = ap₂ ◌∷◌ (ground arith) (
    slice-poke (memcpy m (suc p) xs) p x (suc p) (length xs) (inl (omega arith))
    ∙ slice-memcpy_self m (suc p) xs)

pub slice_ext :
    (m k : Block) (s n : ℕ) → ((j : ℕ) → j < s + n → m j ≡ k j) → slice m s n ≡ slice k s n
slice_ext m k s zero h = refl
slice_ext m k s (suc n) h =
    ap₂ ◌∷◌ (h s (omega arith)) (slice_ext m k (suc s) n (λ j p. h j (omega arith)))

-- A slice that is a concatenation falls into the two slices.
pub slice_split :
    (m : Block) (s n : ℕ) (xs ys : List ℕ)
    → slice m s n ≡ xs ++ ys
    → (slice m s (length xs) ≡ xs)
      × (slice m (s + length xs) (n - length xs) ≡ ys)
      × (n ≡ length xs + length ys)
slice_split m s n [] ys e = (
  refl,
  ap₂ (slice m) (omega arith) (omega arith) ∙ e,
  omega (arith, ap length e, length-slice m s n),
)
slice_split m s zero (x ∷ xs) ys e = absurd (omega (arith, ap length e))
slice_split m s (suc n) (x ∷ xs) ys e =
    let (front, back, size) = slice_split m (suc s) n xs ys (cc) in
    (ap₂ ◌∷◌ (cc) front, ap₂ (slice m) (omega arith) (omega arith) ∙ back, omega arith)
