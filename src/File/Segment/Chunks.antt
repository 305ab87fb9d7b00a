-- ===== src/File/Segment/Chunks.antt =====
-- nfsv4/rpc.c, `segment`: the loop against the list of its chunks.
use mathlib.Core.Path.{subst}
use ssqlite.Prelude.{
  ℕ, zero, suc, ◌+◌, ◌-◌, ◌^◌, ◌≤◌, ◌<◌, min, ◌≡◌, refl, ap, ◌∙◌, List, [], ◌∷◌, arith, lt→ltb,
  ltb-false,
}
use ssqlite.Buffer.{u32}
use ssqlite.Rpc.Config.{u64}
use ssqlite.File.Segment.{segment, segment_from}
use ssqlite.System.{M, ◌>>◌, ◌>>=◌, pure, ok, stuck, Sys}

-- A chunk: where it starts in the transfer, and its length.
abbrev pub Chunk : Type 0
Chunk = ℕ × ℕ

-- The chunks of `rest` bytes from `done` on: each as long as may be. `n` bounds their number.
unfoldable pub chunks : ℕ → ℕ → ℕ → ℕ → List Chunk
chunks zero size done rest = []
chunks (suc n) size done zero = []
chunks (suc n) size done (suc r) =
    (done, min (suc r) size) ∷ chunks n size (done + min (suc r) size) (suc r - min (suc r) size)

-- The chunks follow each other without a gap from `done` to `stop`, none empty or above the limit.
abbrev pub Tiles : ℕ → ℕ → ℕ → List Chunk → Type 0
Tiles size done stop [] = done ≡ stop
Tiles size done stop ((start, len) ∷ cs) =
    (start ≡ done) × (0 < len) × (len ≤ size) × Tiles size (done + len) stop cs

pub Tiles-le : (size done stop : ℕ) (cs : List Chunk) → Tiles size done stop cs → done ≤ stop
Tiles-le size done stop [] e = omega (arith, e)
Tiles-le size done stop ((start, n) ∷ cs) (e, p, q, t) =
    omega (arith, Tiles-le size (done + n) stop cs t)

chunks-Tiles :
    (n size done rest : ℕ)
    → 0 < size
    → rest ≤ n
    → Tiles size done (done + rest) (chunks n size done rest)
unfolding chunks
chunks-Tiles zero size done rest h k = omega arith
chunks-Tiles (suc n) size done zero h k = omega arith
chunks-Tiles (suc n) size done (suc r) h k = (
  refl,
  omega arith,
  omega arith,
  subst (λ stop. Tiles size (done + xfer) stop (chunks n size (done + xfer) (suc r - xfer))) same
      (chunks-Tiles n size (done + xfer) (suc r - xfer) h (omega arith)),
)
  where
    xfer : ℕ
    xfer = min (suc r) size

    same : done + xfer + (suc r - xfer) ≡ done + suc r
    same = omega arith

module _ {W : Type 0} (each : ℕ → ℕ → ℕ → M W (Unit {0})) (x offset : ℕ) where
  -- One call for each chunk in order, up to the first that fails.
  unfoldable pub in_order : List Chunk → M W (Unit {0})
  in_order [] = pure tt
  in_order ((start, len) ∷ cs) = do each (x + start) (u64 (offset + start)) len; in_order cs

  module _ (chunksize length : ℕ) where
    segment_from-in_order :
        (fuel n done rest : ℕ)
        → 0 < chunksize
        → done + rest ≡ length
        → length < 2 ^ 32
        → rest ≤ n
        → rest < fuel
        → segment_from each chunksize x offset length fuel done
          ≡ in_order (chunks n chunksize done rest)
    unfolding segment_from in_order chunks
    segment_from-in_order zero n done rest h e w k l = absurd (omega arith)
    segment_from-in_order (suc fuel) zero done rest h e w k l =
        rw (ltb-false done length (omega arith))
    segment_from-in_order (suc fuel) (suc n) done zero h e w k l =
        rw (ltb-false done length (omega arith))
    segment_from-in_order (suc fuel) (suc n) done (suc r) h e w k l =
        let later =
          ap (segment_from each chunksize x offset length fuel) next
          ∙ segment_from-in_order fuel n _ (suc r - min (suc r) chunksize) h (omega arith) w
              (omega arith) (omega arith) in
        rw (lt→ltb done length (omega arith))
          λ i. each (x + done) (u64 (offset + done)) (xfer i) >> later i
      where
        xfer : min (length - done) chunksize ≡ min (suc r) chunksize
        xfer = omega arith

        next : u32 (done + min (length - done) chunksize) ≡ done + min (suc r) chunksize
        next = omega arith

    -- For a chunk size above 0, a length below 2 ^ 32 and more fuel than bytes, `segment` does
    -- what one call for each of the chunks does, in order and up to the first call that does not
    -- succeed; and the chunks follow each other without gap or overlap from the first byte to the
    -- last, each with at least one byte and at most the chunk size.
    pub segment-in_order :
        (fuel : ℕ)
        → 0 < chunksize
        → length < 2 ^ 32
        → length < fuel
        → (segment each chunksize x offset length fuel
            ≡ in_order (chunks length chunksize 0 length))
          × Tiles chunksize 0 length (chunks length chunksize 0 length)
    unfolding segment
    segment-in_order fuel h w l = (
      segment_from-in_order fuel length 0 length h (omega arith) w (omega arith) l,
      subst (λ (stop : ℕ). Tiles chunksize 0 stop (chunks length chunksize 0 length)) (omega arith)
          (chunks-Tiles length chunksize 0 length h (omega arith)),
    )

  module _ (length : ℕ) where
    -- A round with the chunk size 0 gets nowhere.
    zero_round :
        (fuel : ℕ)
        → 0 < length
        → segment_from each 0 x offset length (suc fuel) 0
          ≡ (each (x + 0) (u64 (offset + 0)) 0 >> segment_from each 0 x offset length fuel 0)
    unfolding segment_from
    zero_round fuel p = rw (lt→ltb 0 length p) λ i.
        each (x + 0) (u64 (offset + 0)) (xfer i)
        >> segment_from each 0 x offset length fuel (next i)
      where
        xfer : min (length - 0) 0 ≡ 0
        xfer = omega arith

        next : u32 (0 + min (length - 0) 0) ≡ 0
        next = omega arith

    zero_rounds :
        (fuel : ℕ) (s : Sys W)
        → 0 < length
        → ((s : Sys W) → (s' : Sys W) × (each (x + 0) (u64 (offset + 0)) 0 s ≡ (ok tt, s')))
        → (s' : Sys W) × (segment_from each 0 x offset length fuel 0 s ≡ (stuck, s'))
    zero_rounds zero s p h = (s, unfold segment_from in refl)
    zero_rounds (suc fuel) s p h =
        let (s1, e) = h s in
        let (s2, later) = zero_rounds fuel s1 p h in
        (s2, ap (λ (m : M W (Unit {0})). m s) (zero_round fuel p) ∙ rw (e, ◌>>=◌) later)

    -- With the chunk size 0, a length above 0 and calls that succeed, the loop of `segment` never
    -- ends: it uses up any fuel.
    pub segment_zero_never_ends :
        (fuel : ℕ) (s : Sys W)
        → 0 < length
        → ((s : Sys W) → (s' : Sys W) × (each (x + 0) (u64 (offset + 0)) 0 s ≡ (ok tt, s')))
        → (s' : Sys W) × (segment each 0 x offset length fuel s ≡ (stuck, s'))
    unfolding segment
    segment_zero_never_ends fuel s p h = zero_rounds fuel s p h
