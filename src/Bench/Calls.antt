-- ===== src/Bench/Calls.antt =====
-- pyvfsbench/vfsbench.c, `op_sequentially`, `op_randomly` and `run_test`: the calls that are made.
use ssqlite.Prelude.{
  ℕ, zero, suc, ◌+◌, ◌-◌, ◌*◌, ◌/◌, ◌^◌, ◌<◌, ◌≡◌, refl, sym, ap, ◌∙◌, inl, inr, ◌⊎◌, List, [], ◌∷◌,
  ◌++◌, arith, length, length-append, ltb, ◌==◌, ==_iff, Bool-cases, lt→ltb, ltb→lt, true, false,
  Bool, ltb-false, if◌then◌else◌,
}
use ssqlite.Prelude.Memory.{memcpy}
use ssqlite.Buffer.{u32}
use ssqlite.Rpc.Config.{u64}
use ssqlite.File.Open.{le_bytes}
use ssqlite.File.Filled.{Filled, Filled-nil, Filled-append, Filled-eq}
use ssqlite.Bench.{
  Bench, BenchState, FileOp, TestConfig, fill_words, fill_random, sequential_from, random_from,
  op_randomly, prepared, run_test, on_blocks,
}
use ssqlite.System.{ok, panic}

-- The reference: one call for each position, in order, up to the first that fails; the last
-- result code and the number of calls before it that succeeded.
abbrev pub calls : {W : Type 0} → FileOp W → ℕ → ℕ → List ℕ → BenchState W → ℕ × ℕ × BenchState W
calls op zbuf n [] s = (0, 0, s)
calls op zbuf n (p ∷ ps) s =
    let (rc, s') = op zbuf n p s in
    let (rc', k, s'') = calls op zbuf n ps s' in if rc == 0 then (rc', suc k, s'') else (rc, 0, s')

-- The multiples of the block size from the `i`th on, `n` of them.
abbrev pub multiples : ℕ → ℕ → ℕ → List ℕ
multiples block_size zero i = []
multiples block_size (suc n) i = u64 (i * block_size) ∷ multiples block_size n (i + 1)

module _ {W : Type 0} (op : FileOp W) (zbuf block_size : ℕ) where
  next_multiple : (i : ℕ) → u64 (u64 (i * block_size) + block_size) ≡ u64 ((i + 1) * block_size)
  next_multiple i = grind arith

  abbrev counted : ℕ → ℕ × ℕ × BenchState W → ℕ × ℕ × BenchState W
  counted ct (rc, k, s) = (rc, ct + k, s)

  sequential_from-calls :
      (n fuel ct : ℕ) (s : BenchState W)
      → n < fuel
      → ct + n < 2 ^ 64
      → sequential_from op zbuf block_size (ct + n) fuel (u64 (ct * block_size)) ct 0 s
        ≡ ok (counted ct (calls op zbuf (u32 block_size) (multiples block_size n ct) s))
  unfolding sequential_from
  sequential_from-calls n zero ct s h k = absurd (omega arith)
  sequential_from-calls zero (suc fuel) ct s h k =
      rw (ltb-false ct (ct + 0) (omega arith)) (ap (λ (i : ℕ). ok (0, i, s)) (omega arith))
  sequential_from-calls (suc n) (suc fuel) ct s h k =
      let (rc, s') = op zbuf (u32 block_size) (u64 (ct * block_size)) s in
      let later = calls op zbuf (u32 block_size) (multiples block_size n (ct + 1)) s' in
      rw (lt→ltb ct (ct + suc n) (omega arith)) (elim (Bool-cases (rc == 0)) [
        | inl zero_code ↦ rw zero_code (
            (λ i.
              sequential_from op zbuf block_size (total i) fuel (next_multiple ct i) (count i)
                ((==_iff rc 0).0 zero_code i) s')
            ∙ sequential_from-calls n fuel (ct + 1) s' (omega arith) (omega arith)
            ∙ ap (λ (i : ℕ). ok (later.0, i, later.2)) (shift later.1))
        | inr failed ↦ rw failed (ap (λ (i : ℕ). ok (rc, i, s')) (omega arith))
      ])
    where
      total : ct + suc n ≡ ct + 1 + n
      total = omega arith

      count : u64 (ct + 1) ≡ ct + 1
      count = omega (arith, k)

      shift : (j : ℕ) → ct + 1 + j ≡ ct + suc j
      shift j = omega arith

  -- For fewer than 2 ^ 64 operations and more fuel than operations, the loop of `op_sequentially`
  -- from the position 0 does what one call for each of the first multiples of the block size does,
  -- modulo 2 ^ 64, in order and up to the first call that fails: it ends with the result code of
  -- the last call and the number of calls that succeeded.
  pub sequential_from-multiples :
      (n_ops fuel : ℕ) (s : BenchState W)
      → n_ops < fuel
      → n_ops < 2 ^ 64
      → sequential_from op zbuf block_size n_ops fuel 0 0 0 s
        ≡ ok (calls op zbuf (u32 block_size) (multiples block_size n_ops 0) s)
  sequential_from-multiples n_ops fuel s h k =
      let r = calls op zbuf (u32 block_size) (multiples block_size n_ops 0) s in
      (λ i. sequential_from op zbuf block_size (none_done i) fuel (at_start i) 0 0 s)
      ∙ sequential_from-calls n_ops fuel 0 s h (omega arith)
      ∙ ap (λ (i : ℕ). ok (r.0, i, r.2)) (zero_left r.1)
    where
      none_done : n_ops ≡ 0 + n_ops
      none_done = omega arith

      at_start : 0 ≡ u64 (0 * block_size)
      at_start = omega arith

      zero_left : (j : ℕ) → 0 + j ≡ j
      zero_left j = omega arith

module _ {W : Type 0} (b : Bench W) where
  four_bytes : (r : ℕ) → length (le_bytes 4 r) ≡ 4
  unfolding le_bytes
  four_bytes r = refl

  fill_words-Filled :
      (fuel p stop : ℕ) (s : BenchState W)
      → stop - p < fuel
      → (xs : List ℕ) × (length xs ≡ (stop - p + 3) / 4 * 4)
        × ((s' : BenchState W) × (fill_words b fuel p stop s ≡ ok s')
            × Filled s.memory s'.memory p xs)
  unfolding fill_words
  fill_words-Filled zero p stop s h = absurd (omega arith)
  fill_words-Filled (suc fuel) p stop s h =
      let (r, w) = b.random s.world in
      let s1 : BenchState W = record { memory = memcpy s.memory p (le_bytes 4 r); world = w } in
      elim (Bool-cases (ltb p stop)) [
        | inr done ↦ ([], ended p stop done, (s, rw done refl, Filled-nil s.memory p))
        | inl more ↦
            let (xs, size, (s', e, filled)) =
              fill_words-Filled fuel (p + 4) stop s1 (smaller fuel p stop h more) in
            (
              le_bytes 4 r ++ xs,
              rounded p stop more (length (le_bytes 4 r ++ xs)) (length xs)
                  (length-append (le_bytes 4 r) xs ∙ ap (λ (i : ℕ). i + length xs) (four_bytes r))
                  size,
              (
                s',
                rw more e,
                Filled-append s.memory s'.memory p (le_bytes 4 r) xs (
                    Filled-eq s1.memory s'.memory (p + 4) (p + length (le_bytes 4 r)) xs xs
                      (ap (λ (i : ℕ). p + i) (sym (four_bytes r))) refl filled),
              ),
            )
      ]
    where
      ended : (p stop : ℕ) → ltb p stop ≡ false → 0 ≡ (stop - p + 3) / 4 * 4
      ended p stop h = ground arith

      smaller : (fuel p stop : ℕ) → stop - p < suc fuel → ltb p stop ≡ true → stop - (p + 4) < fuel
      smaller fuel p stop h k = omega (arith, ltb→lt p stop k)

      rounded :
          (p stop : ℕ)
          → ltb p stop ≡ true
          → (all k : ℕ) → all ≡ 4 + k
          → k ≡ (stop - (p + 4) + 3) / 4 * 4
          → all ≡ (stop - p + 3) / 4 * 4
      rounded p stop h all k e f = omega (arith, ltb→lt p stop h)

  -- With more fuel than bytes, `fill_random` ends, and it has written the bytes of `size`, rounded
  -- up to a multiple of four, from the start of the block on, and no other byte: up to three bytes
  -- behind the block.
  pub fill_random-Filled :
      (fuel zbuf size : ℕ) (s : BenchState W)
      → size < fuel
      → (xs : List ℕ) × (length xs ≡ (size + 3) / 4 * 4)
        × ((s' : BenchState W) × (fill_random b fuel zbuf size s ≡ ok s')
            × Filled s.memory s'.memory zbuf xs)
  unfolding fill_random
  fill_random-Filled fuel zbuf size s h =
      let (xs, e, filled) = fill_words-Filled fuel zbuf (zbuf + size) s (omega arith) in
      (xs, omega (arith, e), filled)

  random_from-panic :
      (op : FileOp W) (zbuf block_size n_ops fuel : ℕ) (s : BenchState W)
      → 0 < n_ops
      → 0 < fuel
      → random_from b op zbuf block_size n_ops 0 fuel 0 0 s ≡ panic "division by zero"
  unfolding random_from
  random_from-panic op zbuf block_size n_ops zero s h k = absurd (omega arith)
  random_from-panic op zbuf block_size n_ops (suc fuel) s h k = rw (lt→ltb 0 n_ops h) refl

  short_quotient : (k n : ℕ) → k < n → k / n ≡ 0
  short_quotient k n h = grind arith

  -- A file that is shorter than a block.
  module _ (fuel : ℕ) (op : FileOp W) (sync : Bool) (config : TestConfig) (file_size : ℕ)
      (s : BenchState W) where
    on_blocks-panic :
        file_size < config.block_size
        → 0 < config.blocks_per_thread
        → config.block_size < fuel
        → on_blocks b fuel op config file_size sync s ≡ panic "division by zero"
    unfolding on_blocks op_randomly prepared
    on_blocks-panic short some_ops enough =
        let (zbuf, w) = b.malloc config.block_size s.world in
        let (xs, size, (s', e, filled)) =
          fill_random-Filled fuel zbuf config.block_size (record s { world = w }) enough in
        let nonzero : (config.block_size == 0) ≡ false = ground arith in
        rw nonzero (
          rw e (
            rw (short_quotient file_size config.block_size short) (
              rw
                (random_from-panic op zbuf config.block_size config.blocks_per_thread fuel _
                  some_ops (omega arith))
                refl)))

  -- The modes that make random calls, on a file that opens and is shorter than a block: with at
  -- least one call to make and more fuel than the block has bytes, `run_test` divides by zero.
  pub run_test-panic :
      (fuel : ℕ) (config : TestConfig) (s : BenchState W)
      → (config.mode ≡ "rr") ⊎ (config.mode ≡ "rw")
      → (b.x_open s.world).0 ≡ 0
      → (b.x_file_size (b.x_open s.world).1).0 < config.block_size
      → 0 < config.blocks_per_thread
      → config.block_size < fuel
      → run_test b fuel config s ≡ panic "division by zero"
  unfolding run_test
  run_test-panic fuel config s (inl m) opens short some_ops enough =
      rw (opens, m) (on_blocks-panic fuel b.x_read false config _ _ short some_ops enough)
  run_test-panic fuel config s (inr m) opens short some_ops enough =
      rw (opens, m) (on_blocks-panic fuel b.x_write true config _ _ short some_ops enough)
