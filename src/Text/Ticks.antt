-- ===== src/Text/Ticks.antt =====
-- nfsv4/ticks.h: times as 32 bits of seconds and 32 bits of their fraction, and their text.
use ssqlite.Prelude.{
  ℕ, zero, suc, ◌+◌, ◌-◌, ◌*◌, ◌/◌, ◌%◌, ◌^◌, ◌<◌, ◌≡◌, refl, List, [], ◌∷◌, ◌++◌, Option, none,
  some, arith, ◌==◌, true, inl, inr, Bool-cases, if◌then◌else◌,
}
use ssqlite.Rpc.Config.{u64}
use ssqlite.Text.{print_u64}

-- The seconds and microseconds of `gettimeofday`; the two parts share no bit.
pub ktime : ℕ → ℕ → ℕ
ktime sec usec = u64 (sec * 2 ^ 32) + usec * 2 ^ 32 / 1000000

-- `for (u32 log = (1ull<<32)/10; log && fraction; fraction -= digit * log, log /= 10)`, which
-- pushes a digit in each round; `none` if the fuel ran out.
fraction_loop : ℕ → ℕ → ℕ → Option (List ℕ)
fraction_loop zero log fraction = none
fraction_loop (suc fuel) log fraction =
    let digit = fraction / log in
    let rest : Option (List ℕ) = elim (fraction_loop fuel (log / 10) (fraction - digit * log)) [
      | none ↦ none
      | some xs ↦ some (((b'0' + digit) % 256) ∷ xs)
    ] in
    if log == 0 then some [] else if fraction == 0 then some [] else rest

-- The point and the digits behind it, if there are any.
fraction_text : ℕ → ℕ → Option (List ℕ)
fraction_text fuel fraction =
    if fraction == 0 then some [] else elim (fraction_loop fuel (2 ^ 32 / 10) fraction) [
      | none ↦ none
      | some xs ↦ some (b'.' ∷ xs)
    ]

pub print_ticks : ℕ → ℕ → Option (List ℕ)
unfolding fraction_text
print_ticks fuel t = elim (print_u64 fuel (t / 2 ^ 32)) [
  | none ↦ none
  | some seconds ↦ elim (fraction_text fuel (t % 2 ^ 32)) [
    | none ↦ none
    | some rest ↦ some (seconds ++ rest)
  ]
]

-- As many rounds as `log` has digits are enough, and one more.
tenth : (k log : ℕ) → log < k * 10 → log / 10 < k
tenth k log h = omega arith

rounds : ℕ → ℕ
rounds zero = 1
rounds (suc fuel) = rounds fuel * 10

fraction_loop-total :
    (fuel log fraction : ℕ)
    → log < rounds fuel
    → (xs : List ℕ) × (fraction_loop (suc fuel) log fraction ≡ some xs)
unfolding fraction_loop rounds
fraction_loop-total zero log fraction h = ([], rw (log_zero) refl)
  where
    log_zero : (log == 0) ≡ true
    log_zero = ground arith
fraction_loop-total (suc fuel) log fraction h =
    let digit = fraction / log in
    let (xs, e) =
      fraction_loop-total fuel (log / 10) (fraction - digit * log) (tenth (rounds fuel) log h) in
    elim (Bool-cases (log == 0)) [
      | inl done ↦ ([], rw done refl)
      | inr more ↦ elim (Bool-cases (fraction == 0)) [
        | inl done ↦ ([], rw (more, done) refl)
        | inr left ↦
            (((b'0' + digit) % 256) ∷ xs, rw (more, left) (unfold fraction_loop in rw e refl))
      ]
    ]

-- The text of any 64 bits ends within ten rounds of its fraction.
fraction_text-total : (fraction : ℕ) → (xs : List ℕ) × (fraction_text 10 fraction ≡ some xs)
unfolding fraction_text rounds
fraction_text-total fraction =
    let (xs, e) = fraction_loop-total 9 (2 ^ 32 / 10) fraction (omega arith) in
    elim (Bool-cases (fraction == 0)) [
      | inl done ↦ ([], rw done refl)
      | inr more ↦ (b'.' ∷ xs, rw (more, e) refl)
    ]

-- A fraction in the last six parts of 2 ^ 32 has ten as its first digit, which is pushed as ':'.
colon : fraction_text 10 4294967290 ≡ some (b'.' ∷ b':' ∷ [])
unfolding fraction_text fraction_loop
colon = refl
