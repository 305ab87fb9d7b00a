-- ===== src/Text/Numbers.antt =====
-- nfsv4/runtime.h and nfsv4/config.h: what the parsers of numbers compute, and what is printed.
use ssqlite.Prelude.{
  ℕ, suc, ◌+◌, ◌-◌, ◌*◌, ◌/◌, ◌%◌, ◌^◌, ◌≤◌, ◌<◌, ◌≡◌, sym, ap, ◌∙◌, List, [], ◌∷◌, map, All, arith,
  some,
}
use ssqlite.Rpc.Config.{u64, digit64, config_digits}
use ssqlite.Text.{parse_u64, parse_digits, print_u64, log_loop, digit_loop}

abbrev pub IsDigit : ℕ → Type 0
IsDigit d = d < 10

-- The characters of decimal digits.
abbrev pub numerals : List ℕ → List ℕ
numerals = map (λ d. d + b'0')

-- The number that decimal digits stand for.
abbrev pub value_from : ℕ → List ℕ → ℕ
value_from acc [] = acc
value_from acc (d ∷ ds) = value_from (acc * 10 + d) ds

abbrev pub sum : List ℕ → ℕ
sum [] = 0
sum (d ∷ ds) = d + sum ds

digit64-numeral : (d : ℕ) → d < 10 → digit64 (d + b'0') ≡ d
digit64-numeral d h = ground arith

value_from-mod :
    (ds : List ℕ) (a : ℕ) → value_from (a % 2 ^ 64) ds % 2 ^ 64 ≡ value_from a ds % 2 ^ 64
value_from-mod [] a = omega arith
value_from-mod (d ∷ ds) a =
    sym (value_from-mod ds (a % 2 ^ 64 * 10 + d))
    ∙ ap (λ (n : ℕ). value_from n ds % 2 ^ 64) (omega arith)
    ∙ value_from-mod ds (a * 10 + d)

parse_digits-value :
    (ds : List ℕ) (acc : ℕ)
    → acc < 2 ^ 64
    → All IsDigit ds
    → parse_digits acc (numerals ds) ≡ value_from acc ds % 2 ^ 64
unfolding parse_digits
parse_digits-value [] acc k h = omega arith
parse_digits-value (d ∷ ds) acc k h =
    ap (λ (t : ℕ). parse_digits (u64 (acc * 10 + t)) (numerals ds)) (digit64-numeral d h.0)
    ∙ parse_digits-value ds (u64 (acc * 10 + d)) (omega arith) h.1
    ∙ value_from-mod ds (acc * 10 + d)

-- `parse_u64` of the characters of decimal digits is the number that the digits stand for, modulo
-- 2 ^ 64.
pub parse_u64-value :
    (ds : List ℕ) → All IsDigit ds → parse_u64 (numerals ds) ≡ value_from 0 ds % 2 ^ 64
unfolding parse_u64
parse_u64-value ds h = parse_digits-value ds 0 (omega arith) h

-- The loop of `config_u64` on the characters of decimal digits adds ten times the sum of the
-- digits to the number it starts with, modulo 2 ^ 64, whatever the places of the digits.
pub config_digits-sum :
    (ds : List ℕ) (acc : ℕ)
    → acc < 2 ^ 64
    → All IsDigit ds
    → config_digits acc (numerals ds) ≡ (acc + 10 * sum ds) % 2 ^ 64
unfolding config_digits
config_digits-sum [] acc k h = omega arith
config_digits-sum (d ∷ ds) acc k h =
    ap (λ (t : ℕ). config_digits (u64 (acc + 10 * t)) (numerals ds)) (digit64-numeral d h.0)
    ∙ config_digits-sum ds (u64 (acc + 10 * d)) (omega arith) h.1
    ∙ omega arith

log_loop_one : (s fuel : ℕ) → 0 < s → s < 10 → log_loop (suc (suc (suc fuel))) s 1 ≡ some 100
unfolding log_loop
log_loop_one s fuel h k = ground arith

log_loop_two :
    (s fuel : ℕ) → 10 ≤ s → s < 100 → log_loop (suc (suc (suc (suc fuel)))) s 1 ≡ some 1000
unfolding log_loop
log_loop_two s fuel h k = ground arith

digit_loop_one :
    (s fuel : ℕ)
    → 0 < s
    → s < 10
    → digit_loop (suc (suc (suc (suc fuel)))) s 100 ≡ some (b'0' ∷ b'0' ∷ (b'0' + s) ∷ [])
unfolding digit_loop
digit_loop_one s fuel h k = ground arith

digit_loop_two :
    (s fuel : ℕ)
    → 10 ≤ s
    → s < 100
    → digit_loop (suc (suc (suc (suc (suc fuel))))) s 1000
      ≡ some (b'0' ∷ b'0' ∷ (b'0' + s / 10) ∷ (b'0' + (s - s / 10)) ∷ [])
unfolding digit_loop
digit_loop_two s fuel h k = ground arith

-- With fuel 5 or more, `print_u64` of a number from 1 to 9 pushes two zeros and the digit.
pub print_u64_one :
    (s fuel : ℕ)
    → 0 < s
    → s < 10
    → print_u64 (suc (suc (suc (suc (suc fuel))))) s ≡ some (b'0' ∷ b'0' ∷ (b'0' + s) ∷ [])
unfolding print_u64
print_u64_one s fuel h k =
    ground (arith, log_loop_one s (suc (suc fuel)), digit_loop_one s (suc fuel))

-- With fuel 5 or more, `print_u64` of a number `s` from 10 to 99 pushes two zeros, the first
-- digit, and the character that lies `s - s / 10` behind '0'.
pub print_u64_two :
    (s fuel : ℕ)
    → 10 ≤ s
    → s < 100
    → print_u64 (suc (suc (suc (suc (suc fuel))))) s
      ≡ some (b'0' ∷ b'0' ∷ (b'0' + s / 10) ∷ (b'0' + (s - s / 10)) ∷ [])
unfolding print_u64
print_u64_two s fuel h k = ground (arith, log_loop_two s (suc fuel), digit_loop_two s fuel)
