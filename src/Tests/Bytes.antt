-- ===== src/Tests/Bytes.antt =====
-- Buffers, words, paths and numbers.
use ssqlite.Prelude.{ℕ, ◌≡◌, List, [], ◌∷◌, arith}
use ssqlite.Buffer.{Buffer, bytes, allocate_buffer, push_bytes, buffer_extend}
use ssqlite.Buffer.Growth.{Holds, allocate_buffer-Holds, push_bytes-Holds, buffer_extend_grows}
use ssqlite.Text.{split, join, parse_u64}
use ssqlite.Text.Paths.{NoDivider, join-split, split-join}
use ssqlite.Text.Numbers.{numerals, parse_u64-value, config_digits-sum}
use ssqlite.Rpc.Config.{config_digits}
use ssqlite.Tests.Data.{heap7}

-- Too small for what the tests push.
abbrev small : Buffer
small = allocate_buffer heap7 4

abbrev five : List ℕ
five = 1 ∷ 2 ∷ 3 ∷ 4 ∷ 5 ∷ []

small-Holds : Holds small []
small-Holds = allocate_buffer-Holds heap7 4 (omega arith)

five-Holds : Holds (push_bytes small five) five
five-Holds = push_bytes-Holds small [] five small-Holds (omega arith)

-- Two bytes of three have been read.
abbrev part_read : Buffer
part_read = record { h = heap7; start = 2; end = 3; capacity = 4; contents = λ j. j }

buffer_extend_grows_example : bytes (buffer_extend part_read 4) ≡ 0 ∷ []
buffer_extend_grows_example =
    buffer_extend_grows part_read 4 (omega arith) (omega arith) (omega arith)

-- "/ab//c"
abbrev path_text : List ℕ
path_text = b'/' ∷ b'a' ∷ b'b' ∷ b'/' ∷ b'/' ∷ b'c' ∷ []

join-split_example : join (split path_text b'/') b'/' ≡ path_text
join-split_example = join-split b'/' path_text (λ e. omega (arith, e))

five-NoDivider : NoDivider 9 five
five-NoDivider = (
  λ e. omega (arith, e),
  (
    λ e. omega (arith, e),
    (λ e. omega (arith, e), (λ e. omega (arith, e), (λ e. omega (arith, e), tt))),
  ),
)

split-join_example : split (join (five ∷ [] ∷ five ∷ []) 9) 9 ≡ five ∷ [] ∷ five ∷ []
split-join_example =
    split-join 9 (five ∷ [] ∷ five ∷ []) (five-NoDivider, (tt, (five-NoDivider, tt))) (omega arith)

parse_u64-value_example : parse_u64 (numerals (1 ∷ 2 ∷ 0 ∷ [])) ≡ 120
parse_u64-value_example =
    parse_u64-value (1 ∷ 2 ∷ 0 ∷ []) (omega arith, (omega arith, (omega arith, tt)))

config_digits-sum_example : config_digits 0 (numerals (1 ∷ 2 ∷ 0 ∷ [])) ≡ 30
config_digits-sum_example =
    config_digits-sum (1 ∷ 2 ∷ 0 ∷ []) 0 (omega arith)
      (omega arith, (omega arith, (omega arith, tt)))
