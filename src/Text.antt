-- ===== src/Text.antt =====
-- nfsv4/runtime.h and nfsv4/vector.h: numbers as text, and paths split and joined. A buffer that
-- is only read, or that starts empty and is pushed to, is the list of its bytes.
pub mod Paths
pub mod Numbers
pub mod Ticks
pub mod Vectors
use ssqlite.Prelude.{
  ℕ, zero, suc, ◌+◌, ◌-◌, ◌*◌, ◌/◌, ◌%◌, List, [], ◌∷◌, ◌++◌, Option, none, some, ◌==◌,
  if◌then◌else◌, ltb, length,
}
use ssqlite.Rpc.Config.{u64, digit64}
use ssqlite.Buffer.{u32}
use ssqlite.Xdr.Push.{codes}
use ssqlite.System.{StateId}

parse_digits : ℕ → List ℕ → ℕ
parse_digits result [] = result
parse_digits result (x ∷ xs) = parse_digits (u64 (result * 10 + digit64 x)) xs

pub parse_u64 : List ℕ → ℕ
unfolding parse_digits
parse_u64 s = parse_digits 0 s

-- `for (u64 b = s; b; b /= log, log *= 10);` with fuel: the last value of `log`.
log_loop : ℕ → ℕ → ℕ → Option ℕ
log_loop zero b log = none
log_loop (suc fuel) b log =
    let rest = log_loop fuel (b / log) (u32 (log * 10)) in if b == 0 then some log else rest

-- `for (u64 b = s; b; b -= b / log, log /= 10) push_char(d, '0' + b / log);` with fuel.
digit_loop : ℕ → ℕ → ℕ → Option (List ℕ)
digit_loop zero b log = none
digit_loop (suc fuel) b log =
    let rest : Option (List ℕ) = elim (digit_loop fuel (b - b / log) (log / 10)) [
      | none ↦ none
      | some xs ↦ some (((b'0' + b / log) % 256) ∷ xs)
    ] in
    if b == 0 then some [] else rest

-- The characters that are pushed; `none` if the fuel ran out.
pub print_u64 : ℕ → ℕ → Option (List ℕ)
print_u64 fuel s =
    if s == 0
    then some (b'0' ∷ [])
    else elim (log_loop fuel s 1) [ none ↦ none | some log ↦ digit_loop fuel s log ]

-- The pieces that are left when `each` has been gathered.
unfoldable pub split_from : ℕ → List ℕ → List ℕ → List (List ℕ)
split_from divider each [] = if ltb 0 (length each) then each ∷ [] else []
split_from divider each (i ∷ source) =
    let cut = each ∷ split_from divider [] source in
    let on = split_from divider (each ++ (i ∷ [])) source in if i == divider then cut else on

unfoldable pub split : List ℕ → ℕ → List (List ℕ)
split source divider = split_from divider [] source

-- From the second piece on, each with the separator before it.
unfoldable pub join_rest : ℕ → List (List ℕ) → List ℕ
join_rest between [] = []
join_rest between (x ∷ source) = between ∷ (x ++ join_rest between source)

unfoldable pub join : List (List ℕ) → ℕ → List ℕ
join [] between = []
join (x ∷ source) between = x ++ join_rest between source

-- `if (length(b) != 1) push_char(b, '/')` before each component
unfoldable pub path_from : List ℕ → List (List ℕ) → List ℕ
path_from b [] = b
path_from b (i ∷ v) = path_from (if length b == 1 then b ++ i else b ++ (b'/' ∷ i)) v

unfoldable pub print_path : List (List ℕ) → List ℕ
print_path v = path_from (b'/' ∷ []) v

unfoldable pub filename : List (List ℕ) → List ℕ
filename path = join path b'/' ++ (0 ∷ [])

-- `%0nx`: the last `n` digits in base 16, the first digit first.
hex_padded : ℕ → ℕ → List ℕ
hex_padded zero x = []
hex_padded (suc n) x =
    hex_padded n (x / 16) ++ ((if ltb (x % 16) 10 then b'0' + x % 16 else b'a' + x % 16 - 10) ∷ [])

hex_bytes : List ℕ → List ℕ
unfolding hex_padded
hex_bytes [] = []
hex_bytes (x ∷ xs) = hex_padded 2 x ++ hex_bytes xs

-- What `print_stateid` prints.
pub print_stateid : StateId → List ℕ
unfolding hex_padded hex_bytes
print_stateid sid = codes "stateid:" ++ hex_padded 8 sid.seqid ++ codes ":" ++ hex_bytes sid.opaque
