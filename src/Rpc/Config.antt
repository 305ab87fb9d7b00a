-- ===== src/Rpc/Config.antt =====
-- nfsv4/config.h: settings from the environment.
use ssqlite.Prelude.{
  ℕ, ◌+◌, ◌-◌, ◌*◌, ◌%◌, ◌^◌, Bool, true, String, List, [], ◌∷◌, none, some, ltb, if◌then◌else◌,
}
use ssqlite.System.{Machine}

-- `u64`
abbrev pub u64 : ℕ → ℕ
u64 n = n % 2 ^ 64

-- `*i - '0'` as the 64-bit number that it becomes in a sum: `char` is signed, and a negative
-- difference wraps.
abbrev pub digit64 : ℕ → ℕ
digit64 x = if ltb x 128 then u64 (x + 2 ^ 64 - b'0') else u64 (x + 2 ^ 64 - 256 - b'0')

-- `for (…) result = result + 10 * (*i - '0')`
unfoldable pub config_digits : ℕ → List ℕ → ℕ
config_digits result [] = result
config_digits result (x ∷ xs) = config_digits (u64 (result + 10 * digit64 x)) xs

module _ {W : Type 0} (m : Machine W) where
  unfoldable pub config_boolean : String → Bool → Bool
  config_boolean name def = elim (m.getenv name) [ none ↦ def | some _ ↦ true ]

  unfoldable pub config_u64 : String → ℕ → ℕ
  config_u64 name def = elim (m.getenv name) [ none ↦ def | some x ↦ config_digits 0 x ]
