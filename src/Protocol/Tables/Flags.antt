-- ===== src/Protocol/Tables/Flags.antt =====
-- nfsv4/codepoint.h: the room that the text of a set of flags takes up.
use text.Mathlib.Text.{◌==◌ as str_eq}
use Prim.Native.Nat.{bit_and}
use ssqlite.Prelude.{
  ℕ, suc, List, [], ◌∷◌, ◌+◌, ◌≤◌, ◌≡◌, refl, some, ◌==◌, true, Bool-cases, inl, inr, arith, length,
  length-append,
}
use ssqlite.Protocol.Status.{Codepoint}
use ssqlite.Protocol.Status.Texts.{has_end}
use ssqlite.Protocol.Tables.{set_string_from, codepoint_set_string, with_bar, openflags, iocap}
use ssqlite.Xdr.Push.{codes}

-- All descriptions of a table, each with a byte for a bar.
unfoldable pub room : List Codepoint → ℕ
room [] = 0
room ((description, v) ∷ set) = suc (length (codes description)) + room set

length-with_bar : (text d : List ℕ) → length (with_bar text d) ≤ length text + suc (length d)
length-with_bar [] d = omega arith
length-with_bar (x ∷ xs) d = omega (arith, length-append xs (b'|' ∷ d))

set_string_from-room :
    (set : List Codepoint) (flags : ℕ) (text : List ℕ)
    → has_end set ≡ true
    → (result : List ℕ) × (set_string_from set flags text ≡ some result)
      × (length result ≤ length text + room set)
unfolding set_string_from has_end room
set_string_from-room [] flags text h = cc
set_string_from-room ((description, v) ∷ set) flags text h =
    elim (Bool-cases (str_eq description "")) [
      | inl e ↦ (text, rw e refl, omega arith)
      | inr e ↦ elim (Bool-cases (bit_and flags v == 0)) [
        | inl k ↦
            let (result, same, fits) = set_string_from-room set flags text (rw e at h) in
            (result, rw (e, k) same, omega arith)
        | inr k ↦
            let longer = with_bar text (codes description) in
            let (result, same, fits) = set_string_from-room set flags longer (rw e at h) in
            (result, rw (e, k) same, omega (arith, length-with_bar text (codes description)))
      ]
    ]

-- For every set of flags `codepoint_set_string` ends on the tables `openflags` and `iocap`, and
-- its text fits with the null byte behind it into the 1024 bytes of `temp_set`.
pub codepoint_set_string-room :
    (flags : ℕ)
    → ((text : List ℕ) × (codepoint_set_string openflags flags ≡ some text)
        × (length text + 1 ≤ 1024))
      × ((text : List ℕ) × (codepoint_set_string iocap flags ≡ some text)
          × (length text + 1 ≤ 1024))
unfolding codepoint_set_string openflags iocap room has_end
codepoint_set_string-room flags =
    let (a, same, fits) = set_string_from-room openflags flags [] refl in
    let (b, same1, fits1) = set_string_from-room iocap flags [] refl in
    ((a, same, omega arith), (b, same1, omega arith))
