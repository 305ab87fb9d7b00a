-- ===== src/Protocol/Status/Texts.antt =====
-- nfsv4/codepoint.h: the scan of a table ends at its entry with no description.
use text.Mathlib.Text.{◌==◌ as str_eq}
use ssqlite.Prelude.{
  ℕ, ◌≡◌, refl, String, Bool, true, false, List, [], ◌∷◌, ◌||◌, some, ◌==◌, Bool-cases, inl, inr,
}
use ssqlite.Protocol.Status.{Codepoint, codestring, nfsstatus}

-- The table has an entry with no description.
unfoldable pub has_end : List Codepoint → Bool
has_end [] = false
has_end ((description, v) ∷ set) = str_eq description "" || has_end set

pub codestring_total :
    (set : List Codepoint) (value : ℕ)
    → has_end set ≡ true
    → (text : String) × (codestring set value ≡ some text)
unfolding codestring has_end
codestring_total [] value h = cc
codestring_total ((description, v) ∷ set) value h = elim (Bool-cases (str_eq description "")) [
  | inl e ↦ ("unknown error", rw e refl)
  | inr e ↦ elim (Bool-cases (v == value)) [
    | inl k ↦ (description, rw (e, k) refl)
    | inr k ↦ let (text, later) = codestring_total set value (rw e at h) in (text, rw (e, k) later)
  ]
]

nfsstatus_ends : has_end nfsstatus ≡ true
unfolding has_end nfsstatus
nfsstatus_ends = refl

pub nfsstatus_text : (code : ℕ) → (text : String) × (codestring nfsstatus code ≡ some text)
nfsstatus_text code = codestring_total nfsstatus code nfsstatus_ends
