-- ===== src/Text/Vectors.antt =====
-- nfsv4/vector.h: a vector is a buffer of pointers, eight bytes each, as they lie in memory.
-- `none` is the panic "out of bounds vector reference".
use ssqlite.Prelude.{
  ℕ, zero, suc, ◌+◌, ◌-◌, ◌*◌, ◌/◌, ◌^◌, ◌≤◌, ◌<◌, ◌≡◌, refl, sym, ap, ◌∙◌, List, [], ◌∷◌, ◌++◌,
  append_assoc, Option, none, some, arith, length, length-append, ltb, lt→ltb, ltb-false,
  if◌then◌else◌, false, All, append-nil, get_elem?,
}
use mathlib.Core.Path.{subst}
use ssqlite.Prelude.Memory.{slice, length-slice}
use ssqlite.Buffer.{
  Buffer, Heap, u32, sub32, buffer_length, allocate_buffer, append_bytes, buffer_extend, push_bytes,
}
use ssqlite.Buffer.Growth.{Holds, limit, push_bytes-Holds}
use ssqlite.Xdr.Words.{skip}
use ssqlite.Xdr.Decode.{Ahead, skip-Ahead}

abbrev pub pointer_size : ℕ
pointer_size = 8

abbrev pub Vector : Type 0
Vector = Buffer

-- `base` is cut to 32 bits, the test against the end is made in 64.
unfoldable pub vector_get : Vector → ℕ → Option (List ℕ)
vector_get v offset =
    let base = u32 (v.start + offset * pointer_size) in
    if ltb v.end (base + pointer_size) then none else some (slice v.contents base pointer_size)

unfoldable pub vector_length : Vector → ℕ
vector_length v = buffer_length v / pointer_size

unfoldable pub allocate_vector : Heap → ℕ → Vector
allocate_vector h n = allocate_buffer h (u32 (n * pointer_size))

unfoldable pub vector_push : Vector → List ℕ → Vector
vector_push v i = append_bytes (buffer_extend v pointer_size) i

-- The pointer and the vector without it.
unfoldable pub vector_pop : Vector → Option (List ℕ × Vector)
vector_pop v =
    if ltb (sub32 v.end v.start) pointer_size
    then none
    else some (slice v.contents v.start pointer_size, skip v pointer_size)

-- The bytes of pointers that lie one behind the other.
abbrev pub flat : List (List ℕ) → List ℕ
flat [] = []
flat (p ∷ ps) = p ++ flat ps

abbrev pub Pointers : List (List ℕ) → Type 0
Pointers = All (λ p. length p ≡ 8)

length-flat : (ps : List (List ℕ)) → Pointers ps → length (flat ps) ≡ 8 * length ps
length-flat [] h = refl
length-flat (p ∷ ps) (e, h) = omega (arith, length-append p (flat ps), length-flat ps h)

flat-append : (ps : List (List ℕ)) (p : List ℕ) → flat ps ++ p ≡ flat (ps ++ (p ∷ []))
flat-append [] p = sym (append-nil p)
flat-append (q ∷ ps) p = append_assoc q (flat ps) p ∙ ap (λ t. q ++ t) (flat-append ps p)

-- The number of bytes between start and end.
size_of : (v : Vector) (xs : List ℕ) → Ahead v xs → v.end ≡ v.start + length xs
size_of v xs a =
    omega
      (arith, a.valid.ordered, ap length a.live, length-slice v.contents v.start (v.end - v.start))

-- `vector_pop` takes the first pointer.
pop-cons :
    (v : Vector) (p : List ℕ) (ps : List (List ℕ))
    → length p ≡ 8
    → Ahead v (flat (p ∷ ps))
    → (vector_pop v ≡ some (p, skip v 8)) × Ahead (skip v 8) (flat ps)
unfolding vector_pop
pop-cons v p ps e a =
    let (after, front, size) = skip-Ahead v p (flat ps) a in
    let same : slice v.contents v.start 8 ≡ p = ap (slice v.contents v.start) (sym e) ∙ front in
    let enough : ltb (sub32 v.end v.start) 8 ≡ false =
      ltb-false _ _ (omega (arith, a.valid.ordered, a.valid.within, a.valid.small, e)) in
    (rw (enough, same) refl, subst (λ (n : ℕ). Ahead (skip v n) (flat ps)) e after)

pop-nil : (v : Vector) → Ahead v [] → vector_pop v ≡ none
unfolding vector_pop
pop-nil v a =
    rw
      (lt→ltb (sub32 v.end v.start) 8
        (omega (arith, size_of v [] a, a.valid.within, a.valid.small)))
      refl

-- The element at `i + 1` is the one at `i` behind the first pointer.
get-suc : (v : Vector) (i : ℕ) → vector_get v (suc i) ≡ vector_get (skip v 8) i
unfolding vector_get skip
get-suc v i =
    ap (λ (base : ℕ). if ltb v.end (base + 8) then none else some (slice v.contents base 8))
      (omega arith)

get-zero :
    (v : Vector) (p : List ℕ) (ps : List (List ℕ))
    → length p ≡ 8
    → Ahead v (flat (p ∷ ps))
    → vector_get v 0 ≡ some p
unfolding vector_get
get-zero v p ps e a =
    let (after, front, size) = skip-Ahead v p (flat ps) a in
    let same : slice v.contents v.start 8 ≡ p = ap (slice v.contents v.start) (sym e) ∙ front in
    let base : u32 (v.start + 0 * 8) ≡ v.start =
      omega (arith, a.valid.ordered, a.valid.within, a.valid.small) in
    rw (base, ltb-false v.end (v.start + 8) (omega (arith, size, e, a.valid.ordered)), same) refl

get-nil : (v : Vector) (i : ℕ) → Ahead v [] → v.start + 8 * i < 2 ^ 32 → vector_get v i ≡ none
unfolding vector_get
get-nil v i a h = rw (lt→ltb v.end (u32 (v.start + i * 8) + 8) (omega (arith, size_of v [] a))) refl

vector_get-get_elem? :
    (v : Vector) (ps : List (List ℕ)) (i : ℕ)
    → Pointers ps
    → Ahead v (flat ps)
    → v.start + 8 * i < 2 ^ 32
    → vector_get v i ≡ get_elem? ps i
vector_get-get_elem? v [] i h a k = get-nil v i a k
vector_get-get_elem? v (p ∷ ps) zero (e, h) a k = get-zero v p ps e a
vector_get-get_elem? v (p ∷ ps) (suc i) (e, h) a k =
    get-suc v i
    ∙ vector_get-get_elem? (skip v 8) ps i h (pop-cons v p ps e a).1
        (unfold skip in omega (arith, a.valid.ordered, a.valid.within, a.valid.small))

-- The two agree that there is a first pointer, and on it and what is left.
abbrev pub Popped : Option (List ℕ × Vector) → List (List ℕ) → Type 0
Popped none [] = Unit
Popped none (p ∷ ps) = ⊥
Popped (some (q, w)) [] = ⊥
Popped (some (q, w)) (p ∷ ps) = (q ≡ p) × Ahead w (flat ps)

vector_pop-Popped :
    (v : Vector) (ps : List (List ℕ)) → Pointers ps → Ahead v (flat ps) → Popped (vector_pop v) ps
vector_pop-Popped v [] h a = rw (pop-nil v a) tt
vector_pop-Popped v (p ∷ ps) (e, h) a =
    let (same, after) = pop-cons v p ps e a in rw same (refl, after)

-- For a vector that starts at 0 and holds exactly the pointers `ps`, of eight bytes each, with
-- room for one more below 2 ^ 30 bytes: `vector_length` is their number; `vector_get` at an index
-- whose offset does not wrap is the element of the list, and the panic where there is none;
-- `vector_pop` is the panic for no pointers and else returns the first and leaves the rest; and
-- `vector_push` makes it hold the pointers with one more at their end, also where it has to grow.
pub vector-list :
    (v : Vector) (ps : List (List ℕ)) (i : ℕ) (p : List ℕ)
    → Pointers ps
    → Holds v (flat ps)
    → 8 * i < 2 ^ 32
    → length p ≡ 8
    → length (flat ps) + 8 ≤ limit
    → (vector_length v ≡ length ps)
      × (vector_get v i ≡ get_elem? ps i)
      × Popped (vector_pop v) ps
      × Holds (vector_push v p) (flat (ps ++ (p ∷ [])))
unfolding vector_push vector_length buffer_length push_bytes
vector-list v ps i p h held small e k =
    let ahead : Ahead v (flat ps) = record { valid = held.valid; live = held.live } in
    (
      omega (arith, held.size, held.origin, length-flat ps h),
      vector_get-get_elem? v ps i h ahead (omega (arith, held.origin)),
      vector_pop-Popped v ps h ahead,
      subst (Holds _) (flat-append ps p) (
          subst (λ (n : ℕ). Holds (append_bytes (buffer_extend v n) p) (flat ps ++ p)) e
            (push_bytes-Holds v (flat ps) p held (omega (arith, e)))),
    )
