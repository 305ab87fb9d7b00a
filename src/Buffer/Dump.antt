-- ===== src/Buffer/Dump.antt =====
-- nfsv4/buffer.h, `print_buffer_u32`: a buffer as hexadecimal text, four bytes to a line.
use mathlib.Core.Path.{ap₂, subst}
use ssqlite.Prelude.{
  ℕ, zero, suc, ◌+◌, ◌-◌, ◌*◌, ◌/◌, ◌%◌, ◌^◌, ◌≤◌, ◌<◌, ◌≡◌, refl, sym, ◌∙◌, List, [], ◌∷◌, ◌++◌,
  append_assoc, append-nil, Bool, false, Bool-cases, inl, inr, ltb, ◌==◌, ◌&&◌, if◌then◌else◌,
  arith, length, length-append,
}
use ssqlite.Prelude.Memory.{Block, slice}
use ssqlite.Buffer.Defs.{Buffer, Heap, bytes, buffer_length, allocate_buffer, push_char, sub32}
use ssqlite.Buffer.Growth.{Holds, limit, push_char-Holds, allocate_buffer-Holds}

-- `nibbles[n]`
abbrev pub nibble : ℕ → ℕ
nibble n = if ltb n 10 then b'0' + n else b'a' + (n - 10)

-- The line breaks stand before the offsets that four divides, but for the first.
abbrev break_at : ℕ → ℕ → Bool
break_at start i = ltb start i && (i % 4 == 0)

unfoldable pub dump_loop : Block → ℕ → ℕ → ℕ → Buffer → Buffer
dump_loop contents start zero i out = out
dump_loop contents start (suc n) i out =
    let x = contents i in
    let broken = if break_at start i then push_char out 10 else out in
    dump_loop contents start n (suc i)
      (push_char (push_char broken (nibble (x / 16))) (nibble (x % 16)))

unfoldable pub print_buffer_u32 : Heap → Buffer → Buffer
print_buffer_u32 h b =
    let len = buffer_length b in
    push_char
      (dump_loop b.contents b.start (b.end - b.start) b.start
        (allocate_buffer h (len * 2 + len / 4 + 2)))
      10

-- The text of `n` bytes from the offset `i` on.
abbrev pub dump_text : Block → ℕ → ℕ → ℕ → List ℕ
dump_text contents start zero i = []
dump_text contents start (suc n) i =
    let line =
      nibble (contents i / 16) ∷ nibble (contents i % 16) ∷ dump_text contents start n (suc i) in
    if break_at start i then 10 ∷ line else line

length-dump_text :
    (contents : Block) (start n i : ℕ) → length (dump_text contents start n i) ≤ 3 * n
length-dump_text contents start zero i = omega arith
length-dump_text contents start (suc n) i =
    ground (arith, length-dump_text contents start n (suc i))

-- The number of a hexadecimal digit, and the bytes of a text.
abbrev pub value : ℕ → ℕ
value c = if ltb c 58 then c - b'0' else c - 87

abbrev pub undump : List ℕ → List ℕ
undump [] = []
undump (c ∷ []) = []
undump (c ∷ d ∷ text) =
    let broken = undump (d ∷ text) in
    let byte = (value c * 16 + value d) ∷ undump text in if c == 10 then broken else byte

nibble-value :
    (n : ℕ)
    → n < 16
    → (nibble n % 256 ≡ nibble n) × ((nibble n == 10) ≡ false) × (value (nibble n) ≡ n)
nibble-value n h = ground arith

-- A byte is pushed as two characters.
push_nibbles-Holds :
    (out : Buffer) (xs : List ℕ) (x : ℕ)
    → Holds out xs
    → x < 256
    → length xs + 2 ≤ limit
    → Holds
        (push_char (push_char out (nibble (x / 16))) (nibble (x % 16)))
        (xs ++ (nibble (x / 16) ∷ nibble (x % 16) ∷ []))
push_nibbles-Holds out xs x h small k =
    let (high, _, _) = nibble-value (x / 16) (omega arith) in
    let (low, _, _) = nibble-value (x % 16) (omega arith) in
    let first = push_char-Holds out xs (nibble (x / 16)) h (omega arith) in
    subst (Holds _)
      (append_assoc xs ((nibble (x / 16) % 256) ∷ []) ((nibble (x % 16) % 256) ∷ [])
        ∙ ap₂ (λ (a b : ℕ). xs ++ (a ∷ b ∷ [])) high low)
      (push_char-Holds _ _ (nibble (x % 16)) first
        (omega (arith, length-append xs ((nibble (x / 16) % 256) ∷ []))))

dump_loop-Holds :
    (contents : Block) (start n i : ℕ) (out : Buffer) (xs : List ℕ)
    → ((j : ℕ) → contents j < 256)
    → Holds out xs
    → length xs + 3 * n ≤ limit
    → Holds (dump_loop contents start n i out) (xs ++ dump_text contents start n i)
unfolding dump_loop
dump_loop-Holds contents start zero i out xs small h k = subst (Holds out) (sym (append-nil xs)) h
dump_loop-Holds contents start (suc n) i out xs small h k =
    let x = contents i in
    let two = nibble (x / 16) ∷ nibble (x % 16) ∷ [] in
    elim (Bool-cases (break_at start i)) [
      | inl e ↦ rw e (
          let broken = push_char-Holds out xs 10 h (omega arith) in
          let size = length-append xs (10 ∷ []) in
          let pushed =
            push_nibbles-Holds (push_char out 10) (xs ++ (10 ∷ [])) x broken (small i)
              (omega (arith, size)) in
          subst (Holds _) (append_assoc (xs ++ (10 ∷ [])) two _ ∙ append_assoc xs (10 ∷ []) _) (
            dump_loop-Holds contents start n (suc i) _ ((xs ++ (10 ∷ [])) ++ two) small pushed
              (omega (arith, size, length-append (xs ++ (10 ∷ [])) two))))
      | inr e ↦ rw e (
          let pushed = push_nibbles-Holds out xs x h (small i) (omega arith) in
          subst (Holds _) (append_assoc xs two _) (
            dump_loop-Holds contents start n (suc i) _ (xs ++ two) small pushed
              (omega (arith, length-append xs two))))
    ]

undump-dump_text :
    (contents : Block) (start n i : ℕ)
    → ((j : ℕ) → contents j < 256)
    → undump (dump_text contents start n i ++ (10 ∷ [])) ≡ slice contents i n
undump-dump_text contents start zero i small = refl
undump-dump_text contents start (suc n) i small =
    let (_, high, high_value) = nibble-value (contents i / 16) (omega (arith, small i)) in
    let (_, low, low_value) = nibble-value (contents i % 16) (omega (arith, small i)) in
    let byte : value (nibble (contents i / 16)) * 16 + value (nibble (contents i % 16))
        ≡ contents i =
      omega (arith, high_value, low_value) in
    let rest = undump-dump_text contents start n (suc i) small in
    elim (Bool-cases (break_at start i)) [
      | inl e ↦ rw (e, high) (ap₂ ◌∷◌ byte rest)
      | inr e ↦ rw (e, high) (ap₂ ◌∷◌ byte rest)
    ]

-- For a buffer in order whose memory holds bytes, with an end of at most 2 ^ 28,
-- `print_buffer_u32` makes a buffer that holds a text from which, line breaks skipped and each two
-- characters read as a hexadecimal number, the live bytes are recovered.
pub print_buffer_u32-undump :
    (h : Heap) (b : Buffer)
    → b.start ≤ b.end
    → b.end ≤ 2 ^ 28
    → ((j : ℕ) → b.contents j < 256)
    → (text : List ℕ) × Holds (print_buffer_u32 h b) text × (undump text ≡ bytes b)
unfolding print_buffer_u32 buffer_length
print_buffer_u32-undump h b ordered fits small =
    let n = b.end - b.start in
    let text = dump_text b.contents b.start n b.start in
    let len = sub32 b.end b.start in
    let empty = allocate_buffer-Holds h (len * 2 + len / 4 + 2) (omega arith) in
    let looped = dump_loop-Holds b.contents b.start n b.start _ [] small empty (omega arith) in
    (
      text ++ (10 ∷ []),
      push_char-Holds _ text 10 looped
          (omega (arith, length-dump_text b.contents b.start n b.start)),
      undump-dump_text b.contents b.start n b.start small,
    )
