-- ===== src/Tests/Dumps.antt =====
-- Vectors, tables and dumps of buffers.
use ssqlite.Prelude.{
  ℕ, ◌≡◌, ◌≤◌, ◌+◌, ◌%◌, refl, List, [], ◌∷◌, none, some, arith, length, replicate,
}
use ssqlite.Buffer.{Buffer, push_bytes, allocate_buffer}
use ssqlite.Buffer.Growth.{Holds, allocate_buffer-Holds, push_bytes-Holds}
use ssqlite.Buffer.Dump.{print_buffer_u32, print_buffer_u32-undump, undump, dump_text}
use ssqlite.Protocol.Status.{codestring}
use ssqlite.Protocol.Tables.{
  nfsops, locktypes, fcntl, openflags, iocap, set_string_from, codepoint_set_string,
}
use ssqlite.Protocol.Tables.Flags.{codepoint_set_string-room}
use ssqlite.Text.Vectors.{
  Vector, vector_get, vector_length, vector_push, vector_pop, flat, Popped, vector-list,
}
use ssqlite.Xdr.Push.{codes}
use ssqlite.Tests.Data.{heap7}

-- A pointer, eight bytes of the same value.
abbrev pointer : ℕ → List ℕ
pointer x = replicate 8 x

-- A vector with room for one pointer, which two are pushed to.
abbrev two_pointers : Vector
two_pointers = push_bytes (push_bytes (allocate_buffer heap7 8) (pointer 1)) (pointer 2)

two_pointers-Holds : Holds two_pointers (flat (pointer 1 ∷ pointer 2 ∷ []))
two_pointers-Holds =
    push_bytes-Holds _ (pointer 1) (pointer 2)
      (push_bytes-Holds _ [] (pointer 1) (allocate_buffer-Holds heap7 8 (omega arith))
        (omega arith))
      (omega arith)

vector-list_example :
    (vector_length two_pointers ≡ 2)
    × (vector_get two_pointers 1 ≡ some (pointer 2))
    × Popped (vector_pop two_pointers) (pointer 1 ∷ pointer 2 ∷ [])
    × Holds (vector_push two_pointers (pointer 3)) (flat (pointer 1 ∷ pointer 2 ∷ pointer 3 ∷ []))
vector-list_example =
    vector-list two_pointers (pointer 1 ∷ pointer 2 ∷ []) 1 (pointer 3) (refl, (refl, tt))
      two_pointers-Holds (omega arith) refl (omega arith)

-- Five bytes from the offset 2 on.
abbrev counted : Buffer
counted = record { h = heap7; start = 2; end = 7; capacity = 8; contents = λ j. (j + 170) % 256 }

print_buffer_u32-undump_example :
    (text : List ℕ) × Holds (print_buffer_u32 heap7 counted) text
    × (undump text ≡ 172 ∷ 173 ∷ 174 ∷ 175 ∷ 176 ∷ [])
print_buffer_u32-undump_example =
    print_buffer_u32-undump heap7 counted (omega arith) (omega arith) (λ j. omega arith)

-- The line breaks go by the offset in the memory, not by the one in the buffer.
dumped : dump_text counted.contents 2 5 2 ≡ codes "acad\naeafb0"
dumped = refl

codepoint_set_string-room_example :
    ((text : List ℕ) × (codepoint_set_string openflags 6 ≡ some text) × (length text + 1 ≤ 1024))
    × ((text : List ℕ) × (codepoint_set_string iocap 6 ≡ some text) × (length text + 1 ≤ 1024))
codepoint_set_string-room_example = codepoint_set_string-room 6

read_write_create : codepoint_set_string openflags 6 ≡ some (codes "READWRITE|CREATE")
unfolding codepoint_set_string set_string_from openflags
read_write_create = refl

-- The scan for an operation that the protocol does not have leaves the table.
behind_nfsops : codestring nfsops 72 ≡ none
unfolding codestring nfsops
behind_nfsops = refl

other_lock : codestring locktypes 5 ≡ some "unknown error"
unfolding codestring locktypes
other_lock = refl

busy_handler : codestring fcntl 15 ≡ some "BUSYHANDLER"
unfolding codestring fcntl
busy_handler = refl
