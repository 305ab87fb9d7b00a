-- ===== src/Tests/Writes.antt =====
-- A chunk that is written, and a range that is locked.
use ssqlite.Prelude.{replicate, ℕ, ◌≡◌, refl, List, [], ◌∷◌, arith}
use ssqlite.Buffer.{allocate_buffer}
use ssqlite.Protocol.Ops.{opcode, op_write, op_lock, op_locku}
use ssqlite.Rpc.Config.{config_boolean}
use ssqlite.Rpc.Session.{transact}
use ssqlite.Xdr.Words.{be32, be64}
use ssqlite.File.Access.{write_chunk, lock_range, unlock_range}
use ssqlite.File.Ranges.{
  owner_pieces, lock_pieces, unlock_pieces, lock_request, unlock_request, ranged, ranges-Carries,
}
use ssqlite.Xdr.Push.{owner_text, hex, little_endian}
use ssqlite.File.Requests.{write_request, write_pieces, Carries, write_chunk-Carries}
use ssqlite.System.{Rpc, Sys, to_reverse}
use ssqlite.Tests.Data.{machine7, next_piece, sys7, client7, file7}

-- The memory of the caller has the byte `j` at each address `j`.
abbrev full_memory : Sys (List (List ℕ))
full_memory = record (sys7 []) { memory = λ j. j }

abbrev request7 : Rpc
request7 = write_request (machine7 next_piece) client7 file7 100 (60 ∷ 61 ∷ 62 ∷ [])

write_chunk-Carries_example :
    (write_chunk (machine7 next_piece) 9 2 file7 60 100 3 full_memory
      ≡ transact (machine7 next_piece) 9 2 request7 op_write to_reverse full_memory)
    × (request7.opcount ≡ 3)
    × Carries client7 file7 (write_pieces file7 100 (60 ∷ 61 ∷ 62 ∷ [])) request7
unfolding config_boolean allocate_buffer
write_chunk-Carries_example =
    write_chunk-Carries (machine7 next_piece) 9 2 file7 60 100 3 full_memory refl (omega arith)
      (omega arith) (unfold be32 be64 opcode in omega arith)

ranges-Carries_example :
    ((lock_range (machine7 next_piece) 9 2 file7 1 60 3 full_memory
        ≡ ranged
            (machine7 next_piece)
            9
            2
            file7
            op_lock
            (lock_request (machine7 next_piece) client7 file7 1 60 3)
            full_memory)
      × Carries client7 file7
          (lock_pieces file7 1 60 3 (owner_pieces (replicate 8 1) (replicate 8 2)))
          (lock_request (machine7 next_piece) client7 file7 1 60 3))
    × ((unlock_range (machine7 next_piece) 9 2 file7 1 60 3 full_memory
          ≡ ranged
              (machine7 next_piece)
              9
              2
              file7
              op_locku
              (unlock_request (machine7 next_piece) client7 file7 1 60 3)
              full_memory)
        × Carries client7 file7
            (unlock_pieces file7 1 60 3)
            (unlock_request (machine7 next_piece) client7 file7 1 60 3))
unfolding config_boolean allocate_buffer
ranges-Carries_example =
    ranges-Carries (machine7 next_piece) 9 2 file7 1 60 3 full_memory refl (omega arith)
      (omega arith) (unfold be32 be64 opcode owner_text hex little_endian in omega arith)
      (unfold be32 be64 opcode in omega arith)
