-- ===== src/Tests/Streams.antt =====
-- The socket, long transfers and the methods of the VFS.
use ssqlite.Prelude.{ℕ, ◌≡◌, refl, List, [], ◌∷◌, ◌++◌, Option, some, arith}
use ssqlite.System.{M, Sys, ok, stuck}
use ssqlite.Rpc.Socket.{read_fully}
use ssqlite.Rpc.Stream.{read_fully-all_of, read_fully_end_of_stream}
use ssqlite.File.Segment.{segment, segment_from}
use ssqlite.File.Segment.Chunks.{Tiles, chunks, in_order, segment-in_order, segment_zero_never_ends}
use ssqlite.Tests.Data.{next_piece, machine7, sys7}

abbrev pieces7 : List (List ℕ)
pieces7 = (1 ∷ 2 ∷ []) ∷ (3 ∷ 4 ∷ 5 ∷ 6 ∷ []) ∷ []

read_fully-all_of_example :
    read_fully (machine7 next_piece) 3 3 4 [] (sys7 pieces7)
    ≡ (ok (some (1 ∷ 2 ∷ 3 ∷ 4 ∷ 5 ∷ 6 ∷ [])), sys7 [])
read_fully-all_of_example =
    read_fully-all_of (machine7 next_piece) 3 4 3 pieces7 (sys7 pieces7) []
      ((3 ∷ 4 ∷ 5 ∷ 6 ∷ []) ∷ [], refl, ([], refl, refl)) (omega arith, (omega arith, omega arith))
      (omega arith)

abbrev no_piece : ℕ → ℕ → Unit {0} → Option (List ℕ) × Unit {0}
no_piece fd n w = (some [], w)

read_fully_end_of_stream_example :
    read_fully (machine7 no_piece) 50 3 4 [] (sys7 tt) ≡ (stuck, sys7 tt)
read_fully_end_of_stream_example =
    read_fully_end_of_stream (machine7 no_piece) 3 4 50 (sys7 tt) (omega arith) (λ w. refl)

-- Notes each transfer in the world.
abbrev noted : ℕ → ℕ → ℕ → M (List (ℕ × ℕ × ℕ)) (Unit {0})
noted x offset xfer s = (ok tt, record s { world = s.world ++ ((x, offset, xfer) ∷ []) })

segment-in_order_example :
    (segment noted 4 100 1000 10 11 ≡ in_order noted 100 1000 (chunks 10 4 0 10))
    × Tiles 4 0 10 (chunks 10 4 0 10)
segment-in_order_example =
    segment-in_order noted 100 1000 4 10 11 (omega arith) (omega arith) (omega arith)

-- The three transfers of ten bytes by four.
ten_by_four :
    (segment noted 4 100 1000 10 11 (sys7 [])).1.world
    ≡ (100, 1000, 4) ∷ (104, 1004, 4) ∷ (108, 1008, 2) ∷ []
unfolding segment segment_from
ten_by_four = refl

segment_zero_never_ends_example :
    (s' : Sys (List (ℕ × ℕ × ℕ))) × (segment noted 0 100 1000 10 20 (sys7 []) ≡ (stuck, s'))
segment_zero_never_ends_example =
    segment_zero_never_ends noted 100 1000 10 20 (sys7 []) (omega arith) (λ s. (_, refl))
