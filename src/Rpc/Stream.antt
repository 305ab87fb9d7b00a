-- ===== src/Rpc/Stream.antt =====
-- nfsv4/rpc.c, `read_fully`: what the loop makes of the pieces that `read` returns.
use mathlib.Core.Path.{subst}
use ssqlite.Prelude.{
  ℕ, zero, suc, ◌+◌, ◌≤◌, ◌<◌, ◌≡◌, refl, sym, ap, ◌∙◌, append_assoc, List, [], ◌∷◌, ◌++◌, some,
  arith, length, length-append, lt→ltb, ltb-false, append-nil,
}
use ssqlite.System.{Machine, Sys, ok, stuck}
use ssqlite.Rpc.Socket.{read_fully}

module _ {W : Type 0} (m : Machine W) (fd nbyte : ℕ) where
  -- A round that reads.
  round :
      (fuel : ℕ) (got xs : List ℕ) (s : Sys W) (w : W)
      → length got < nbyte
      → m.read fd nbyte s.world ≡ (some xs, w)
      → read_fully m (suc fuel) fd nbyte got s
        ≡ read_fully m fuel fd nbyte (got ++ xs) (record s { world = w })
  unfolding read_fully
  round fuel got xs s w h e = rw (lt→ltb (length got) nbyte h) (rw e refl)

  -- Enough has come.
  enough :
      (fuel : ℕ) (got : List ℕ) (s : Sys W)
      → nbyte ≤ length got
      → read_fully m (suc fuel) fd nbyte got s ≡ (ok (some got), s)
  unfolding read_fully
  enough fuel got s h = rw (ltb-false (length got) nbyte h)

  -- `read` returns these pieces one after the other, and the world goes from `w` to `w'`.
  abbrev pub Delivers : List (List ℕ) → W → W → Type 0
  Delivers [] w w' = w ≡ w'
  Delivers (xs ∷ pieces) w w' =
      (w1 : W) × (m.read fd nbyte w ≡ (some xs, w1)) × Delivers pieces w1 w'

  -- Behind `got` bytes the last of the pieces, and no other, makes up `nbyte` bytes.
  abbrev pub JustEnough : ℕ → List (List ℕ) → Type 0
  JustEnough got [] = nbyte ≤ got
  JustEnough got (xs ∷ pieces) = (got < nbyte) × JustEnough (got + length xs) pieces

  abbrev pub all_of : List (List ℕ) → List ℕ
  all_of [] = []
  all_of (xs ∷ pieces) = xs ++ all_of pieces

  rounds :
      (fuel : ℕ) (got : List ℕ) (pieces : List (List ℕ)) (s : Sys W) (w : W)
      → Delivers pieces s.world w
      → JustEnough (length got) pieces
      → length pieces < fuel
      → read_fully m fuel fd nbyte got s
        ≡ (ok (some (got ++ all_of pieces)), record s { world = w })
  rounds zero got pieces s w d e h = absurd (omega arith)
  rounds (suc fuel) got [] s w d e h =
      enough fuel got s e ∙ λ i. (ok (some (sym (append-nil got) i)), record s { world = d i })
  rounds (suc fuel) got (xs ∷ pieces) s w (w1, r, d) (e, k) h =
      round fuel got xs s w1 e r
      ∙ rounds fuel (got ++ xs) pieces (record s { world = w1 }) w d
          (subst (λ n. JustEnough n pieces) (sym (length-append got xs)) k) (omega arith)
      ∙ ap (λ ys. (ok (some ys), record s { world = w })) (append_assoc got xs (all_of pieces))

  -- If the calls of `read` return pieces of which the last, and no earlier one, makes up `nbyte`
  -- bytes, and the fuel is above their number, then `read_fully` returns the bytes of all pieces,
  -- also those of the last piece that lie behind the `nbyte`.
  pub read_fully-all_of :
      (fuel : ℕ) (pieces : List (List ℕ)) (s : Sys W) (w : W)
      → Delivers pieces s.world w
      → JustEnough 0 pieces
      → length pieces < fuel
      → read_fully m fuel fd nbyte [] s ≡ (ok (some (all_of pieces)), record s { world = w })
  read_fully-all_of fuel pieces s w d e h = rounds fuel [] pieces s w d e h

  no_end :
      (fuel : ℕ) (got : List ℕ) (s : Sys W)
      → length got < nbyte
      → ((w : W) → m.read fd nbyte w ≡ (some [], w))
      → read_fully m fuel fd nbyte got s ≡ (stuck, s)
  no_end zero got s h e = unfold read_fully in refl
  no_end (suc fuel) got s h e =
      round fuel got [] s s.world h (e s.world)
      ∙ ap (λ xs. read_fully m fuel fd nbyte xs s) (append-nil got)
      ∙ no_end fuel got s h e

  -- At the end of the stream, where every `read` returns no bytes, `read_fully` of one byte or
  -- more never ends: it uses up any fuel.
  pub read_fully_end_of_stream :
      (fuel : ℕ) (s : Sys W)
      → 0 < nbyte
      → ((w : W) → m.read fd nbyte w ≡ (some [], w))
      → read_fully m fuel fd nbyte [] s ≡ (stuck, s)
  read_fully_end_of_stream fuel s h e = no_end fuel [] s h e
