-- ===== src/File/Roundtrip.antt =====
-- nfsv4/client.c, `writefile` and `readfile`: what is written is read back.
use mathlib.Core.Path.{subst}
use ssqlite.Prelude.{ℕ, suc, ◌+◌, ◌^◌, ◌<◌, ◌≤◌, ◌≡◌, ap, ◌∙◌}
use ssqlite.Prelude.Memory.{Block, slice, length-slice}
use ssqlite.File.Access.{writefile, readfile}
use ssqlite.File.Segment.Chunks.{chunks}
use ssqlite.File.Filled.{Filled}
use ssqlite.File.Whole.{Serves, readfile-Filled}
use ssqlite.File.Written.{StoresAll, writefile-Filled}
use ssqlite.System.{then-ok, File, Machine, Sys, ◌>>◌, ok}

Filled-slice :
    (m k from : Block) (dest source n : ℕ)
    → Filled m k dest (slice from source n)
    → slice k dest n ≡ slice from source n
Filled-slice m k from dest source n h =
    subst (λ (i : ℕ). slice k dest i ≡ slice from source n) (length-slice from source n) h.there

module _ {W : Type 0} (m : Machine W) (io depth : ℕ) (f : File) (disk : W → Block) where
  -- Where each chunk of a `writefile` is answered and all its bytes are stored, and each chunk of
  -- a `readfile` of the same stretch right after it is answered with the bytes that the file then
  -- has, with both negotiated limits above 0, a length below 2 ^ 32, an end of at most 2 ^ 64 and
  -- the fuel above the length: both calls succeed, and the caller's memory has at `dest` the bytes
  -- that it had at `source` before the write.
  pub readfile-writefile :
      (fuel source dest offset amount : ℕ) (s : Sys W)
      → 0 < s.client.maxreq
      → amount < 2 ^ 32
      → offset + amount ≤ 2 ^ 64
      → amount < fuel
      → StoresAll m io depth f disk source offset (chunks amount s.client.maxreq 0 amount) s
      → 0 < (writefile m io (suc depth) fuel f source offset amount s).1.client.maxresp
      → Serves m io depth f
          (disk (writefile m io (suc depth) fuel f source offset amount s).1.world)
          dest
          offset
          (chunks amount
            (writefile m io (suc depth) fuel f source offset amount s).1.client.maxresp
            0
            amount)
          (writefile m io (suc depth) fuel f source offset amount s).1
      → (s' : Sys W) × ((writefile m io (suc depth) fuel f source offset amount
              >> readfile m io (suc depth) fuel f dest offset amount)
            s
          ≡ (ok tt, s'))
        × (slice s'.memory dest amount ≡ slice s.memory source amount)
  readfile-writefile fuel source dest offset amount s pos small fits enough h pos' h' =
      let (s1, written, kept, stored) =
        writefile-Filled m io depth f disk fuel source offset amount s pos small fits enough h in
      let after = writefile m io (suc depth) fuel f source offset amount s in
      let (s2, was_read, filled) =
        readfile-Filled m io depth f (disk after.1.world) fuel dest offset amount after.1 pos' small
          fits enough h' in
      (
        s2,
        then-ok (writefile m io (suc depth) fuel f source offset amount)
              (readfile m io (suc depth) fuel f dest offset amount) s s1 written
            ∙ was_read,
        Filled-slice after.1.memory s2.memory (disk after.1.world) dest offset amount filled
            ∙ ap (λ r. slice (disk r.1.world) offset amount) written
            ∙ Filled-slice (disk s.world) (disk s1.world) s.memory offset source amount stored,
      )
