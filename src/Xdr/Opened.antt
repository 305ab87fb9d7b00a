-- ===== src/Xdr/Opened.antt =====
-- nfsv4/xdr.c, `parse_stateid` and `parse_open`: what the results of OPEN and LOCK make of a file.
use ssqlite.Prelude.{ℕ, ◌*◌, ◌^◌, ◌<◌, ◌≡◌, refl, List, ◌++◌, none, arith, length}
use ssqlite.Buffer.{Buffer}
use ssqlite.Xdr.Words.{be32, be64, skip}
use ssqlite.Xdr.Decode.{Ahead}
use ssqlite.Xdr.Parse.{parse_stateid, parse_open, parse_open_rest, parse_delegation, falls_off}
use ssqlite.Xdr.At.{
  at_buffer, read_beu32-at, read_beu64-at, read_buffer-at, advance-at, skip_word, skip_long,
  skip_bytes,
}
use ssqlite.System.{File, StateId, Machine, Sys, Which, ok, done}

-- A state id in a reply.
abbrev pub stateid_bytes : StateId → List ℕ → List ℕ
stateid_bytes sid rest = be32 sid.seqid ++ (sid.opaque ++ rest)

abbrev pub IsStateId : StateId → Type 0
IsStateId sid = (sid.seqid < 2 ^ 32) × (length sid.opaque ≡ 12)

pub parse_stateid-at :
    {W : Type 0} (b : Which) (x : Buffer) (s : Sys W) (old sid : StateId) (rest : List ℕ)
    → IsStateId sid
    → Ahead x (stateid_bytes sid rest)
    → (y : Buffer) × (parse_stateid b old (at_buffer b x s) ≡ (ok (sid, done tt), at_buffer b y s))
      × Ahead y rest
unfolding parse_stateid
parse_stateid-at b x s old sid rest (small, size) a =
    let a1 = skip_word x sid.seqid _ a in
    (
      skip (skip x 4) 12,
      rw (read_beu32-at b x s sid.seqid _ small a)
          (rw (read_buffer-at b (skip x 4) s sid.opaque rest 12 size a1) refl),
      skip_bytes (skip x 4) sid.opaque rest 12 size a1,
    )

-- What follows the state id in the result of OPEN, with no delegation: the change info, the flags
-- and the attributes that were set, a bitmap of `words` words.
pub record OpenInfo : Type 0 where
  pub atomic : ℕ
  pub before : ℕ
  pub after : ℕ
  pub rflags : ℕ
  pub words : ℕ
  pub bitmap : List ℕ

abbrev pub open_info_bytes : OpenInfo → List ℕ → List ℕ
open_info_bytes i rest =
    be32 i.atomic
    ++ (be64 i.before
        ++ (be64 i.after ++ (be32 i.rflags ++ (be32 i.words ++ (i.bitmap ++ (be32 0 ++ rest))))))

pub record HasSizes (i : OpenInfo) : Type 0 where
  pub atomic_small : i.atomic < 2 ^ 32
  pub before_small : i.before < 2 ^ 64
  pub after_small : i.after < 2 ^ 64
  pub rflags_small : i.rflags < 2 ^ 32
  pub words_small : i.words < 2 ^ 32
  pub bitmap_size : length i.bitmap ≡ i.words * 4

module _ {W : Type 0} (m : Machine W) (b : Which) (s : Sys W) (w : W) where
  parse_open_rest-at :
      (x : Buffer) (i : OpenInfo) (rest : List ℕ)
      → HasSizes i
      → m.left_over s.world ≡ (none, w)
      → Ahead x (open_info_bytes i rest)
      → (y : Buffer) × (parse_open_rest m b (at_buffer b x s)
          ≡ (ok tt, at_buffer b y (record s { world = w })))
        × Ahead y rest
  unfolding parse_open_rest parse_delegation falls_off
  parse_open_rest-at x i rest z e a =
      let a1 = skip_word x i.atomic _ a in
      let a2 = skip_long _ i.before _ a1 in
      let a3 = skip_long _ i.after _ a2 in
      let a4 = skip_word _ i.rflags _ a3 in
      let a5 = skip_word _ i.words _ a4 in
      let a6 = skip_bytes _ i.bitmap _ (i.words * 4) z.bitmap_size a5 in
      (
        _,
        rw (read_beu32-at b x s i.atomic _ z.atomic_small a) (
            rw (read_beu64-at b _ s i.before _ z.before_small a1) (
              rw (read_beu64-at b _ s i.after _ z.after_small a2) (
                rw (read_beu32-at b _ s i.rflags _ z.rflags_small a3) (
                  rw (read_beu32-at b _ s i.words _ z.words_small a4) (
                    rw (advance-at b _ s (i.words * 4))
                      (rw (read_beu32-at b _ s 0 rest (omega arith) a6) (rw e refl))))))),
        skip_word _ 0 rest a6,
      )

  pub parse_open-at :
      (x : Buffer) (f : File) (sid : StateId) (i : OpenInfo) (rest : List ℕ)
      → IsStateId sid
      → HasSizes i
      → m.left_over s.world ≡ (none, w)
      → Ahead x (stateid_bytes sid (open_info_bytes i rest))
      → (y : Buffer) × (parse_open m f b (at_buffer b x s) ≡ (
        ok (record f { open_sid = sid; latest_sid = sid }, done tt),
        at_buffer b y (record s { world = w }),
      ))
        × Ahead y rest
  unfolding parse_open
  parse_open-at x f sid i rest h z e a =
      let (x1, read_sid, a1) = parse_stateid-at b x s f.open_sid sid (open_info_bytes i rest) h a in
      let (y, read_rest, a2) = parse_open_rest-at x1 i rest z e a1 in
      (y, rw read_sid (rw read_rest refl), a2)
