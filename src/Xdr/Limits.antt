-- ===== src/Xdr/Limits.antt =====
-- nfsv4/xdr.c, `parse_create_session`: the session and the limits that the client takes over.
use Prim.Native.Nat.{min}
use ssqlite.Prelude.{ℕ, ◌^◌, ◌<◌, ◌≡◌, refl, sym, ap, ◌∙◌, List, ◌++◌, arith, length}
use ssqlite.Prelude.Memory.{slice}
use ssqlite.Buffer.{Buffer}
use ssqlite.Xdr.Words.{be32, skip}
use ssqlite.Xdr.Decode.{Ahead, skip-Ahead}
use ssqlite.Xdr.Parse.{take_raw, parse_create_session, normalize}
use ssqlite.Xdr.At.{at_buffer, read_beu32-at, advance-at, skip_word, skip_bytes}
use ssqlite.System.{Client, Sys, to_reverse, ok}

normalize-min : (old new : ℕ) → normalize old new ≡ min old new
unfolding normalize
normalize-min old new = ground arith

-- What the server sends: the session, a sequence and flags, and the attributes of the fore channel
-- up to the number of its RDMA attributes.
pub record Granted : Type 0 where
  pub session : List ℕ
  pub sequence : ℕ
  pub flags : ℕ
  pub header_pad : ℕ
  pub maxreq : ℕ
  pub maxresp : ℕ
  pub maxresp_cached : ℕ
  pub maxops : ℕ
  pub maxreqs : ℕ
  pub rdma : ℕ

abbrev pub granted_bytes : Granted → List ℕ → List ℕ
granted_bytes g rest =
    g.session
    ++ (be32 g.sequence
        ++ (be32 g.flags
            ++ (be32 g.header_pad
                ++ (be32 g.maxreq
                    ++ (be32 g.maxresp
                        ++ (be32 g.maxresp_cached
                            ++ (be32 g.maxops ++ (be32 g.maxreqs ++ (be32 g.rdma ++ rest)))))))))

-- The fields have their sizes.
pub record HasSizes (g : Granted) : Type 0 where
  pub session_size : length g.session ≡ 16
  pub sequence_small : g.sequence < 2 ^ 32
  pub flags_small : g.flags < 2 ^ 32
  pub header_pad_small : g.header_pad < 2 ^ 32
  pub maxreq_small : g.maxreq < 2 ^ 32
  pub maxresp_small : g.maxresp < 2 ^ 32
  pub cached_small : g.maxresp_cached < 2 ^ 32
  pub maxops_small : g.maxops < 2 ^ 32
  pub maxreqs_small : g.maxreqs < 2 ^ 32
  pub rdma_small : g.rdma < 2 ^ 32

-- The client with that session, and each limit the smaller of its own and the server's.
abbrev pub limited : Granted → Client → Client
limited g c = record c {
  session = g.session;
  maxreq = min c.maxreq g.maxreq;
  maxresp = min c.maxresp g.maxresp;
  maxops = min c.maxops g.maxops;
  maxreqs = min c.maxreqs g.maxreqs;
}

module _ {W : Type 0} (s : Sys W) (x : Buffer) where
  front :
      (xs rest : List ℕ) (n : ℕ)
      → length xs ≡ n
      → Ahead x (xs ++ rest)
      → slice x.contents x.start n ≡ xs
  front xs rest n e a = ap (slice x.contents x.start) (sym e) ∙ (skip-Ahead x xs rest a).1

  pub take_raw-at :
      (xs rest : List ℕ) (n : ℕ)
      → length xs ≡ n
      → Ahead x (xs ++ rest)
      → take_raw to_reverse n (at_buffer to_reverse x s)
        ≡ (ok xs, at_buffer to_reverse (skip x n) s)
  unfolding take_raw
  take_raw-at xs rest n e a = rw (advance-at to_reverse x s n) (rw (front xs rest n e a) refl)

-- If the reverse buffer has ahead a session of 16 bytes and nine words below 2 ^ 32, the sequence,
-- the flags and the attributes of the fore channel, then `parse_create_session` succeeds, takes
-- over the session, sets each of the four limits to the smaller of the client's and the server's,
-- changes no other field of the client but the start of that buffer, and leaves ahead what
-- follows.
pub parse_create_session-limited :
    {W : Type 0} (s : Sys W) (x : Buffer) (g : Granted) (rest : List ℕ)
    → HasSizes g
    → Ahead x (granted_bytes g rest)
    → (y : Buffer) × (parse_create_session to_reverse (at_buffer to_reverse x s)
        ≡ (ok tt, at_buffer to_reverse y (record s { client = limited g s.client })))
      × Ahead y rest
unfolding parse_create_session
parse_create_session-limited {W} s x g rest z a =
    let c = s.client in
    let s1 : Sys W = record s { client = record c { session = g.session } } in
    let s2 : Sys W = record s1 {
      client = record s1.client { maxreq = normalize c.maxreq g.maxreq };
    } in
    let s3 : Sys W = record s2 {
      client = record s2.client { maxresp = normalize c.maxresp g.maxresp };
    } in
    let s4 : Sys W = record s3 {
      client = record s3.client { maxops = normalize c.maxops g.maxops };
    } in
    let s5 : Sys W = record s4 {
      client = record s4.client { maxreqs = normalize c.maxreqs g.maxreqs };
    } in
    let a1 = skip_bytes x g.session _ 16 z.session_size a in
    let a2 = skip_word _ g.sequence _ a1 in
    let a3 = skip_word _ g.flags _ a2 in
    let a4 = skip_word _ g.header_pad _ a3 in
    let a5 = skip_word _ g.maxreq _ a4 in
    let a6 = skip_word _ g.maxresp _ a5 in
    let a7 = skip_word _ g.maxresp_cached _ a6 in
    let a8 = skip_word _ g.maxops _ a7 in
    let a9 = skip_word _ g.maxreqs _ a8 in
    (
      _,
      rw (take_raw-at s x g.session _ 16 z.session_size a) (
          rw (read_beu32-at to_reverse _ s1 g.sequence _ z.sequence_small a1) (
            rw (read_beu32-at to_reverse _ s1 g.flags _ z.flags_small a2) (
              rw (read_beu32-at to_reverse _ s1 g.header_pad _ z.header_pad_small a3) (
                rw (read_beu32-at to_reverse _ s1 g.maxreq _ z.maxreq_small a4) (
                  rw (read_beu32-at to_reverse _ s2 g.maxresp _ z.maxresp_small a5) (
                    rw (read_beu32-at to_reverse _ s3 g.maxresp_cached _ z.cached_small a6) (
                      rw (read_beu32-at to_reverse _ s3 g.maxops _ z.maxops_small a7) (
                        rw (read_beu32-at to_reverse _ s4 g.maxreqs _ z.maxreqs_small a8) (
                          rw (read_beu32-at to_reverse _ s5 g.rdma _ z.rdma_small a9) (
                            rw (normalize-min, normalize-min, normalize-min, normalize-min)
                              refl)))))))))),
      skip_word _ g.rdma _ a9,
    )
