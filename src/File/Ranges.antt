-- ===== src/File/Ranges.antt =====
-- nfsv4/rpc.c, `lock_range` and `unlock_range`: the bytes of their requests.
use mathlib.Core.Path.{subst}
use ssqlite.Prelude.{
  ℕ, false, true, ◌+◌, ◌-◌, ◌^◌, ◌≤◌, ◌≡◌, refl, sym, ap, ◌∙◌, List, [], ◌∷◌, length, take,
}
use ssqlite.Buffer.{Buffer}
use ssqlite.Buffer.Growth.{limit}
use ssqlite.Protocol.Ops.{OpNum, op_lock, op_locku}
use ssqlite.Xdr.Push.{
  ◌|>◌, push_word, push_long, push_flag, push_opaque, push_raw, push_op, push_stateid, push_owner,
  owner_text, push_bare_sequence, push_lock_sequence, push_client_id, push_fixed,
}
use ssqlite.Xdr.Parse.{parse_stateid}
use ssqlite.Xdr.Pieces.{
  Piece, word, long, flag, opaque, fixed, raw, op, bump, build, push_piece, bytes_of,
}
use ssqlite.Rpc.Config.{config_boolean}
use ssqlite.Rpc.Request.{allocate_rpc, push_header, leave_opcount}
use ssqlite.Rpc.Session.{file_rpc, transact}
use ssqlite.File.Access.{lock_range, unlock_range}
use ssqlite.File.Requests.{file_pieces, file_rpc-build, Carries, build-Carries}
use ssqlite.System.{
  Client, File, Machine, Rpc, Sys, M, ◌>>=◌, ◌>>◌, pure, Which, to_forward, to_reverse, set_buffer,
}

-- The client id and the text of the owner but for its last character.
abbrev pub owner_pieces : List ℕ → List ℕ → List Piece
owner_pieces clientid verifier =
    raw clientid ∷ opaque (take (length (owner_text verifier) - 1) (owner_text verifier)) ∷ []

-- LOCK up to the owner: the type, no reclaim, the range, a new owner, its sequence, the state id of the open and
-- the sequence of the lock.
abbrev pub lock_pieces : File → ℕ → ℕ → ℕ → List Piece → List Piece
lock_pieces f locktype offset n ps =
    op op_lock
    ∷ word locktype
    ∷ flag false
    ∷ long offset
    ∷ long n
    ∷ flag true
    ∷ word 0
    ∷ word f.open_sid.seqid
    ∷ fixed f.open_sid.opaque
    ∷ word 0
    ∷ ps

-- LOCKU: the type, a sequence, the state id of the lock and the range.
abbrev pub unlock_pieces : File → ℕ → ℕ → ℕ → List Piece
unlock_pieces f locktype offset n =
    op op_locku
    ∷ word locktype
    ∷ word 0
    ∷ word f.latest_sid.seqid
    ∷ fixed f.latest_sid.opaque
    ∷ long offset
    ∷ long n
    ∷ []

abbrev pub lock_request : {W : Type 0} → Machine W → Client → File → ℕ → ℕ → ℕ → Rpc
lock_request m c f locktype offset n =
    file_rpc m c f
    |> push_op op_lock
    |> push_word locktype
    |> push_flag false
    |> push_long offset
    |> push_long n
    |> push_flag true
    |> push_bare_sequence
    |> push_stateid f.open_sid
    |> push_lock_sequence
    |> push_owner

abbrev pub unlock_request : {W : Type 0} → Machine W → Client → File → ℕ → ℕ → ℕ → Rpc
unlock_request m c f locktype offset n =
    file_rpc m c f
    |> push_op op_locku
    |> push_word locktype
    |> push_bare_sequence
    |> push_stateid f.latest_sid
    |> push_long offset
    |> push_long n

-- The two fields that the owner is made of.
abbrev pub identity : Client → List ℕ × List ℕ
identity c = (c.clientid, c.instance_verifier)

identity-set : (w : Which) (x : Buffer) (c : Client) → identity (set_buffer w x c) ≡ identity c
identity-set to_forward x c = refl
identity-set to_reverse x c = refl

identity-push_piece : (p : Piece) (r : Rpc) → identity (push_piece p r).c ≡ identity r.c
unfolding push_word push_long push_flag push_opaque push_fixed push_raw push_op
identity-push_piece (word w) r = identity-set r.b _ r.c
identity-push_piece (long w) r = identity-set r.b _ r.c
identity-push_piece (flag x) r = identity-set r.b _ r.c
identity-push_piece (opaque x) r = identity-set r.b _ r.c
identity-push_piece (fixed x) r = identity-set r.b _ r.c
identity-push_piece (raw x) r = identity-set r.b _ r.c
identity-push_piece (op o) r = identity-set r.b _ r.c
identity-push_piece bump r = refl

pub identity-build : (ps : List Piece) (r : Rpc) → identity (build ps r).c ≡ identity r.c
identity-build [] r = refl
identity-build (p ∷ ps) r = identity-build ps (push_piece p r) ∙ identity-push_piece p r

pub identity-allocate_rpc : (c : Client) → identity (allocate_rpc c to_forward).c ≡ identity c
unfolding allocate_rpc push_header push_word push_opaque leave_opcount
identity-allocate_rpc c = refl

module _ {W : Type 0} (m : Machine W) (c : Client) (f : File) (locktype offset n : ℕ) where
  lock_request-build :
      config_boolean m "NFS_USE_FILEHANDLE" true ≡ true
      → build
          (lock_pieces f locktype offset n (owner_pieces c.clientid c.instance_verifier))
          (file_rpc m c f)
        ≡ lock_request m c f locktype offset n
  unfolding push_stateid push_owner push_client_id push_bare_sequence push_lock_sequence
  lock_request-build e =
      let front = lock_pieces f locktype offset n [] in
      let same : identity (build front (file_rpc m c f)).c ≡ identity c =
        ap (λ (r : Rpc). identity r.c) (file_rpc-build m c f front e)
        ∙ identity-build (file_pieces c f front) (allocate_rpc c to_forward)
        ∙ identity-allocate_rpc c in
      ap (λ (i : List ℕ × List ℕ). build (owner_pieces i.0 i.1) (build front (file_rpc m c f)))
        (sym same)

-- What `lock_range` and `unlock_range` do with the request.
abbrev pub ranged : {W : Type 0} → Machine W → ℕ → ℕ → File → OpNum → Rpc → M W File
ranged m io depth f o r = do
  transact m io depth r o to_reverse
  (sid, _) ← parse_stateid to_reverse f.latest_sid
  pure (record f { latest_sid = sid })

-- With the file handle in use, as it is by default, a forward buffer with a capacity from 92 to 2
-- ^ 31, and the pieces of each request together at most 2 ^ 30 - 100 bytes, `lock_range` and
-- `unlock_range` are `transact` of a request and the reading of a state id, and their requests
-- hold, in the XDR forms of RFC 5661: the header for the next xid, four bytes for the count,
-- SEQUENCE, PUTFH, and LOCK with the type, no reclaim, the range and a new owner on the state id
-- of the open, or LOCKU with the type, the latest state id and the range. The owner's text lacks
-- its last character.
pub ranges-Carries :
    {W : Type 0} (m : Machine W) (io depth : ℕ) (f : File) (locktype offset n : ℕ) (s : Sys W)
    → config_boolean m "NFS_USE_FILEHANDLE" true ≡ true
    → 92 ≤ s.client.forward.capacity
    → s.client.forward.capacity ≤ 2 ^ 31
    → length (
          bytes_of (
            file_pieces s.client f (
              lock_pieces f locktype offset n
                (owner_pieces s.client.clientid s.client.instance_verifier))))
        + 100
      ≤ limit
    → length (bytes_of (file_pieces s.client f (unlock_pieces f locktype offset n))) + 100 ≤ limit
    → ((lock_range m io depth f locktype offset n s
          ≡ ranged m io depth f op_lock (lock_request m s.client f locktype offset n) s)
        × Carries s.client f
            (lock_pieces f locktype offset n
              (owner_pieces s.client.clientid s.client.instance_verifier))
            (lock_request m s.client f locktype offset n))
      × ((unlock_range m io depth f locktype offset n s
            ≡ ranged m io depth f op_locku (unlock_request m s.client f locktype offset n) s)
          × Carries s.client f
              (unlock_pieces f locktype offset n)
              (unlock_request m s.client f locktype offset n))
unfolding lock_range unlock_range push_stateid push_bare_sequence
ranges-Carries m io depth f locktype offset n s e low high fits fits1 =
    let c = s.client in
    let ps = lock_pieces f locktype offset n (owner_pieces c.clientid c.instance_verifier) in
    (
      (
        refl,
        subst (Carries c f ps) (lock_request-build m c f locktype offset n e)
            (build-Carries m c f ps e low high fits),
      ),
      (refl, build-Carries m c f (unlock_pieces f locktype offset n) e low high fits1),
    )
