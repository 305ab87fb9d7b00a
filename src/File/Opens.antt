-- ===== src/File/Opens.antt =====
-- nfsv4/client.c and nfsv4/xdr.c, `file_open_internal` and `push_open`: the bytes of the request.
use ssqlite.Prelude.{
  ℕ, suc, true, false, ◌+◌, ◌^◌, ◌≤◌, ◌≡◌, refl, sym, ap, ◌∙◌, Bool, List, [], ◌∷◌, ◌++◌, some,
  arith, length, append_assoc, if◌then◌else◌,
}
use ssqlite.Buffer.Growth.{limit}
use ssqlite.Protocol.Ops.{
  op_sequence, op_putfh, op_lookup, op_open, op_getfh, share_access_both, share_access_read,
}
use ssqlite.Xdr.Push.{
  ◌|>◌, push_word, push_opaque, push_raw, push_op, push_owner, push_client_id, push_how,
  push_claim_null, push_open, push_sequence, push_session_id,
}
use ssqlite.Xdr.Pieces.{
  Piece, word, opaque, raw, op, bump, build, build-append, bytes_of, operations, opcount-build,
  operations-append,
}
use ssqlite.Rpc.Request.{
  allocate_rpc, push_header, leave_opcount, push_lookups, push_resolution_rfh, push_initial_path,
  split_last,
}
use ssqlite.File.Requests.{Sends, build-Sends}
use ssqlite.File.Ranges.{owner_pieces, identity, identity-build, identity-allocate_rpc}
use ssqlite.File.Opening.{open_request, opening, file_open_internal-opening}
use ssqlite.File.Open.{file_open_internal}
use ssqlite.System.{Client, File, Machine, Rpc, Sys, to_forward}

-- One LOOKUP for each directory.
abbrev pub lookup_pieces : List (List ℕ) → List Piece
lookup_pieces [] = []
lookup_pieces (i ∷ path) = op op_lookup ∷ opaque i ∷ lookup_pieces path

-- SEQUENCE with the slot 0, PUTFH with the root and the LOOKUPs.
abbrev pub resolve_pieces : Client → List (List ℕ) → List Piece
resolve_pieces c front =
    op op_sequence
    ∷ raw c.session
    ∷ word c.sequence
    ∷ word 0
    ∷ word 0
    ∷ word 0
    ∷ bump
    ∷ op op_putfh
    ∷ opaque c.root_filehandle
    ∷ lookup_pieces front

-- UNCHECKED4 with the attribute MODE, rw-r--r--, or OPEN4_NOCREATE.
abbrev pub how_pieces : Bool → List Piece → List Piece
how_pieces true ps = word 1 ∷ word 0 ∷ word 2 ∷ word 0 ∷ word 2 ∷ word 4 ∷ word 0x1a4 ∷ ps
how_pieces false ps = word 0 ∷ ps

-- OPEN up to its owner: a sequence, the access, and no share to deny.
abbrev pub access_pieces : Bool → List Piece
access_pieces writable =
    op op_open
    ∷ word 0
    ∷ word (if writable then share_access_both else share_access_read)
    ∷ word 0
    ∷ []

-- OPEN behind its owner: how, CLAIM_NULL and the name; and GETFH.
abbrev pub claim_pieces : Bool → List ℕ → List Piece
claim_pieces create name = how_pieces create (word 0 ∷ opaque name ∷ op op_getfh ∷ [])

abbrev pub open_pieces : Client → List (List ℕ) → List ℕ → Bool → Bool → List Piece
open_pieces c front name writable create =
    resolve_pieces c front
    ++ (access_pieces writable
        ++ (owner_pieces c.clientid c.instance_verifier ++ claim_pieces create name))

push_lookups-build :
    (path : List (List ℕ)) (r : Rpc) → push_lookups path r ≡ build (lookup_pieces path) r
unfolding push_lookups
push_lookups-build [] r = refl
push_lookups-build (i ∷ path) r = push_lookups-build path (r |> push_op op_lookup |> push_opaque i)

resolve-build :
    (c : Client) (front : List (List ℕ))
    → push_resolution_rfh front (allocate_rpc c to_forward |> push_sequence)
      ≡ build (resolve_pieces c front) (allocate_rpc c to_forward)
unfolding push_resolution_rfh push_sequence push_session_id allocate_rpc push_header leave_opcount
    push_word push_opaque push_op push_raw
resolve-build c front = push_lookups-build front _

open-build :
    (r : Rpc) (name : List ℕ) (writable create : Bool)
    → open_request r name writable create
      ≡ build (claim_pieces create name) (
          build
            (owner_pieces
              (build (access_pieces writable) r).c.clientid
              (build (access_pieces writable) r).c.instance_verifier)
            (build (access_pieces writable) r))
unfolding push_open push_owner push_client_id push_how push_claim_null
open-build r name writable true = refl
open-build r name writable false = refl

open_pieces-build :
    (c : Client) (front : List (List ℕ)) (name : List ℕ) (writable create : Bool)
    → open_request
        (push_resolution_rfh front (allocate_rpc c to_forward |> push_sequence))
        name
        writable
        create
      ≡ build (open_pieces c front name writable create) (allocate_rpc c to_forward)
open_pieces-build c front name writable create =
    let alloc = allocate_rpc c to_forward in
    let ps = resolve_pieces c front ++ access_pieces writable in
    let owner = owner_pieces c.clientid c.instance_verifier in
    let claim = claim_pieces create name in
    let same : identity (build ps alloc).c ≡ identity c =
      identity-build ps alloc ∙ identity-allocate_rpc c in
    ap (λ (r : Rpc). open_request r name writable create) (resolve-build c front)
    ∙ open-build (build (resolve_pieces c front) alloc) name writable create
    ∙ ap (λ (r : Rpc). build claim (build (owner_pieces r.c.clientid r.c.instance_verifier) r))
        (sym (build-append (resolve_pieces c front) (access_pieces writable) alloc))
    ∙ ap (λ (i : List ℕ × List ℕ). build claim (build (owner_pieces i.0 i.1) (build ps alloc))) same
    ∙ ap (build claim) (sym (build-append ps owner alloc))
    ∙ sym (build-append (ps ++ owner) claim alloc)
    ∙ ap (λ (qs : List Piece). build qs alloc)
        (append_assoc ps owner claim
          ∙ append_assoc (resolve_pieces c front) (access_pieces writable) (owner ++ claim))

push_initial_path-split :
    (path : List (List ℕ)) (r : Rpc) (front : List (List ℕ)) (name : List ℕ)
    → split_last path ≡ some (front, name)
    → push_initial_path path r ≡ some (push_resolution_rfh front r, name)
unfolding push_initial_path
push_initial_path-split path r front name e = rw (e, push_initial_path) refl

operations-lookup : (front : List (List ℕ)) → operations (lookup_pieces front) ≡ length front
operations-lookup [] = refl
operations-lookup (i ∷ front) = ap suc (operations-lookup front)

operations-claim : (create : Bool) (name : List ℕ) → operations (claim_pieces create name) ≡ 1
operations-claim true name = refl
operations-claim false name = refl

allocated : (c : Client) → (allocate_rpc c to_forward).opcount ≡ 0
unfolding allocate_rpc leave_opcount
allocated c = refl

open_operations :
    (c : Client) (front : List (List ℕ)) (name : List ℕ) (writable create : Bool)
    → (build (open_pieces c front name writable create) (allocate_rpc c to_forward)).opcount
      ≡ length front + 4
open_operations c front name writable create =
    let owner = owner_pieces c.clientid c.instance_verifier in
    let claim = claim_pieces create name in
    omega (
      arith,
      opcount-build (open_pieces c front name writable create) (allocate_rpc c to_forward),
      operations-append (resolve_pieces c front) (access_pieces writable ++ (owner ++ claim)),
      operations-lookup front,
      operations-claim create name,
      allocated c,
    )

-- For a path with the directories `front` and the name `name`, a forward buffer with a capacity
-- from 92 to 2 ^ 31, and the pieces of the request together at most 2 ^ 30 - 100 bytes:
-- `file_open_internal` is `opening` with a request that counts four operations more than there are
-- directories and holds, in the XDR forms of RFC 5661: the header for the next xid, four bytes for
-- the count, SEQUENCE, PUTFH with all the bytes kept for the root's handle, a LOOKUP for each
-- directory, OPEN with the access, no share to deny, the owner without its last character, whether
-- and how to create, and the name, and GETFH.
pub file_open_internal-Sends :
    {W : Type 0} (m : Machine W) (io depth : ℕ) (f : File) (path front : List (List ℕ))
    (name : List ℕ) (writable create : Bool) (s : Sys W)
    → split_last path ≡ some (front, name)
    → 92 ≤ s.client.forward.capacity
    → s.client.forward.capacity ≤ 2 ^ 31
    → length (bytes_of (open_pieces s.client front name writable create)) + 100 ≤ limit
    → (r : Rpc) × (file_open_internal m io depth f path writable create s
        ≡ opening m io depth f r s)
      × (r.opcount ≡ length front + 4)
      × Sends s.client (open_pieces s.client front name writable create) r
file_open_internal-Sends m io depth f path front name writable create s e low high fits =
    let alloc = allocate_rpc s.client to_forward |> push_sequence in
    let ps = open_pieces s.client front name writable create in
    (
      build ps (allocate_rpc s.client to_forward),
      file_open_internal-opening m io depth f path writable create s
            (push_resolution_rfh front alloc) name (push_initial_path-split path alloc front name e)
          ∙ ap (λ (r : Rpc). opening m io depth f r s)
              (open_pieces-build s.client front name writable create),
      open_operations s.client front name writable create,
      build-Sends s.client ps low high fits,
    )
