-- ===== src/File/Open.antt =====
-- nfsv4/client.c: opening, creating, looking up and removing files, and the client itself.
use ssqlite.Prelude.{
  ℕ, zero, suc, ◌+◌, ◌*◌, ◌/◌, ◌%◌, Bool, true, false, List, [], ◌∷◌, ◌++◌, none, some, Option, ltb,
  if◌then◌else◌, length, drop,
}
use ssqlite.Buffer.{u32, allocate_buffer, push_bytes, push_char}
use ssqlite.Protocol.Ops.{
  opcode, op_open, op_getfh, op_remove, share_access_both, share_access_read, fhsize,
}
use ssqlite.Xdr.Push.{◌|>◌, push_opaque, push_op, push_sequence, push_open}
use ssqlite.Xdr.Parse.{read_beu32, read_buffer, verify_and_adv, parse_open, falls_off}
use ssqlite.Rpc.Config.{config_u64}
use ssqlite.Rpc.Request.{allocate_rpc, push_initial_path, push_resolution}
use ssqlite.Rpc.Session.{rpc_connection, transact}
use ssqlite.System.{
  Client, File, Rpc, to_forward, to_reverse, Machine, M, ◌>>=◌, ◌>>◌, pure, ask, failing, panicking,
  give, client_of, modify,
}

-- The eight bytes of a `u64` in memory, lowest first.
unfoldable pub le_bytes : ℕ → ℕ → List ℕ
le_bytes zero n = []
le_bytes (suc k) n = (n % 256) ∷ le_bytes k (n / 256)

-- What `vector_get` gives, or the end of the program.
abbrev pub in_bounds : {W A : Type 0} → Option A → M W A
in_bounds none = panicking "out of bounds vector reference"
in_bounds (some a) = pure a

module _ {W : Type 0} (m : Machine W) (io depth : ℕ) where
  unfoldable pub initial_path : List (List ℕ) → M W (Rpc × List ℕ)
  initial_path path = do
    c ← client_of
    in_bounds (push_initial_path path (allocate_rpc c to_forward |> push_sequence))

  -- The status for a create that is not writable is made and dropped.
  -- The file is changed in place there; what a failure leaves of it is left out here.
  unfoldable pub file_open_internal : File → List (List ℕ) → Bool → Bool → M W File
  unfolding initial_path
  file_open_internal f path writable create = do
    (r, final) ← initial_path path
    let share_access = (if writable then share_access_both else share_access_read)
    transact m io depth (r |> push_open final share_access create |> push_op op_getfh) op_open
        to_reverse
    (f', st) ← parse_open m f to_reverse
    give st
    verify_and_adv to_reverse (opcode op_getfh)
    verify_and_adv to_reverse 0
    len ← read_beu32 to_reverse
    if ltb fhsize len then failing "encoding mismatch" else pure tt
    fh ← read_buffer to_reverse len
    pure (record f' { filehandle_len = len; filehandle = fh ++ drop len f'.filehandle })

  -- `raw` is what `malloc` finds in the place of the new file.
  unfoldable pub file_open_read : File → List (List ℕ) → M W File
  file_open_read raw path = file_open_internal (record raw { path = path }) path false false

  unfoldable pub file_open_write : File → List (List ℕ) → M W File
  file_open_write raw path = file_open_internal (record raw { path = path }) path true false

  unfoldable pub file_create : File → List (List ℕ) → M W File
  file_create raw path = file_open_internal (record raw { path = path }) path true true

  unfoldable pub exists : List (List ℕ) → M W (Unit {0})
  exists path = do
    c ← client_of
    transact m io depth
        (allocate_rpc c to_forward |> push_sequence |> push_resolution path |> push_op op_getfh)
        op_getfh to_reverse

  unfoldable pub delete : List (List ℕ) → M W (Unit {0})
  unfolding initial_path
  delete path = do
    (r, final) ← initial_path path
    transact m io depth (r |> push_op op_remove |> push_opaque final) op_remove to_reverse

  -- The client before it connects, in the place `raw` that `malloc` gave.
  unfoldable pub new_client : Client → List ℕ → ℕ → Client
  new_client raw hostname now = record raw {
    hostname = push_char (push_bytes (allocate_buffer m.heap (length hostname + 1)) hostname) 0;
    xid = 0xb956bea4;
    maxops = u32 (config_u64 m "NFS_OPS_LIMIT" 16);
    maxreqs = u32 (config_u64 m "NFS_REQUESTS_LIMIT" 32);
    forward = allocate_buffer m.heap 16384;
    reverse = allocate_buffer m.heap 16384;
    instance_verifier = le_bytes 8 now;
    maxresp = u32 (config_u64 m "NFS_READ_LIMIT" (1024 * 1024));
    maxreq = u32 (config_u64 m "NFS_WRITE_LIMIT" (1024 * 1024));
  }

  unfoldable pub create_client : Client → List ℕ → M W (Unit {0})
  create_client raw hostname = do
    now ← ask m.clock
    modify (λ _. new_client raw hostname now)
    rpc_connection m io (transact m io depth)

  -- Two stubs, which end with no `return`.
  unfoldable pub readdir : List (List ℕ) → M W (Unit {0})
  readdir path = falls_off m

  unfoldable pub mkdir : List (List ℕ) → M W (Unit {0})
  mkdir path = falls_off m
