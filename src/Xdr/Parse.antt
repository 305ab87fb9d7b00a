-- ===== src/Xdr/Parse.antt =====
-- nfsv4/xdr.c and nfsv4/nfs4_internal.h: the readers as actions on a buffer of the client, and the
-- parsers of replies.
use ssqlite.Prelude.{ℕ, ◌*◌, List, Option, none, some, ltb, ◌==◌, if◌then◌else◌, []}
use ssqlite.Prelude.Memory.{slice}
use ssqlite.Buffer.{Buffer}
use ssqlite.Xdr.Words
use ssqlite.Xdr.Words.{skip}
use ssqlite.Protocol.Status.{codestring, nfsstatus}
use ssqlite.Protocol.Ops.{sessionid_size, other_size}
use ssqlite.System.{
  File, StateId, Which, Machine, M, ◌>>=◌, ◌>>◌, pure, ask, failing, panicking, client_of, modify,
  done, get_buffer, set_buffer, Status, error, attempt,
}

-- A reader of the buffer `b` of the client; it moves the start of that buffer.
unfoldable pub reading : {W A : Type 0} → (Buffer → Option (A × Buffer)) → Which → M W A
reading f b = do
  c ← client_of
  elim (f (get_buffer b c)) [
    | none ↦ failing "out of data"
    | some (x, rest) ↦ do modify (set_buffer b rest); pure x
  ]

-- `normalize`: a limit only goes down.
unfoldable pub normalize : ℕ → ℕ → ℕ
normalize old new = if ltb new old then new else old

module _ {W : Type 0} where
  unfoldable pub read_beu32 : Which → M W ℕ
  unfolding reading
  read_beu32 = reading Words.read_beu32

  unfoldable pub read_beu64 : Which → M W ℕ
  unfolding reading
  read_beu64 = reading Words.read_beu64

  unfoldable pub read_buffer : Which → ℕ → M W (List ℕ)
  unfolding reading
  read_buffer b len = reading (λ x. Words.read_buffer x len) b

  -- `b->start += n`
  unfoldable pub advance : Which → ℕ → M W (Unit {0})
  advance b n = modify (λ c. set_buffer b (skip (get_buffer b c) n) c)

  -- `memcpy(dest, b->contents + b->start, n); b->start += n`, with no check of the length
  unfoldable pub take_raw : Which → ℕ → M W (List ℕ)
  take_raw b n = do
    c ← client_of
    advance b n
    pure (slice (get_buffer b c).contents (get_buffer b c).start n)

  unfoldable pub verify_and_adv : Which → ℕ → M W (Unit {0})
  verify_and_adv b v = do
    v2 ← read_beu32 b
    if v == v2 then pure tt else failing "encoding mismatch"

  -- `return allocate_status(c, codestring(nfsstatus, code))`
  unfoldable pub fail_code : {A : Type 0} → ℕ → M W A
  fail_code code = elim (codestring nfsstatus code) [
    | none ↦ panicking "read behind nfsstatus"
    | some description ↦ failing description
  ]

  -- The state id as far as it was read, with the status.
  unfoldable pub parse_stateid : Which → StateId → M W (StateId × Status)
  parse_stateid b sid = do
    sequence ← attempt (read_beu32 b)
    elim sequence [
      | error e ↦ pure (sid, error e)
      | done n ↦ do
        opaque ← attempt (read_buffer b other_size)
        elim opaque [
          | error e ↦ pure (record sid { seqid = n }, error e)
          | done x ↦ pure (record { seqid = n; opaque = x }, done tt)
        ]
    ]

  unfoldable pub parse_ace : Which → M W (Unit {0})
  parse_ace b = do
    read_beu32 b
    read_beu32 b
    read_beu32 b
    namelen ← read_beu32 b
    read_buffer b namelen
    pure tt

  unfoldable pub parse_exchange_id : Which → M W (Unit {0})
  parse_exchange_id b = do
    clientid ← take_raw b 8
    modify (λ c. record c { clientid = clientid })
    server_sequence ← read_beu32 b
    modify (λ c. record c { server_sequence = server_sequence })
    read_beu32 b
    pure tt

  unfoldable pub parse_create_session : Which → M W (Unit {0})
  parse_create_session b = do
    session ← take_raw b sessionid_size
    modify (λ c. record c { session = session })
    read_beu32 b
    read_beu32 b
    read_beu32 b
    maxreq ← read_beu32 b
    modify (λ c. record c { maxreq = normalize c.maxreq maxreq })
    maxresp ← read_beu32 b
    modify (λ c. record c { maxresp = normalize c.maxresp maxresp })
    read_beu32 b
    maxops ← read_beu32 b
    modify (λ c. record c { maxops = normalize c.maxops maxops })
    maxreqs ← read_beu32 b
    modify (λ c. record c { maxreqs = normalize c.maxreqs maxreqs })
    read_beu32 b
    pure tt

-- `OPEN_DELEGATE_…`, `NFS_LIMIT_…` and `WND4_…`
abbrev delegate_none : ℕ
delegate_none = 0

abbrev delegate_read : ℕ
delegate_read = 1

abbrev delegate_write : ℕ
delegate_write = 2

abbrev delegate_none_ext : ℕ
delegate_none_ext = 3

abbrev limit_size : ℕ
limit_size = 1

abbrev limit_blocks : ℕ
limit_blocks = 2

abbrev wnd_contention : ℕ
wnd_contention = 1

abbrev wnd_resource : ℕ
wnd_resource = 2

abbrev no_stateid : StateId
no_stateid = record { seqid = 0; opaque = [] }

module _ {W : Type 0} (m : Machine W) where
  -- A function that ends with no `return`.
  unfoldable pub falls_off : M W (Unit {0})
  falls_off = do r ← ask m.left_over; elim r [ none ↦ pure tt | some e ↦ failing e ]

  -- The cases of the space limit run into each other and into the `default`.
  limit_default : M W (Unit {0})
  limit_default = failing "bad limit size"

  limit_blocks_case : Which → M W (Unit {0})
  unfolding limit_default
  limit_blocks_case b = do read_beu32 b; read_beu64 b; limit_default

  limit_size_case : Which → M W (Unit {0})
  unfolding limit_blocks_case
  limit_size_case b = do read_beu64 b; limit_blocks_case b

  unfoldable pub parse_space_limit : Which → M W (Unit {0})
  unfolding limit_default limit_blocks_case limit_size_case
  parse_space_limit b = do
    lt ← read_beu32 b
    if lt == limit_size
        then limit_size_case b
        else if lt == limit_blocks
        then limit_blocks_case b
        else limit_default

  -- A write delegation never comes to its ACE: the `switch` on the limit has returned.
  write_delegation : Which → M W (Unit {0})
  write_delegation b = do parse_stateid b no_stateid; read_beu32 b; parse_space_limit b

  read_delegation : Which → M W (Unit {0})
  read_delegation b = do parse_stateid b no_stateid; read_beu32 b; attempt (parse_ace b); falls_off

  -- `WND4_CONTENTION` runs on into `WND4_RESOURCE`.
  no_delegation : Which → M W (Unit {0})
  no_delegation b = do
    why ← read_beu32 b
    if why == wnd_contention
        then (do read_beu32 b; read_beu32 b; falls_off)
        else if why == wnd_resource
        then (do read_beu32 b; falls_off)
        else falls_off

  unfoldable pub parse_delegation : Which → M W (Unit {0})
  unfolding write_delegation read_delegation no_delegation
  parse_delegation b = do
    delegation_type ← read_beu32 b
    if delegation_type == delegate_none
        then falls_off
        else if delegation_type == delegate_read
        then read_delegation b
        else if delegation_type == delegate_write
        then write_delegation b
        else if delegation_type == delegate_none_ext
        then no_delegation b
        else failing "bad delegation return"

  -- The change info and the bitmap, which is skipped by its own count.
  unfoldable pub parse_open_rest : Which → M W (Unit {0})
  parse_open_rest b = do
    read_beu32 b
    read_beu64 b
    read_beu64 b
    read_beu32 b
    bitmap_len ← read_beu32 b
    advance b (bitmap_len * 4)
    parse_delegation b

  -- The file with its state ids as far as they were read; their status is dropped.
  unfoldable pub parse_open : File → Which → M W (File × Status)
  parse_open f b = do
    (sid, _) ← parse_stateid b f.open_sid
    st ← attempt (parse_open_rest b)
    pure (record f { open_sid = sid; latest_sid = sid }, st)
