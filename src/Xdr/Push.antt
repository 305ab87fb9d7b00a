-- ===== src/Xdr/Push.antt =====
-- nfsv4/xdr.c: the pushes of operations and their arguments onto a request.
use Prim.Native.Char.{code}
use ssqlite.Prelude.{
  ℕ, zero, suc, ◌+◌, ◌-◌, ◌*◌, ◌/◌, ◌%◌, Bool, true, false, String, List, [], ◌∷◌, ◌++◌, none, some,
  ltb, if◌then◌else◌, length, take, get_elem?,
}
use ssqlite.Buffer.{u32, push_bytes}
use ssqlite.Xdr.Words.{push_be32, push_be64, push_boolean, push_string, push_fixed_string}
use ssqlite.Protocol.Ops.{OpNum, opcode, op_create_session, op_sequence, op_open, op_exchange_id}
use ssqlite.System.{Client, Rpc, StateId, Machine, M, ◌>>=◌, pure, ask, panicking, on_buffer}

infixl 6 ◌|>◌
abbrev pub ◌|>◌ {ℓ κ} : {A : Type ℓ} {B : Type κ} → A → (A → B) → B
x |> f = f x

-- The bytes of an ASCII text.
abbrev pub codes : String → List ℕ
codes String.[] = []
codes (String.◌∷◌ c s) = code c ∷ codes s

-- `push_be32(r->b, w)` and the like
unfoldable pub push_word : ℕ → Rpc → Rpc
push_word w = on_buffer (λ b. push_be32 b w)

unfoldable pub push_long : ℕ → Rpc → Rpc
push_long w = on_buffer (λ b. push_be64 b w)

unfoldable pub push_flag : Bool → Rpc → Rpc
push_flag x = on_buffer (λ b. push_boolean b x)

unfoldable pub push_opaque : List ℕ → Rpc → Rpc
push_opaque x = on_buffer (λ b. push_string b x)

unfoldable pub push_fixed : List ℕ → Rpc → Rpc
push_fixed x = on_buffer (λ b. push_fixed_string b x)

-- `push_bytes`, and a `buffer_extend` with the `memcpy` written out, which is the same.
unfoldable pub push_raw : List ℕ → Rpc → Rpc
push_raw x = on_buffer (λ b. push_bytes b x)

unfoldable pub push_op : OpNum → Rpc → Rpc
push_op op r = let r' = push_word (opcode op) r in record r' { opcount = r.opcount + 1 }

unfoldable pub push_channel_attrs : Rpc → Rpc
push_channel_attrs r =
    r
    |> push_word 0
    |> push_word r.c.maxreq
    |> push_word r.c.maxresp
    |> push_word (1024 * 1024)
    |> push_word r.c.maxops
    |> push_word r.c.maxreqs
    |> push_word 0

unfoldable pub push_session_id : List ℕ → Rpc → Rpc
push_session_id session = push_raw session

unfoldable pub push_client_id : Rpc → Rpc
push_client_id r = push_raw r.c.clientid r

unfoldable pub push_create_session : Rpc → Rpc
push_create_session r =
    r
    |> push_op op_create_session
    |> push_client_id
    |> push_word r.c.server_sequence
    |> push_word 1
    |> push_channel_attrs
    |> push_channel_attrs
    |> push_word 0x7b
    |> push_word 0x01
    |> push_word 0

-- `r->c->sequence++`
abbrev pub bump_sequence : Rpc → Rpc
bump_sequence r = record r { c = record c { sequence = u32 (c.sequence + 1) } }
  where
    c : Client
    c = r.c

unfoldable pub push_sequence : Rpc → Rpc
push_sequence r =
    r
    |> push_op op_sequence
    |> push_session_id r.c.session
    |> push_word r.c.sequence
    |> push_word 0
    |> push_word 0
    |> push_word 0
    |> bump_sequence

unfoldable pub push_bare_sequence : Rpc → Rpc
push_bare_sequence = push_word 0

unfoldable pub push_lock_sequence : Rpc → Rpc
push_lock_sequence = push_word 0

-- The number whose bytes are given, lowest first: what `*(unsigned long *)` reads.
unfoldable pub little_endian : List ℕ → ℕ
little_endian [] = 0
little_endian (x ∷ xs) = x + 256 * little_endian xs

abbrev hex_digit : ℕ → ℕ
hex_digit d = if ltb d 10 then b'0' + d else b'a' + d - 10

-- `%lx`; sixteen digits are enough for 64 bits.
unfoldable pub hex : ℕ → ℕ → List ℕ
hex zero n = []
hex (suc fuel) n =
    let front = hex fuel (n / 16) in
    if ltb n 16 then hex_digit n ∷ [] else front ++ (hex_digit (n % 16) ∷ [])

-- `sprintf(own, "open id:%lx", …)`
unfoldable pub owner_text : List ℕ → List ℕ
owner_text verifier = codes "open id:" ++ hex 16 (little_endian verifier)

-- The length that is sent is `strlen(own) - 1`.
unfoldable pub push_owner : Rpc → Rpc
push_owner r =
    let own = owner_text r.c.instance_verifier in
    r |> push_client_id |> push_opaque (take (length own - 1) own)

-- `CLAIM_NULL`
unfoldable pub push_claim_null : List ℕ → Rpc → Rpc
push_claim_null name r = r |> push_word 0 |> push_opaque name

-- `CLAIM_DELEGATE_CUR`; the state id and the name are left out.
unfoldable pub push_claim_deleg_cur : List ℕ → Rpc → Rpc
push_claim_deleg_cur name = push_word 2

-- `OPEN4_CREATE` with `UNCHECKED4` and the attributes of the new file, or `OPEN4_NOCREATE`
unfoldable pub push_how : Bool → Rpc → Rpc
push_how true r =
    r
    |> push_word 1
    |> push_word 0
    |> push_word 0x00000002
    |> push_word 0x00000000
    |> push_word 0x00000002
    |> push_word 0x00000004
    |> push_word 0x000001a4
push_how false r = push_word 0 r

unfoldable pub push_open : List ℕ → ℕ → Bool → Rpc → Rpc
push_open name share_access create r =
    r
    |> push_op op_open
    |> push_word 0
    |> push_word share_access
    |> push_word 0
    |> push_owner
    |> push_how create
    |> push_claim_null name

unfoldable pub push_stateid : StateId → Rpc → Rpc
push_stateid s r = r |> push_word s.seqid |> push_fixed s.opaque

abbrev charset : List ℕ
charset = codes "-_0123456789abcdefghijklmnopqrstuvwxyzABCDEFGHIJKLMNOPQRSTUVWXYZ"

module _ {W : Type 0} (m : Machine W) where
  -- `len` characters, each the one at `rand() % total` of the character set.
  unfoldable pub fill_random : ℕ → ℕ → M W (List ℕ)
  fill_random total zero = pure []
  fill_random total (suc len) = do
    r ← ask m.rand
    rest ← fill_random total len
    elim (get_elem? charset (r % total)) [
      | none ↦ panicking "read behind charset"
      | some x ↦ pure (x ∷ rest)
    ]

  unfoldable pub push_exchange_id : Rpc → M W Rpc
  push_exchange_id r = do
    co_owner_id ← fill_random 16 16
    pure (
        r
        |> push_op op_exchange_id
        |> push_raw r.c.instance_verifier
        |> push_opaque co_owner_id
        |> push_word 0
        |> push_word 0
        |> push_word 1
        |> push_opaque (codes "edu.berkeley")
        |> push_opaque (codes "NFS for Serverless v. 0.1-snapshot")
        |> push_long 0
        |> push_word 0)
