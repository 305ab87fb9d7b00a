-- ===== src/System.antt =====
-- nfsv4/nfs4_internal.h: the client and its requests as data, the machine around it as an
-- interface, and the monad of the functions that return a status.
use ssqlite.Prelude.{true, false, ◌≡◌, refl, ℕ, Bool, String, List, Option}
use ssqlite.Prelude.Memory.{Block}
use ssqlite.Buffer.{Heap, Buffer}

-- What the code asks of libc, the kernel and the compiled program. `W` is their state.
pub record Machine (W : Type 0) : Type 0 where
  -- What `malloc` finds in a fresh block of each size.
  pub heap : Heap
  -- `getenv`; the environment does not change.
  pub getenv : String → Option (List ℕ)
  -- `gethostbyname`: the address, or the null pointer.
  pub resolve : List ℕ → W → Option (List ℕ) × W
  -- `socket`, `setsockopt` and `connect` on that address: the descriptor and the result.
  pub dial : List ℕ → W → (ℕ × ℕ) × W
  -- `write`: the number of bytes taken, or -1.
  pub write : ℕ → List ℕ → W → Option ℕ × W
  -- `read`: the bytes that were copied, or -1.
  pub read : ℕ → ℕ → W → Option (List ℕ) × W
  -- `rand`
  pub rand : W → ℕ × W
  -- `clock_gettime(CLOCK_MONOTONIC)` in nanoseconds
  pub clock : W → ℕ × W
  -- The status that a caller finds when a function ends with no `return`; `none` is STATUS_OK.
  pub left_over : W → Option String × W

-- The buffer that an rpc is built in, `c->forward` or `c->reverse`.
pub data Which : Type 0 where
  to_forward to_reverse : Which

-- `struct client`. Byte arrays, and the clientid that is only copied, are lists of bytes.
pub record Client : Type 0 where
  pub fd : ℕ
  pub xid : ℕ
  pub address : List ℕ
  pub clientid : List ℕ
  pub session : List ℕ
  pub sequence : ℕ
  pub server_sequence : ℕ
  pub lock_sequence : ℕ
  pub instance_verifier : List ℕ
  pub forward : Buffer
  pub reverse : Buffer
  pub maxreq : ℕ
  pub maxresp : ℕ
  pub maxops : ℕ
  pub maxreqs : ℕ
  pub hostname : Buffer
  pub root_filehandle_len : ℕ
  pub root_filehandle : List ℕ

-- `struct stateid`
pub record StateId : Type 0 where
  pub seqid : ℕ
  pub opaque : List ℕ

-- `struct file`; its client is the client of the system.
pub record File : Type 0 where
  pub path : List (List ℕ)
  pub filehandle_len : ℕ
  pub filehandle : List ℕ
  pub latest_sid : StateId
  pub open_sid : StateId

-- `struct rpc`, with the client that it points to as it stands while the request is built.
pub record Rpc : Type 0 where
  pub c : Client
  pub opcountloc : ℕ
  pub opcount : ℕ
  pub b : Which

abbrev pub get_buffer : Which → Client → Buffer
get_buffer to_forward c = c.forward
get_buffer to_reverse c = c.reverse

abbrev pub set_buffer : Which → Buffer → Client → Client
set_buffer to_forward x c = record c { forward = x }
set_buffer to_reverse x c = record c { reverse = x }

-- `r->b` and a write to it
abbrev pub rpc_buffer : Rpc → Buffer
rpc_buffer r = get_buffer r.b r.c

abbrev pub on_buffer : (Buffer → Buffer) → Rpc → Rpc
on_buffer f r = record r { c = set_buffer r.b (f (get_buffer r.b r.c)) r.c }

-- How a call ends: with a value under STATUS_OK, with a status, in `panic` or a failed `assert`,
-- or not at all within the fuel.
pub data Outcome {ℓ} (A : Type ℓ) : Type ℓ where
  ok : A → Outcome A
  fail : String → Outcome A
  panic : String → Outcome A
  stuck : Outcome A

pub record Sys (W : Type 0) : Type 0 where
  pub client : Client
  pub world : W
  -- The memory of the caller, which the addresses of a read or a write point into.
  pub memory : Block
  -- The `boolean` that `transact` and its like pass by pointer to `parse_rpc`.
  pub badsession : Bool

abbrev pub M : Type 0 → Type 0 → Type 0
M W A = Sys W → Outcome A × Sys W

-- The rest of a computation, once its first call has ended.
abbrev pub then_do : {W A B : Type 0} → (A → M W B) → Outcome A × Sys W → Outcome B × Sys W
then_do f (ok a, s) = f a s
then_do f (fail e, s) = (fail e, s)
then_do f (panic e, s) = (panic e, s)
then_do f (stuck, s) = (stuck, s)

infixl 5 ◌>>=◌ ◌>>◌
abbrev pub ◌>>=◌ : {W A B : Type 0} → M W A → (A → M W B) → M W B
◌>>=◌ m f s = then_do f (m s)

abbrev pub ◌>>◌ : {W A B : Type 0} → M W A → M W B → M W B
m >> k = m >>= λ _. k

abbrev pub pure : {W A : Type 0} → A → M W A
pure a s = (ok a, s)

-- `return allocate_status(c, cause)`
abbrev pub failing : {W A : Type 0} → String → M W A
failing e s = (fail e, s)

-- The fuel ran out.
abbrev pub out_of_fuel : {W A : Type 0} → M W A
out_of_fuel s = (stuck, s)

-- `panic`, a failed `assert` or a null pointer
abbrev pub panicking : {W A : Type 0} → String → M W A
panicking e s = (panic e, s)

abbrev pub client_of : {W : Type 0} → M W Client
client_of s = (ok s.client, s)

abbrev pub modify : {W : Type 0} → (Client → Client) → M W (Unit {0})
modify f s = (ok tt, record s { client = f s.client })

abbrev pub memory_of : {W : Type 0} → M W Block
memory_of s = (ok s.memory, s)

abbrev pub modify_memory : {W : Type 0} → (Block → Block) → M W (Unit {0})
modify_memory f s = (ok tt, record s { memory = f s.memory })

-- A call of the machine.
abbrev pub ask : {W A : Type 0} → (W → A × W) → M W A
ask f s = let (a, w) = f s.world in (ok a, record s { world = w })

abbrev pub set_badsession : {W : Type 0} → Bool → M W (Unit {0})
set_badsession x s = (ok tt, record s { badsession = x })

abbrev pub get_badsession : {W : Type 0} → M W Bool
get_badsession s = (ok s.badsession, s)

-- What a call returned, as a value, for code that looks at it or drops it: the value that goes
-- with STATUS_OK, or the cause.
pub data Tried {ℓ} (A : Type ℓ) : Type ℓ where
  done : A → Tried A
  error : String → Tried A

abbrev pub Status : Type 0
Status = Tried (Unit {0})

-- `is_ok` and `status_string`
abbrev pub is_ok : Status → Bool
is_ok (done a) = true
is_ok (error e) = false

abbrev pub status_string : Status → String
status_string (done a) = "ok"
status_string (error e) = e

abbrev pub tried : {W A : Type 0} → Outcome A × Sys W → Outcome (Tried A) × Sys W
tried (ok a, s) = (ok (done a), s)
tried (fail e, s) = (ok (error e), s)
tried (panic e, s) = (panic e, s)
tried (stuck, s) = (stuck, s)

abbrev pub attempt : {W A : Type 0} → M W A → M W (Tried A)
attempt m s = tried (m s)

-- `return s`
abbrev pub give : {W A : Type 0} → Tried A → M W A
give (done a) = pure a
give (error e) = failing e

-- What follows a call that succeeds goes on in the state after it.
pub then-ok :
    {W : Type 0} (a b : M W (Unit {0})) (s s1 : Sys W) → a s ≡ (ok tt, s1) → (a >> b) s ≡ b (a s).1
then-ok a b s s1 e = rw e refl
