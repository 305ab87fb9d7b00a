-- ===== src/Rpc/Socket.antt =====
-- nfsv4/rpc.c: the socket. `fuel` bounds the rounds of the loop of `read_fully`.
use ssqlite.Prelude.{
  ℕ, zero, suc, ◌%◌, ◌^◌, List, [], ◌++◌, Option, none, some, ltb, ◌==◌, if◌then◌else◌, length,
}
use ssqlite.Prelude.Memory.{memcpy}
use ssqlite.Buffer.{Buffer, buffer_extend, buffer_length, bytes}
use ssqlite.Xdr.Words.{big_endian}
use ssqlite.Rpc.Request.{finish}
use ssqlite.System.{
  Rpc, Which, Machine, M, ◌>>=◌, ◌>>◌, pure, ask, failing, out_of_fuel, client_of, modify,
  get_buffer, set_buffer, rpc_buffer,
}

module _ {W : Type 0} (m : Machine W) where
  -- Each `read` asks for all of `nbyte` again, however much has come. `none` is -1.
  unfoldable pub read_fully : ℕ → ℕ → ℕ → List ℕ → M W (Option (List ℕ))
  read_fully zero fd nbyte got = out_of_fuel
  read_fully (suc fuel) fd nbyte got =
      let more : M W (Option (List ℕ)) = (do
        bread ← ask (m.read fd nbyte)
        elim bread [ none ↦ pure none | some xs ↦ read_fully fuel fd nbyte (got ++ xs) ]) in
      if ltb (length got) nbyte then more else pure (some got)

  unfoldable pub store : List ℕ → Buffer → Buffer
  store xs x = record x { contents = memcpy x.contents x.start xs }

  -- The body of a reply. What was read lies in the buffer, also where it is not as long as the
  -- frame.
  unfoldable pub read_frame : ℕ → Which → ℕ → M W (Unit {0})
  unfolding store
  read_frame fuel b frame = do
    c ← client_of
    modify (set_buffer b (buffer_extend (get_buffer b c) frame))
    body ← read_fully fuel c.fd frame []
    elim body [
      | none ↦ failing "server socket read error"
      | some xs ↦ do
        modify (λ c. set_buffer b (store xs (get_buffer b c)) c)
        if length xs == frame
            then modify (λ c. set_buffer b (record (get_buffer b c) { end = length xs }) c)
            else failing "server socket read error"
    ]

  unfoldable pub read_response : ℕ → Which → M W (Unit {0})
  read_response fuel b = do
    c ← client_of
    framing ← read_fully fuel c.fd 4 []
    elim framing [
      | none ↦ failing "server socket read error"
      | some head ↦
          if length head == 4
          then read_frame fuel b (big_endian 0 head % 2 ^ 31)
          else failing "server socket read error"
    ]

  unfoldable pub rpc_send : Rpc → M W (Unit {0})
  rpc_send r = do
    let sent = finish r
    modify (λ _. sent.c)
    res ← ask (m.write sent.c.fd (bytes (rpc_buffer sent)))
    elim res [
      | none ↦ failing "failed rpc write"
      | some n ↦
          if n == buffer_length (rpc_buffer sent) then pure tt else failing "failed rpc write"
    ]
