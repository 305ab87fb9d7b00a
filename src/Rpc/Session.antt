-- ===== src/Rpc/Session.antt =====
-- nfsv4/rpc.c: the exchange of a request for its reply, and the set-up and recovery of a session.
-- `io` bounds the loops on the socket and in the scan of a reply; `depth` bounds how often a
-- recovery may need a recovery of its own.
use ssqlite.Prelude.{
  ℕ, zero, suc, ◌+◌, true, false, List, [], ◌∷◌, ◌++◌, none, some, ltb, ◌==◌, if◌then◌else◌, take,
  drop,
}
use ssqlite.Buffer.{bytes, u32}
use ssqlite.Protocol.Ops.{
  OpNum, opcode, op_exchange_id, op_create_session, op_putrootfh, op_putfh, op_getfh,
  op_destroy_session, op_reclaim_complete, fhsize,
}
use ssqlite.Xdr.Push.{
  ◌|>◌, push_word, push_opaque, push_op, push_sequence, push_session_id, push_create_session,
  push_exchange_id,
}
use ssqlite.Xdr.Parse.{read_beu32, read_buffer, fail_code, parse_exchange_id, parse_create_session}
use ssqlite.Rpc.Config.{config_boolean}
use ssqlite.Rpc.Request.{reset, allocate_rpc, push_resolution, replay_rpc}
use ssqlite.Rpc.Socket.{rpc_send, read_response}
use ssqlite.Rpc.Reply.{parse_rpc, read_until}
use ssqlite.System.{
  Client, Rpc, File, Which, to_forward, to_reverse, Machine, M, ◌>>=◌, ◌>>◌, pure, ask, failing,
  out_of_fuel, panicking, Status, done, client_of, modify, get_buffer, set_buffer, attempt, give,
  set_badsession, get_badsession,
}

-- The C string at the front of a buffer.
unfoldable pub until_nul : List ℕ → List ℕ
until_nul [] = []
until_nul (x ∷ xs) = let rest = until_nul xs in if x == 0 then [] else x ∷ rest

-- The sequences with which a new session starts, and the step of the server's sequence once the
-- request is built.
unfoldable pub first_sequences : Rpc → Rpc
first_sequences r = record r { c = record c { sequence = 1; lock_sequence = 1 } }
  where
    c : Client
    c = r.c

unfoldable pub next_server_sequence : Rpc → Rpc
next_server_sequence r = record r { c = record c { server_sequence = u32 (c.server_sequence + 1) } }
  where
    c : Client
    c = r.c

module _ {W : Type 0} (m : Machine W) where
  unfoldable pub nfs4_connect : M W (Unit {0})
  nfs4_connect = do
    c ← client_of
    he ← ask (m.resolve (until_nul (bytes c.hostname)))
    elim he [
      | none ↦ panicking "gethostbyname"
      | some address ↦ do
        modify (λ c. record c { address = address })
        (fd, res) ← ask (m.dial address)
        modify (λ c. record c { fd = fd })
        if res == 0 then pure tt else failing "connect failure"
    ]

  -- The start of a request on an open file.
  unfoldable pub file_rpc : Client → File → Rpc
  file_rpc c f =
      allocate_rpc c to_forward
      |> push_sequence
      |> push_op op_putfh
      |> (if config_boolean m "NFS_USE_FILEHANDLE" true
          then push_opaque (take f.filehandle_len f.filehandle)
          else push_resolution f.path)

  module _ (io : ℕ) where
    unfoldable pub base_transact : Rpc → OpNum → Which → M W (Unit {0})
    base_transact r op result = do
      rpc_send m r
      modify (λ c. set_buffer result (reset (get_buffer result c)) c)
      read_response m io result
      parse_rpc result
      read_until io result (opcode op)
      code ← read_beu32 result
      if code == 0 then pure tt else fail_code code

    unfoldable pub exchange_id : M W (Unit {0})
    exchange_id = do
      c ← client_of
      r ← push_exchange_id m (allocate_rpc c to_reverse)
      base_transact r op_exchange_id to_reverse
      parse_exchange_id to_reverse

    -- `transact` is handed in, since it recovers through this function.
    unfoldable pub create_session : (Rpc → OpNum → Which → M W (Unit {0})) → M W (Unit {0})
    create_session transact = do
      c ← client_of
      transact
          (allocate_rpc c to_reverse
            |> first_sequences
            |> push_create_session
            |> next_server_sequence)
          op_create_session to_reverse
      parse_create_session to_reverse

    unfoldable pub get_root_fh : M W (Unit {0})
    get_root_fh = do
      c ← client_of
      base_transact
          (allocate_rpc c to_reverse |> push_sequence |> push_op op_putrootfh |> push_op op_getfh)
          op_getfh to_reverse
      len ← read_beu32 to_reverse
      if ltb fhsize len then failing "encoding mismatch" else pure tt
      modify (λ c. record c { root_filehandle_len = len })
      fh ← read_buffer to_reverse len
      modify (λ c. record c { root_filehandle = fh ++ drop len c.root_filehandle })

    unfoldable pub destroy_session : M W (Unit {0})
    destroy_session = do
      c ← client_of
      base_transact
          (allocate_rpc c to_reverse |> push_op op_destroy_session |> push_session_id c.session)
          op_destroy_session to_reverse

    unfoldable pub reclaim_complete : M W (Unit {0})
    reclaim_complete = do
      c ← client_of
      base_transact
          (allocate_rpc c to_reverse |> push_sequence |> push_op op_reclaim_complete |> push_word 0)
          op_reclaim_complete to_reverse

    unfoldable pub rpc_connection : (Rpc → OpNum → Which → M W (Unit {0})) → M W (Unit {0})
    rpc_connection transact = do
      nfs4_connect
      exchange_id
      create_session transact
      get_root_fh
      reclaim_complete

    -- The request patched for another try, over the client as it stands now.
    unfoldable pub replay : Rpc → M W Rpc
    replay r = do
      c ← client_of
      let again = replay_rpc (record r { c = c })
      modify (λ _. again.c)
      pure again

    -- The loop of `transact`, with the tries that are left and the status of the last one. A try
    -- that ends before the reply is parsed leaves `badsession` as it was, which is true.
    unfoldable pub tries : M W (Unit {0}) → OpNum → Which → ℕ → Status → Rpc → M W (Unit {0})
    tries reconnect op result zero s r = give s
    tries reconnect op result (suc n) s r = do
      set_badsession true
      s' ← attempt (base_transact r op result)
      bad ← get_badsession
      elim bad [
        | false ↦ give s'
        | true ↦ do reconnect; again ← replay r; tries reconnect op result n s' again
      ]

    -- The status that `s` holds before the first try is never returned.
    unfoldable pub transact : ℕ → Rpc → OpNum → Which → M W (Unit {0})
    transact zero r op result = out_of_fuel
    transact (suc depth) r op result =
        tries (rpc_connection (transact depth)) op result 2 (done tt) r
