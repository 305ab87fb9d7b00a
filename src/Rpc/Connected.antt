-- ===== src/Rpc/Connected.antt =====
-- nfsv4/rpc.c, `rpc_connection`: the steps one after the other, and the session they leave.
use Prim.Native.Nat.{min}
use ssqlite.Prelude.{ℕ, suc, ◌+◌, ◌≡◌, refl, ap, ◌∙◌, List, ◌++◌, length, drop}
use ssqlite.Buffer.{u32}
use ssqlite.Xdr.Push.{
  push_create_session, push_channel_attrs, push_client_id, push_sequence, push_session_id, push_op,
  push_word, push_raw, push_opaque, push_long,
}
use ssqlite.Xdr.Limits.{Granted}
use ssqlite.Rpc.Request.{allocate_rpc, push_header, leave_opcount, finish}
use ssqlite.Rpc.Session.{
  nfs4_connect, exchange_id, create_session, get_root_fh, reclaim_complete, rpc_connection,
  transact, first_sequences, next_server_sequence,
}
use ssqlite.Rpc.Setup.{
  Connects, Identifies, Grants, FindsRoot, Reclaims, session_request, identify_request,
  root_request, reclaim_request, nfs4_connect-Connects, exchange_id-Identifies,
  create_session-Grants, get_root_fh-FindsRoot, reclaim_complete-Reclaims,
}
use ssqlite.System.{then-ok, Client, Machine, Sys, ok}

-- What a session is to the client: its id and the sequences, that of the client, the four limits,
-- and the root.
pub record SessionState : Type 0 where
  pub clientid : List ℕ
  pub server_sequence : ℕ
  pub session : List ℕ
  pub sequence : ℕ
  pub maxreq : ℕ
  pub maxresp : ℕ
  pub maxops : ℕ
  pub maxreqs : ℕ
  pub root_filehandle_len : ℕ
  pub root_filehandle : List ℕ

abbrev pub session_state : Client → SessionState
session_state c = record {
  clientid = c.clientid;
  server_sequence = c.server_sequence;
  session = c.session;
  sequence = c.sequence;
  maxreq = c.maxreq;
  maxresp = c.maxresp;
  maxops = c.maxops;
  maxreqs = c.maxreqs;
  root_filehandle_len = c.root_filehandle_len;
  root_filehandle = c.root_filehandle;
}

abbrev stepped : SessionState → SessionState
stepped t = record t { sequence = u32 (t.sequence + 1) }

abbrev begun : SessionState → SessionState
begun t = record t { sequence = 1; server_sequence = u32 (t.server_sequence + 1) }

abbrev with_identity : List ℕ → ℕ → SessionState → SessionState
with_identity clientid sequence t = record t { clientid = clientid; server_sequence = sequence }

abbrev with_root : List ℕ → SessionState → SessionState
with_root handle t = record t {
  root_filehandle_len = length handle;
  root_filehandle = handle ++ drop (length handle) t.root_filehandle;
}

abbrev with_limits : Granted → SessionState → SessionState
with_limits g t = record t {
  session = g.session;
  maxreq = min t.maxreq g.maxreq;
  maxresp = min t.maxresp g.maxresp;
  maxops = min t.maxops g.maxops;
  maxreqs = min t.maxreqs g.maxreqs;
}

state-root : (c : Client) → session_state (finish (root_request c)).c ≡ stepped (session_state c)
unfolding finish allocate_rpc push_header leave_opcount push_sequence push_session_id push_op
    push_word push_raw push_opaque
state-root c = refl

state-reclaim :
    (c : Client) → session_state (finish (reclaim_request c)).c ≡ stepped (session_state c)
unfolding finish allocate_rpc push_header leave_opcount push_sequence push_session_id push_op
    push_word push_raw push_opaque
state-reclaim c = refl

state-session :
    (c : Client) → session_state (finish (session_request c)).c ≡ begun (session_state c)
unfolding finish allocate_rpc push_header leave_opcount push_op push_word push_raw push_opaque
    first_sequences next_server_sequence push_create_session push_channel_attrs push_client_id
state-session c = refl

state-identify :
    (c : Client) (owner : List ℕ)
    → session_state (finish (identify_request c owner)).c ≡ session_state c
unfolding finish allocate_rpc push_header leave_opcount push_op push_word push_raw push_opaque
    push_long
state-identify c owner = refl

module _ {W : Type 0} (m : Machine W) (io depth : ℕ) where
  abbrev pub connected_state : Sys W → Sys W
  connected_state s = (nfs4_connect m s).1

  abbrev pub identified_state : Sys W → Sys W
  identified_state s = (exchange_id m io (connected_state s)).1

  abbrev pub granted_state : Sys W → Sys W
  granted_state s = (create_session m io (transact m io (suc depth)) (identified_state s)).1

  abbrev pub rooted_state : Sys W → Sys W
  rooted_state s = (get_root_fh m io (granted_state s)).1

  -- Each step is answered, in the state that the one before leaves.
  pub record SetsUp (s : Sys W) : Type 0 where
    pub connects : Connects m io s
    pub identifies : Identifies m io (connected_state s)
    pub grants : Grants m io (identified_state s)
    pub finds_root : FindsRoot m io (granted_state s)
    pub reclaims : Reclaims m io (rooted_state s)

  -- If the name resolves and the connection is made, the owner id is made, and EXCHANGE_ID,
  -- CREATE_SESSION, GETFH for the root and RECLAIM_COMPLETE are each answered, with the status 0
  -- of each result up to their own, in the state that the step before leaves, the handle of the
  -- root having at most 128 bytes, then `rpc_connection` succeeds and leaves the client with the
  -- client id of the server and the sequence after the one given with it, the session of the
  -- server, of which two requests are made, each limit the smaller of the client's before
  -- `rpc_connection` and the server's, and the handle of the root.
  pub rpc_connection-SetsUp :
      (s : Sys W) (h : SetsUp s)
      → (s' : Sys W) × (rpc_connection m io (transact m io (suc depth)) s ≡ (ok tt, s'))
        × (session_state s'.client ≡ record {
          clientid = h.identifies.clientid;
          server_sequence = u32 (h.identifies.server_sequence + 1);
          session = h.grants.granted.session;
          sequence = 3;
          maxreq = min s.client.maxreq h.grants.granted.maxreq;
          maxresp = min s.client.maxresp h.grants.granted.maxresp;
          maxops = min s.client.maxops h.grants.granted.maxops;
          maxreqs = min s.client.maxreqs h.grants.granted.maxreqs;
          root_filehandle_len = length h.finds_root.handle;
          root_filehandle =
              h.finds_root.handle ++ drop (length h.finds_root.handle) s.client.root_filehandle;
        })
  unfolding rpc_connection
  rpc_connection-SetsUp s h =
      let handle = h.finds_root.handle in
      let identify = with_identity h.identifies.clientid h.identifies.server_sequence in
      let final = λ (t : SessionState).
        stepped (with_root handle (stepped (with_limits h.grants.granted (begun t)))) in
      let t2 = identified_state s in
      let t3 = granted_state s in
      let t4 = rooted_state s in
      let e1 = nfs4_connect-Connects m io s h.connects in
      let (y2, e2, a2) = exchange_id-Identifies m io (connected_state s) h.identifies in
      let (y3, e3, a3) = create_session-Grants m io depth t2 h.grants in
      let (y4, e4, a4) = get_root_fh-FindsRoot m io t3 h.finds_root in
      let (y5, e5) = reclaim_complete-Reclaims m io t4 h.reclaims in
      (
        _,
        then-ok (nfs4_connect m) _ s _ e1
            ∙ then-ok (exchange_id m io) _ (connected_state s) _ e2
            ∙ then-ok (create_session m io (transact m io (suc depth))) _ t2 _ e3
            ∙ then-ok (get_root_fh m io) (reclaim_complete m io) t3 _ e4
            ∙ e5,
        state-reclaim t4.client
            ∙ ap (λ r. stepped (session_state r.1.client)) e4
            ∙ ap (λ t. stepped (with_root handle t)) (state-root t3.client)
            ∙ ap (λ r. stepped (with_root handle (stepped (session_state r.1.client)))) e3
            ∙ ap (λ t. stepped (with_root handle (stepped (with_limits h.grants.granted t))))
                (state-session t2.client)
            ∙ ap final (ap (λ r. session_state r.1.client) e2)
            ∙ ap (λ t. final (identify t))
                (state-identify (connected_state s).client h.identifies.owner
                  ∙ ap (λ r. session_state r.1.client) e1),
      )
