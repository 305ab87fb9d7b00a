-- ===== src/Rpc/Recovery.antt =====
-- nfsv4/rpc.c, `transact`, where the first try is the last.
use ssqlite.Prelude.{ℕ, suc, ◌≡◌, refl, ◌∙◌, List, some, String, ◌==◌, true, false}
use ssqlite.Buffer.{Buffer}
use ssqlite.Protocol.Ops.{OpNum}
use ssqlite.Protocol.Status.{codestring, nfsstatus, err_badsession}
use ssqlite.Xdr.Decode.{Ahead}
use ssqlite.Xdr.At.{at_buffer}
use ssqlite.Rpc.Request.{finish}
use ssqlite.Rpc.Session.{base_transact, transact, tries, rpc_connection}
use ssqlite.Rpc.Transact.{Answered, Refused, base_transact-Answered, base_transact-Refused}
use ssqlite.System.{M, Rpc, Machine, Sys, Which, ok, fail, Status, done}

-- The state in which `transact` begins a try.
abbrev pub before_try : {W : Type 0} → Sys W → Sys W
before_try s = record s { badsession = true }

module _ {W : Type 0} (m : Machine W) (io : ℕ) (op : OpNum) (b : Which)
    (reconnect : M W (Unit {0})) where
  -- A try that ends with no bad session is the last.
  last_try-ok :
      (n : ℕ) (old : Status) (r : Rpc) (s s1 : Sys W)
      → base_transact m io r op b (before_try s) ≡ (ok tt, s1)
      → s1.badsession ≡ false
      → tries m io reconnect op b (suc n) old r s ≡ (ok tt, s1)
  unfolding tries
  last_try-ok n old r s s1 e h = rw e (rw h refl)

  last_try-fail :
      (n : ℕ) (old : Status) (r : Rpc) (s s1 : Sys W) (text : String)
      → base_transact m io r op b (before_try s) ≡ (fail text, s1)
      → s1.badsession ≡ false
      → tries m io reconnect op b (suc n) old r s ≡ (fail text, s1)
  unfolding tries
  last_try-fail n old r s s1 text e h = rw e (rw h refl)

module _ {W : Type 0} (m : Machine W) (io depth : ℕ) (r : Rpc) (op : OpNum) (b : Which) (s : Sys W)
    (w : W) where
  -- If the request is written whole and the reply comes in whole, at most 2 ^ 30 bytes, answers
  -- its xid, has the status 0 with an empty tag, and has first SEQUENCE, PUTROOTFH, PUTFH and
  -- LOOKUP results of the status 0, fewer than the fuel, and then that of `op` with the status 0,
  -- then `transact` succeeds after one try and leaves ahead in the result buffer what follows the
  -- status of `op`.
  pub transact-Answered :
      (rest : List ℕ)
      → Answered m io r op b rest s.world w
      → (y : Buffer) × (transact m io (suc depth) r op b s ≡ (
        ok tt,
        at_buffer b y (record s { client = (finish r).c; world = w; badsession = false }),
      ))
        × Ahead y rest
  unfolding transact
  transact-Answered rest q =
      let (y, e, a) = base_transact-Answered m io r op b (before_try s) w rest q in
      (
        y,
        last_try-ok m io op b (rpc_connection m io (transact m io depth)) 1 (done tt) r s _ e refl,
        a,
      )

  -- If the request is written whole and a reply comes in whole, at most 2 ^ 30 bytes, that answers
  -- its xid and whose COMPOUND has a status that is neither 0 nor NFS4ERR_BADSESSION, then
  -- `transact` fails after one try with the text of that status in the table of statuses, which
  -- every status has.
  pub transact-Refused :
      (status : ℕ)
      → Refused m io r b status s.world w
      → (status == err_badsession) ≡ false
      → (text : String) × (codestring nfsstatus status ≡ some text)
        × ((y : Buffer) × (transact m io (suc depth) r op b s ≡ (
          fail text,
          at_buffer b y (record s { client = (finish r).c; world = w; badsession = false }),
        )))
  unfolding transact
  transact-Refused status q n =
      let (text, t, (y, e)) = base_transact-Refused m io r op b (before_try s) w status q in
      (
        text,
        t,
        (
          y,
          last_try-fail m io op b (rpc_connection m io (transact m io depth)) 1 (done tt) r s _ text
              (e ∙ rw n refl) refl,
        ),
      )
