-- ===== src/Rpc/Reply.antt =====
-- nfsv4/rpc.c: the header of a reply, and the scan for the result of one operation. `fuel` bounds
-- the rounds of the scan.
pub mod Header
pub mod Scan
use ssqlite.Prelude.{ℕ, zero, suc, ◌==◌, if◌then◌else◌, true, false}
use ssqlite.Protocol.Ops.{opcode, op_sequence, op_putrootfh, op_putfh, op_lookup, sessionid_size}
use ssqlite.Protocol.Status.{nfs4_ok, err_badsession}
use ssqlite.Xdr.Parse.{read_beu32, advance, verify_and_adv, fail_code}
use ssqlite.System.{Which, M, ◌>>=◌, ◌>>◌, pure, failing, out_of_fuel, client_of, set_badsession}

module _ {W : Type 0} where
  -- The status of the compound; a bad session is reported beside it.
  compound_status : ℕ → M W (Unit {0})
  compound_status nstatus =
      if nstatus == err_badsession
      then (do set_badsession true; fail_code nstatus)
      else fail_code nstatus

  unfoldable pub parse_rpc : Which → M W (Unit {0})
  unfolding compound_status
  parse_rpc b = do
    set_badsession false
    c ← client_of
    verify_and_adv b c.xid
    verify_and_adv b 1
    rpcstatus ← read_beu32 b
    if rpcstatus == nfs4_ok then pure tt else fail_code rpcstatus
    verify_and_adv b 0
    verify_and_adv b 0
    verify_and_adv b 0
    nstatus ← read_beu32 b
    if nstatus == nfs4_ok then pure tt else compound_status nstatus
    verify_and_adv b 0

  -- What stands behind the status of an operation that is passed over.
  unfoldable pub pass_over : ℕ → Which → M W (Unit {0})
  pass_over op b =
      if op == opcode op_sequence
      then (do advance b sessionid_size; read_beu32 b; advance b 16)
      else if op == opcode op_putrootfh
      then pure tt
      else if op == opcode op_putfh
      then pure tt
      else if op == opcode op_lookup
      then pure tt
      else failing "unhandled scan code"

  unfoldable pub scan : ℕ → Which → ℕ → M W (Unit {0})
  scan zero b which = out_of_fuel
  scan (suc fuel) b which =
      let rest = scan fuel b which in
      do
        op ← read_beu32 b
        if op == which then pure tt else (do
          code ← read_beu32 b
          if code == 0 then pure tt else fail_code code
          pass_over op b
          rest)

  unfoldable pub read_until : ℕ → Which → ℕ → M W (Unit {0})
  read_until fuel b which = do read_beu32 b; scan fuel b which
