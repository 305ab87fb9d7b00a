-- ===== src/Rpc/Transact.antt =====
-- nfsv4/rpc.c, `base_transact` and `transact`: what a reply that comes in whole makes of the call.
use ssqlite.Prelude.{
  ℕ, ◌^◌, ◌≤◌, ◌<◌, ◌≡◌, ◌≢◌, refl, ◌∙◌, List, [], ◌++◌, some, arith, length, String, ◌==◌, false,
  if◌then◌else◌,
}
use ssqlite.Buffer.{Buffer}
use ssqlite.Buffer.Growth.{Holds}
use ssqlite.Protocol.Ops.{OpNum, opcode}
use ssqlite.Protocol.Status.{codestring, nfsstatus, err_badsession}
use ssqlite.Protocol.Status.Texts.{nfsstatus_text}
use ssqlite.Xdr.Words.{be32, skip}
use ssqlite.Xdr.Decode.{Ahead}
use ssqlite.Xdr.Parse.{fail_code}
use ssqlite.Xdr.At.{at_buffer, read_beu32-at, skip_word}
use ssqlite.Rpc.Request.{finish, reset}
use ssqlite.Rpc.Reply.Header.{
  words, reply_words, skip_words, skip_words-Ahead, parse_rpc-refused, parse_rpc-accepted,
}
use ssqlite.Rpc.Reply.Scan.{Passed, AllPassed, results, read_until-at}
use ssqlite.Rpc.Session.{base_transact}
use ssqlite.Rpc.Exchange.{Replies, check_reply, replied, exchange}
use ssqlite.System.{pure, Rpc, Machine, Sys, Which, get_buffer, ok, fail}

reset-Holds : (x : Buffer) → x.capacity ≤ 2 ^ 31 → Holds (reset x) []
unfolding reset
reset-Holds x h = record {
  valid = record { ordered = omega arith; within = omega arith; small = h };
  origin = refl;
  size = refl;
  live = refl;
}

opcode-small : (op : OpNum) → opcode op < 2 ^ 32
unfolding opcode
opcode-small op = ground arith

-- A reply to the call `xid`: accepted, the COMPOUND of the status `status` with an empty tag, and
-- its results behind their number: those that are passed over, then that of `op`, with its status
-- and what follows.
abbrev pub reply : ℕ → ℕ → ℕ → List Passed → OpNum → ℕ → List ℕ → List ℕ
reply xid status count ps op code rest =
    words (reply_words xid status)
      (be32 0 ++ (be32 count ++ results ps (be32 (opcode op) ++ (be32 code ++ rest))))

module _ {W : Type 0} (fuel : ℕ) (op : OpNum) (b : Which) (x : Buffer) (s : Sys W) (rest : List ℕ)
    (count : ℕ) (ps : List Passed) where
  -- A reply whose COMPOUND has the status 0.
  check_reply-at :
      (code : ℕ)
      → s.client.xid < 2 ^ 32
      → count < 2 ^ 32
      → code < 2 ^ 32
      → length ps < fuel
      → AllPassed (opcode op) ps
      → Ahead x (reply s.client.xid 0 count ps op code rest)
      → (y : Buffer) × (check_reply fuel b op (at_buffer b x s)
          ≡ (if code == 0 then pure tt else fail_code code)
              (at_buffer b y (record s { badsession = false })))
        × Ahead y rest
  check_reply-at code xid_small count_small code_small enough passed a =
      let heard : Sys W = record s { badsession = false } in
      let a1 = skip_words-Ahead (reply_words s.client.xid 0) x _ a in
      let (y, f, a2) =
        read_until-at b heard (opcode op) fuel count ps (skip_words 8 x) (be32 code ++ rest) enough
          count_small (opcode-small op) passed (skip_word _ 0 _ a1) in
      (
        skip y 4,
        rw (parse_rpc-accepted b x s _ xid_small a)
            (rw f (rw (read_beu32-at b y heard code rest code_small a2) refl)),
        skip_word y code rest a2,
      )

-- The request `r` for `op` is written whole, and an answer comes in whole that carries its xid and
-- in which each result up to that of `op` has the status 0. `rest` follows the status of `op`.
pub record Answered {W : Type 0} (m : Machine W) (fuel : ℕ) (r : Rpc) (op : OpNum) (b : Which)
    (rest : List ℕ) (w w1 : W) : Type 0 where
  pub count : ℕ
  pub before : List Passed
  pub replies : Replies m fuel r (reply (finish r).c.xid 0 count before op 0 rest) w w1
  pub capacity_small : (get_buffer b (finish r).c).capacity ≤ 2 ^ 31
  pub xid_small : (finish r).c.xid < 2 ^ 32
  pub count_small : count < 2 ^ 32
  pub few : length before < fuel
  pub all_passed : AllPassed (opcode op) before

-- As above, for an answer whose COMPOUND has the status `status`, not 0.
pub record Refused {W : Type 0} (m : Machine W) (fuel : ℕ) (r : Rpc) (b : Which) (status : ℕ)
    (w w1 : W) : Type 0 where
  pub rest : List ℕ
  pub replies : Replies m fuel r (words (reply_words (finish r).c.xid status) rest) w w1
  pub capacity_small : (get_buffer b (finish r).c).capacity ≤ 2 ^ 31
  pub xid_small : (finish r).c.xid < 2 ^ 32
  pub status_small : status < 2 ^ 32
  pub nonzero : status ≢ 0

module _ {W : Type 0} (m : Machine W) (fuel : ℕ) (r : Rpc) (op : OpNum) (b : Which) (s : Sys W)
    (w : W) where
  -- The request goes out and the bytes `body` come in as its reply.
  exchange-then :
      (body : List ℕ)
      → Replies m fuel r body s.world w
      → (get_buffer b (finish r).c).capacity ≤ 2 ^ 31
      → (x : Buffer) × (base_transact m fuel r op b s
          ≡ check_reply fuel b op (at_buffer b x (replied m fuel r op b s body w)))
        × Ahead x body
  exchange-then body q h = exchange m fuel r op b s body w q (reset-Holds _ h)

  pub base_transact-Answered :
      (rest : List ℕ)
      → Answered m fuel r op b rest s.world w
      → (y : Buffer) × (base_transact m fuel r op b s ≡ (
        ok tt,
        at_buffer b y (record s { client = (finish r).c; world = w; badsession = false }),
      ))
        × Ahead y rest
  base_transact-Answered rest q =
      let body = reply (finish r).c.xid 0 q.count q.before op 0 rest in
      let (x, e, a) = exchange-then body q.replies q.capacity_small in
      let (y, f, a1) =
        check_reply-at fuel op b x (replied m fuel r op b s body w) rest q.count q.before 0
          q.xid_small q.count_small (omega arith) q.few q.all_passed a in
      (y, e ∙ f, a1)

  pub base_transact-Refused :
      (status : ℕ)
      → Refused m fuel r b status s.world w
      → (text : String) × (codestring nfsstatus status ≡ some text)
        × ((y : Buffer) × (base_transact m fuel r op b s ≡ (
          fail text,
          at_buffer b y (record s {
            client = (finish r).c;
            world = w;
            badsession = status == err_badsession;
          }),
        )))
  base_transact-Refused status q =
      let body = words (reply_words (finish r).c.xid status) q.rest in
      let (text, t) = nfsstatus_text status in
      let (x, e, a) = exchange-then body q.replies q.capacity_small in
      (
        text,
        t,
        (
          skip_words 7 x,
          e
              ∙ rw
                  (parse_rpc-refused b x (replied m fuel r op b s body w) q.rest q.xid_small status
                    text q.status_small q.nonzero t a)
                  refl,
        ),
      )
