-- ===== src/Rpc/Reply/Header.antt =====
-- nfsv4/rpc.c, `parse_rpc`: the header of a reply, word by word.
use ssqlite.Prelude.{
  ℕ, zero, suc, ◌^◌, ◌<◌, ◌≡◌, ◌≢◌, refl, ◌∙◌, List, [], ◌∷◌, ◌++◌, some, arith, length, String,
  ◌==◌, true, false, Bool-cases, inl, inr, if◌then◌else◌,
}
use ssqlite.Buffer.{Buffer}
use ssqlite.Protocol.Status.{codestring, nfsstatus, nfs4_ok, err_badsession}
use ssqlite.Xdr.Words.{be32, skip}
use ssqlite.Xdr.Decode.{Ahead}
use ssqlite.Xdr.Parse.{verify_and_adv, fail_code}
use ssqlite.Xdr.At.{at_buffer, read_beu32-at, verify_and_adv-at, skip_word}
use ssqlite.Rpc.Reply.{parse_rpc, compound_status}
use ssqlite.System.{M, pure, ◌>>◌, Client, Sys, Which, to_forward, to_reverse, set_buffer, ok, fail}

-- Words in their XDR form, one behind the other, before `rest`.
abbrev pub words : List ℕ → List ℕ → List ℕ
words [] rest = rest
words (w ∷ ws) rest = be32 w ++ words ws rest

-- An accepted reply to the call `xid`: the mark of a reply, that it was accepted, a null verifier,
-- the state of the call, and the status of the COMPOUND.
abbrev pub reply_words : ℕ → ℕ → List ℕ
reply_words xid status = xid ∷ 1 ∷ 0 ∷ 0 ∷ 0 ∷ 0 ∷ status ∷ []

-- `b` moved over `n` words.
abbrev pub skip_words : ℕ → Buffer → Buffer
skip_words zero x = x
skip_words (suc n) x = skip_words n (skip x 4)

xid-set : (b : Which) (x : Buffer) (c : Client) → (set_buffer b x c).xid ≡ c.xid
xid-set to_forward x c = refl
xid-set to_reverse x c = refl

-- Moving over words keeps what stands behind them ahead.
pub skip_words-Ahead :
    (ws : List ℕ) (x : Buffer) (rest : List ℕ)
    → Ahead x (words ws rest)
    → Ahead (skip_words (length ws) x) rest
skip_words-Ahead [] x rest a = a
skip_words-Ahead (w ∷ ws) x rest a = skip_words-Ahead ws (skip x 4) rest (skip_word x w _ a)

pub fail_code-text :
    {W A : Type 0} (code : ℕ) (text : String) (s : Sys W)
    → codestring nfsstatus code ≡ some text
    → fail_code {W = W} {A = A} code s ≡ (fail text, s)
unfolding fail_code
fail_code-text code text s e = rw (e, fail_code) refl

-- The rest of `parse_rpc` once the status of the COMPOUND is read.
abbrev after_status : {W : Type 0} → Which → ℕ → M W (Unit {0})
after_status b nstatus = do
  if nstatus == nfs4_ok then pure tt else compound_status nstatus
  verify_and_adv b 0

module _ {W : Type 0} (b : Which) (x : Buffer) (s : Sys W) (rest : List ℕ)
    (small : s.client.xid < 2 ^ 32) (status : ℕ) where
  parse_rpc-after_status :
      status < 2 ^ 32
      → Ahead x (words (reply_words s.client.xid status) rest)
      → parse_rpc b (at_buffer b x s)
        ≡ after_status b status (at_buffer b (skip_words 7 x) (record s { badsession = false }))
  unfolding parse_rpc
  parse_rpc-after_status h a =
      let heard : Sys W = record s { badsession = false } in
      let a1 = skip_word x s.client.xid _ a in
      let a2 = skip_word _ 1 _ a1 in
      let a3 = skip_word _ 0 _ a2 in
      let a4 = skip_word _ 0 _ a3 in
      let a5 = skip_word _ 0 _ a4 in
      let a6 = skip_word _ 0 _ a5 in
      rw (xid-set, verify_and_adv-at b x heard s.client.xid _ small a)
        (rw (verify_and_adv-at b _ heard 1 _ (omega arith) a1) (
          rw (read_beu32-at b _ heard 0 _ (omega arith) a2) (
            rw (verify_and_adv-at b _ heard 0 _ (omega arith) a3) (
              rw (verify_and_adv-at b _ heard 0 _ (omega arith) a4) (
                rw (verify_and_adv-at b _ heard 0 _ (omega arith) a5)
                  (rw (read_beu32-at b _ heard status _ h a6) refl))))))

  compound_status-text :
      (text : String) (y : Buffer)
      → codestring nfsstatus status ≡ some text
      → compound_status status (at_buffer b y (record s { badsession = false }))
        ≡ (fail text, at_buffer b y (record s { badsession = status == err_badsession }))
  unfolding compound_status
  compound_status-text text y e = elim (Bool-cases (status == err_badsession)) [
    | inl k ↦ rw k (fail_code-text status text (at_buffer b y (record s { badsession = true })) e)
    | inr k ↦ rw k (fail_code-text status text (at_buffer b y (record s { badsession = false })) e)
  ]

  pub parse_rpc-refused :
      (text : String)
      → status < 2 ^ 32
      → status ≢ 0
      → codestring nfsstatus status ≡ some text
      → Ahead x (words (reply_words s.client.xid status) rest)
      → parse_rpc b (at_buffer b x s) ≡ (
        fail text,
        at_buffer b (skip_words 7 x) (record s { badsession = status == err_badsession }),
      )
  parse_rpc-refused text h k e a =
      let failed : (status == nfs4_ok) ≡ false = ground arith in
      parse_rpc-after_status h a ∙ rw (failed, compound_status-text text _ e) refl

pub parse_rpc-accepted :
    {W : Type 0} (b : Which) (x : Buffer) (s : Sys W) (rest : List ℕ)
    → s.client.xid < 2 ^ 32
    → Ahead x (words (reply_words s.client.xid 0) (be32 0 ++ rest))
    → parse_rpc b (at_buffer b x s)
      ≡ (ok tt, at_buffer b (skip_words 8 x) (record s { badsession = false }))
parse_rpc-accepted b x s rest small a =
    parse_rpc-after_status b x s (be32 0 ++ rest) small 0 (omega arith) a
    ∙ rw
        (verify_and_adv-at b _ (record s { badsession = false }) 0 rest (omega arith)
          (skip_words-Ahead (reply_words s.client.xid 0) x _ a))
        refl
