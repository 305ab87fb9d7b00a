-- ===== src/Rpc/Reply/Scan.antt =====
-- nfsv4/rpc.c, `read_until`: the results of a COMPOUND up to the one that is looked for.
use ssqlite.Prelude.{
  ℕ, zero, suc, ◌^◌, ◌<◌, ◌≡◌, refl, ◌∙◌, List, [], ◌∷◌, ◌++◌, some, arith, length, String, ◌==◌,
  false, ==_refl,
}
use ssqlite.Buffer.{Buffer}
use ssqlite.Protocol.Ops.{opcode, op_sequence, op_putrootfh, op_putfh, op_lookup}
use ssqlite.Protocol.Status.{codestring, nfsstatus}
use ssqlite.Xdr.Words.{be32, skip}
use ssqlite.Xdr.Decode.{Ahead}
use ssqlite.Xdr.At.{at_buffer, read_beu32-at, advance-at, skip_word, skip_bytes}
use ssqlite.Rpc.Reply.{scan, read_until, pass_over}
use ssqlite.Rpc.Reply.Header.{fail_code-text}
use ssqlite.System.{Sys, Which, ok, fail}

-- The results that the scan passes over. SEQUENCE has the session id, a sequence and four more
-- words.
pub data Passed : Type 0 where
  sequence : (session : List ℕ) → (n : ℕ) → (slots : List ℕ) → Passed
  putrootfh putfh lookup : Passed

abbrev pub passed_op : Passed → ℕ
passed_op (sequence session n slots) = opcode op_sequence
passed_op putrootfh = opcode op_putrootfh
passed_op putfh = opcode op_putfh
passed_op lookup = opcode op_lookup

abbrev pub passed_body : Passed → List ℕ → List ℕ
passed_body (sequence session n slots) rest = session ++ (be32 n ++ (slots ++ rest))
passed_body putrootfh rest = rest
passed_body putfh rest = rest
passed_body lookup rest = rest

-- The fields have their sizes.
abbrev pub IsSized : Passed → Type 0
IsSized (sequence session n slots) = (length session ≡ 16) × (n < 2 ^ 32) × (length slots ≡ 16)
IsSized putrootfh = Unit
IsSized putfh = Unit
IsSized lookup = Unit

-- Results with the status 0 before `rest`.
abbrev pub results : List Passed → List ℕ → List ℕ
results [] rest = rest
results (p ∷ ps) rest = be32 (passed_op p) ++ (be32 0 ++ passed_body p (results ps rest))

passed_op-small : (p : Passed) → passed_op p < 2 ^ 32
unfolding opcode
passed_op-small (sequence session n slots) = omega arith
passed_op-small putrootfh = omega arith
passed_op-small putfh = omega arith
passed_op-small lookup = omega arith

module _ {W : Type 0} (b : Which) (s : Sys W) where
  pass_over-at :
      (p : Passed) (x : Buffer) (rest : List ℕ)
      → IsSized p
      → Ahead x (passed_body p rest)
      → (y : Buffer) × (pass_over (passed_op p) b (at_buffer b x s) ≡ (ok tt, at_buffer b y s))
        × Ahead y rest
  unfolding pass_over opcode
  pass_over-at (sequence session n slots) x rest (h, k, l) a =
      let a1 = skip_bytes x session _ 16 h a in
      let a2 = skip_word _ n _ a1 in
      (
        skip (skip (skip x 16) 4) 16,
        rw (advance-at b x s 16) (rw (read_beu32-at b _ s n _ k a1) (advance-at b _ s 16)),
        skip_bytes _ slots rest 16 l a2,
      )
  pass_over-at putrootfh x rest h a = (x, refl, a)
  pass_over-at putfh x rest h a = (x, refl, a)
  pass_over-at lookup x rest h a = (x, refl, a)

  -- A round that passes over one result.
  scan-passed :
      (fuel which : ℕ) (p : Passed) (x : Buffer) (rest : List ℕ)
      → IsSized p
      → (passed_op p == which) ≡ false
      → Ahead x (be32 (passed_op p) ++ (be32 0 ++ passed_body p rest))
      → (y : Buffer) × (scan (suc fuel) b which (at_buffer b x s)
          ≡ scan fuel b which (at_buffer b y s))
        × Ahead y rest
  unfolding scan
  scan-passed fuel which p x rest h e a =
      let a1 = skip_word x (passed_op p) _ a in
      let a2 = skip_word _ 0 _ a1 in
      let over = pass_over-at p _ rest h a2 in
      (
        over.0,
        rw (read_beu32-at b x s (passed_op p) _ (passed_op-small p) a, e)
            (rw (read_beu32-at b _ s 0 _ (omega arith) a1) (rw over.1 refl)),
        over.2,
      )

-- The results all have their sizes, and none is that of `which`.
abbrev pub AllPassed : ℕ → List Passed → Type 0
AllPassed which [] = Unit
AllPassed which (p ∷ ps) = IsSized p × ((passed_op p == which) ≡ false) × AllPassed which ps

module _ {W : Type 0} (b : Which) (s : Sys W) (which : ℕ) where
  -- The scan as far as the results that it passes over, with fuel for the next round left.
  scan-results :
      (fuel : ℕ) (ps : List Passed) (x : Buffer) (rest : List ℕ)
      → length ps < fuel
      → AllPassed which ps
      → Ahead x (results ps rest)
      → (k : ℕ) × ((y : Buffer) × ((scan fuel b which (at_buffer b x s)
              ≡ scan (suc k) b which (at_buffer b y s))
            × Ahead y rest))
  scan-results zero ps x rest l h a = absurd (omega arith)
  scan-results (suc fuel) [] x rest l h a = (fuel, (x, (refl, a)))
  scan-results (suc fuel) (p ∷ ps) x rest l (h, e, k) a =
      let (y, f, a1) = scan-passed b s fuel which p x _ h e a in
      let (n, (z, (g, a2))) = scan-results fuel ps y rest (omega arith) k a1 in
      (n, (z, (f ∙ g, a2)))

  pub scan-at :
      (fuel : ℕ) (ps : List Passed) (x : Buffer) (rest : List ℕ)
      → length ps < fuel
      → which < 2 ^ 32
      → AllPassed which ps
      → Ahead x (results ps (be32 which ++ rest))
      → (y : Buffer) × (scan fuel b which (at_buffer b x s) ≡ (ok tt, at_buffer b y s))
        × Ahead y rest
  unfolding scan
  scan-at fuel ps x rest l small h a =
      let (k, (y, (f, a1))) = scan-results fuel ps x _ l h a in
      (
        skip y 4,
        f ∙ rw (read_beu32-at b y s which rest small a1, ==_refl) refl,
        skip_word y which rest a1,
      )

  -- A result of another operation that has the status `code`, not 0, ends the scan with its text.
  pub scan-refused :
      (fuel : ℕ) (ps : List Passed) (x : Buffer) (rest : List ℕ) (op code : ℕ) (text : String)
      → length ps < fuel
      → op < 2 ^ 32
      → code < 2 ^ 32
      → (op == which) ≡ false
      → (code == 0) ≡ false
      → codestring nfsstatus code ≡ some text
      → AllPassed which ps
      → Ahead x (results ps (be32 op ++ (be32 code ++ rest)))
      → (y : Buffer) × (scan fuel b which (at_buffer b x s) ≡ (fail text, at_buffer b y s))
        × Ahead y rest
  unfolding scan
  scan-refused fuel ps x rest op code text l small less e n t h a =
      let (k, (y, (f, a1))) = scan-results fuel ps x _ l h a in
      let a2 = skip_word y op _ a1 in
      (
        skip (skip y 4) 4,
        f
            ∙ rw (read_beu32-at b y s op _ small a1, e)
                (rw (read_beu32-at b _ s code rest less a2, n)
                  (rw (fail_code-text code text _ t) refl)),
        skip_word _ code rest a2,
      )

  -- If the results of a COMPOUND, behind their number, begin with SEQUENCE, PUTROOTFH, PUTFH and
  -- LOOKUP results of the status 0 and then that of the operation `which`, and the fuel is above
  -- the number of results before it, then `read_until` succeeds and leaves ahead what follows the
  -- operation's code.
  pub read_until-at :
      (fuel : ℕ) (count : ℕ) (ps : List Passed) (x : Buffer) (rest : List ℕ)
      → length ps < fuel
      → count < 2 ^ 32
      → which < 2 ^ 32
      → AllPassed which ps
      → Ahead x (be32 count ++ results ps (be32 which ++ rest))
      → (y : Buffer) × (read_until fuel b which (at_buffer b x s) ≡ (ok tt, at_buffer b y s))
        × Ahead y rest
  unfolding read_until
  read_until-at fuel count ps x rest l small less h a =
      let (y, f, a1) = scan-at fuel ps (skip x 4) rest l less h (skip_word x count _ a) in
      (y, rw (read_beu32-at b x s count _ small a) f, a1)

  pub read_until-refused :
      (fuel : ℕ) (count : ℕ) (ps : List Passed) (x : Buffer) (rest : List ℕ) (op code : ℕ)
      (text : String)
      → length ps < fuel
      → count < 2 ^ 32
      → op < 2 ^ 32
      → code < 2 ^ 32
      → (op == which) ≡ false
      → (code == 0) ≡ false
      → codestring nfsstatus code ≡ some text
      → AllPassed which ps
      → Ahead x (be32 count ++ results ps (be32 op ++ (be32 code ++ rest)))
      → (y : Buffer) × (read_until fuel b which (at_buffer b x s) ≡ (fail text, at_buffer b y s))
        × Ahead y rest
  unfolding read_until
  read_until-refused fuel count ps x rest op code text l small h1 h2 e n t h a =
      let (y, f, a1) =
        scan-refused fuel ps (skip x 4) rest op code text l h1 h2 e n t h (skip_word x count _ a) in
      (y, rw (read_beu32-at b x s count _ small a) f, a1)
