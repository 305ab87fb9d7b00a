-- ===== src/File/Opening.antt =====
-- nfsv4/client.c, `file_open_internal`: what the server's answer makes of the file.
use ssqlite.Prelude.{
  ℕ, suc, ◌^◌, ◌<◌, ◌≤◌, ◌≡◌, refl, Bool, false, List, ◌++◌, none, some, Option, ap, arith, length,
  drop, ltb-false, ltb, if◌then◌else◌,
}
use ssqlite.Buffer.{Buffer}
use ssqlite.Protocol.Ops.{opcode, op_open, op_getfh, share_access_both, share_access_read, fhsize}
use ssqlite.Xdr.Words.{be32}
use ssqlite.Xdr.Decode.{Ahead}
use ssqlite.Xdr.Push.{◌|>◌, push_op, push_open, push_sequence}
use ssqlite.Xdr.Parse.{read_beu32, read_buffer, verify_and_adv, parse_open}
use ssqlite.Rpc.Session.{transact}
use ssqlite.Xdr.At.{
  at_buffer, read_beu32-at, read_buffer-at, verify_and_adv-at, skip_word, skip_bytes,
}
use ssqlite.Xdr.Opened.{
  IsStateId, OpenInfo, HasSizes, stateid_bytes, open_info_bytes, parse_open-at,
}
use ssqlite.Rpc.Request.{allocate_rpc, push_initial_path, finish}
use ssqlite.Rpc.Transact.{Answered}
use ssqlite.Rpc.Recovery.{transact-Answered}
use ssqlite.File.Open.{in_bounds, initial_path, file_open_internal}
use ssqlite.System.{
  File, Machine, Rpc, StateId, Sys, to_forward, to_reverse, ok, M, ◌>>=◌, ◌>>◌, pure, failing, give,
}

-- The request for a path whose directory the request `r` resolves.
abbrev pub open_request : Rpc → List ℕ → Bool → Bool → Rpc
open_request r final writable create =
    r
    |> push_open final (if writable then share_access_both else share_access_read) create
    |> push_op op_getfh

-- What `file_open_internal` does with the request.
abbrev pub opening : {W : Type 0} → Machine W → ℕ → ℕ → File → Rpc → M W File
opening m io depth f r = do
  transact m io depth r op_open to_reverse
  (f', st) ← parse_open m f to_reverse
  give st
  verify_and_adv to_reverse (opcode op_getfh)
  verify_and_adv to_reverse 0
  len ← read_beu32 to_reverse
  if ltb fhsize len then failing "encoding mismatch" else pure tt
  fh ← read_buffer to_reverse len
  pure (record f' { filehandle_len = len; filehandle = fh ++ drop len f'.filehandle })

-- The result of OPEN behind its status, and that of GETFH.
abbrev pub open_result : StateId → OpenInfo → List ℕ → List ℕ → List ℕ
open_result sid i handle rest = stateid_bytes sid (
    open_info_bytes i
      (be32 (opcode op_getfh) ++ (be32 0 ++ (be32 (length handle) ++ (handle ++ rest)))))

-- The file with its state ids and its handle from the answer.
abbrev pub opened : File → StateId → List ℕ → File
opened f sid handle = record f {
  filehandle_len = length handle;
  filehandle = handle ++ drop (length handle) f.filehandle;
  latest_sid = sid;
  open_sid = sid;
}

getfh_small : opcode op_getfh < 2 ^ 32
unfolding opcode
getfh_small = omega arith

module _ {W : Type 0} (m : Machine W) (io depth : ℕ) (f : File) (path : List (List ℕ))
    (writable create : Bool) (s : Sys W) (r : Rpc) (final : List ℕ) where
  initial_path-some :
      push_initial_path path (allocate_rpc s.client to_forward |> push_sequence) ≡ some (r, final)
      → initial_path m io depth path s ≡ (ok (r, final), s)
  unfolding initial_path
  initial_path-some p = ap (λ (o : Option (Rpc × List ℕ)). in_bounds o s) p

  pub file_open_internal-opening :
      push_initial_path path (allocate_rpc s.client to_forward |> push_sequence) ≡ some (r, final)
      → file_open_internal m io depth f path writable create s
        ≡ opening m io depth f (open_request r final writable create) s
  unfolding file_open_internal
  file_open_internal-opening p = rw (initial_path-some p) refl

  -- If the path resolves, the request is written whole and answered, with the status 0 of each
  -- result up to that of OPEN, no delegation is given, GETFH has the status 0 and a handle of at
  -- most 128 bytes, and the value that `parse_open` leaves without a `return` is STATUS_OK, then
  -- `file_open_internal` succeeds, and the file has the state id of the answer as that of the open
  -- and as the latest one, and the handle of the answer; the rest of the file is as before.
  pub file_open_internal-opened :
      (w w1 : W) (sid : StateId) (i : OpenInfo) (handle rest : List ℕ)
      → push_initial_path path (allocate_rpc s.client to_forward |> push_sequence) ≡ some (r, final)
      → Answered m io
          (open_request r final writable create)
          op_open
          to_reverse
          (open_result sid i handle rest)
          s.world
          w
      → m.left_over w ≡ (none, w1)
      → IsStateId sid
      → HasSizes i
      → length handle ≤ 128
      → (y : Buffer) × (file_open_internal m io (suc depth) f path writable create s ≡ (
        ok (opened f sid handle),
        at_buffer to_reverse y (record s {
          client = (finish (open_request r final writable create)).c;
          world = w1;
          badsession = false;
        }),
      ))
        × Ahead y rest
  unfolding file_open_internal
  file_open_internal-opened w w1 sid i handle rest p q e h z short =
      let request = open_request r final writable create in
      let after : Sys W = record s { client = (finish request).c; world = w; badsession = false } in
      let left : Sys W = record after { world = w1 } in
      let (x, sent, a) =
        transact-Answered m io depth request op_open to_reverse s w (open_result sid i handle rest)
          q in
      let (x1, parsed, a1) = parse_open-at m to_reverse after w1 x f sid i _ h z e a in
      let a2 = skip_word x1 (opcode op_getfh) _ a1 in
      let a3 = skip_word _ 0 _ a2 in
      let a4 = skip_word _ (length handle) _ a3 in
      (
        _,
        rw (initial_path-some p) (
            rw sent (
              rw parsed (
                rw (verify_and_adv-at to_reverse x1 left (opcode op_getfh) _ getfh_small a1) (
                  rw (verify_and_adv-at to_reverse _ left 0 _ (omega arith) a2) (
                    rw (read_beu32-at to_reverse _ left (length handle) _ (omega arith) a3) (
                      rw (ltb-false 128 (length handle) short) (
                        rw (read_buffer-at to_reverse _ left handle rest (length handle) refl a4)
                          refl))))))),
        skip_bytes _ handle rest (length handle) refl a4,
      )
