-- ===== src/Rpc/Exchange.antt =====
-- nfsv4/rpc.c, `base_transact`: a request goes out and its reply comes in.
use ssqlite.Prelude.{
  ℕ, ◌+◌, ◌%◌, ◌^◌, ◌≤◌, ◌<◌, ◌≡◌, refl, sym, ap, ◌∙◌, List, [], some, arith, length, ◌==◌,
  if◌then◌else◌, ==_refl,
}
use ssqlite.Prelude.Memory.{slice, memcpy, slice-memcpy_self}
use ssqlite.Buffer.{Buffer, buffer_extend, buffer_length, bytes}
use ssqlite.Buffer.Growth.{Holds, limit, buffer_extend-Holds}
use ssqlite.Xdr.Words.{big_endian}
use ssqlite.Xdr.Encode.{length-be32}
use ssqlite.Xdr.Decode.{Ahead, big_endian-be32}
use ssqlite.Xdr.At.{at_buffer}
use ssqlite.Rpc.Request.{finish, reset}
use ssqlite.Rpc.Finish.{record_mark}
use ssqlite.Rpc.Socket.{store, read_fully, read_frame, read_response, rpc_send}
use ssqlite.Rpc.Stream.{Delivers, JustEnough, all_of, read_fully-all_of}
use ssqlite.Protocol.Ops.{OpNum, opcode}
use ssqlite.Xdr.Parse.{read_beu32, fail_code}
use ssqlite.Rpc.Reply.{parse_rpc, read_until}
use ssqlite.Rpc.Session.{base_transact}
use ssqlite.System.{
  M, pure, ◌>>=◌, ◌>>◌, Client, Rpc, Machine, Sys, Which, to_forward, to_reverse, get_buffer,
  set_buffer, rpc_buffer, ok,
}

-- The calls of `read`, fewer than `fuel`, by which exactly `xs` comes in.
pub record Comes {W : Type 0} (m : Machine W) (fd fuel : ℕ) (xs : List ℕ) (w w' : W) : Type 0 where
  pub pieces : List (List ℕ)
  pub delivered : Delivers m fd (length xs) pieces w w'
  pub just_enough : JustEnough m fd (length xs) 0 pieces
  pub whole : all_of m fd (length xs) pieces ≡ xs
  pub few : length pieces < fuel

fd-set : (b : Which) (x : Buffer) (c : Client) → (set_buffer b x c).fd ≡ c.fd
fd-set to_forward x c = refl
fd-set to_reverse x c = refl

-- What `base_transact` does once the reply has come in.
abbrev pub check_reply : {W : Type 0} → ℕ → Which → OpNum → M W (Unit {0})
check_reply fuel b op = do
  parse_rpc b
  read_until fuel b (opcode op)
  code ← read_beu32 b
  if code == 0 then pure tt else fail_code code

module _ {W : Type 0} (m : Machine W) (fuel : ℕ) where
  comes :
      (fd : ℕ) (xs : List ℕ) (s : Sys W) (w : W)
      → Comes m fd fuel xs s.world w
      → read_fully m fuel fd (length xs) [] s ≡ (ok (some xs), record s { world = w })
  comes fd xs s w c =
      read_fully-all_of m fd (length xs) fuel c.pieces s w c.delivered c.just_enough c.few
      ∙ ap (λ ys. (ok (some ys), record s { world = w })) c.whole

  -- The reply that the buffer holds once it has been stored.
  stored : Buffer → List ℕ → Buffer
  stored x body = record (store m body (buffer_extend x (length body))) { end = length body }

  stored-Ahead :
      (x : Buffer) (body : List ℕ) → Holds x [] → length body ≤ limit → Ahead (stored x body) body
  unfolding stored store
  stored-Ahead x body h k =
      let (held, room) = buffer_extend-Holds x [] (length body) h (omega arith) in
      record {
        valid = record {
          ordered = omega (arith, held.origin);
          within = omega (arith, room, held.size);
          small = held.valid.small;
        };
        live =
            ap
              (slice
                (memcpy (buffer_extend x (length body)).contents
                  (buffer_extend x (length body)).start body)
                (buffer_extend x (length body)).start)
              (omega (arith, held.origin))
            ∙ slice-memcpy_self (buffer_extend x (length body)).contents
                (buffer_extend x (length body)).start body;
      }

  read_frame-at :
      (b : Which) (x : Buffer) (s : Sys W) (body : List ℕ) (w : W)
      → Comes m s.client.fd fuel body s.world w
      → read_frame m fuel b (length body) (at_buffer b x s)
        ≡ (ok tt, at_buffer b (stored x body) (record s { world = w }))
  unfolding read_frame stored
  read_frame-at to_forward x s body w c =
      rw (comes s.client.fd body (at_buffer to_forward (buffer_extend x (length body)) s) w c)
        (rw ==_refl refl)
  read_frame-at to_reverse x s body w c =
      rw (comes s.client.fd body (at_buffer to_reverse (buffer_extend x (length body)) s) w c)
        (rw ==_refl refl)

  head_read :
      (fd n : ℕ) (s : Sys W) (w : W)
      → Comes m fd fuel (record_mark n) s.world w
      → read_fully m fuel fd 4 [] s ≡ (ok (some (record_mark n)), record s { world = w })
  head_read fd n s w c =
      ap (λ (k : ℕ). read_fully m fuel fd k [] s) (sym (length-be32 (2 ^ 31 + n)))
      ∙ comes fd (record_mark n) s w c

  frame_length : (n : ℕ) → n ≤ limit → big_endian 0 (record_mark n) % 2 ^ 31 ≡ n
  frame_length n h = omega (arith, big_endian-be32 (2 ^ 31 + n) (omega arith))

  read_response-at :
      (b : Which) (x : Buffer) (s : Sys W) (body : List ℕ) (w1 w2 : W)
      → length body ≤ limit
      → Comes m s.client.fd fuel (record_mark (length body)) s.world w1
      → Comes m s.client.fd fuel body w1 w2
      → read_response m fuel b (at_buffer b x s)
        ≡ (ok tt, at_buffer b (stored x body) (record s { world = w2 }))
  unfolding read_response
  read_response-at to_forward x s body w1 w2 k c d =
      rw (head_read s.client.fd (length body) (at_buffer to_forward x s) w1 c) (
        rw (length-be32 (2 ^ 31 + length body), frame_length (length body) k)
          (read_frame-at to_forward x (record s { world = w1 }) body w2 d))
  read_response-at to_reverse x s body w1 w2 k c d =
      rw (head_read s.client.fd (length body) (at_buffer to_reverse x s) w1 c) (
        rw (length-be32 (2 ^ 31 + length body), frame_length (length body) k)
          (read_frame-at to_reverse x (record s { world = w1 }) body w2 d))

-- The request `r` is written whole, and `body` comes in whole as the reply. `w1` is the world
-- after that.
pub record Replies {W : Type 0} (m : Machine W) (fuel : ℕ) (r : Rpc) (body : List ℕ) (w w1 : W)
    : Type 0 where
  pub after_write : W
  pub after_head : W
  pub written :
      m.write (finish r).c.fd (bytes (rpc_buffer (finish r))) w
      ≡ (some (buffer_length (rpc_buffer (finish r))), after_write)
  pub head_comes : Comes m (finish r).c.fd fuel (record_mark (length body)) after_write after_head
  pub body_comes : Comes m (finish r).c.fd fuel body after_head w1
  pub fits : length body ≤ limit

module _ {W : Type 0} (m : Machine W) (fuel : ℕ) (r : Rpc) (op : OpNum) (b : Which) (s : Sys W)
    (body : List ℕ) (w : W) where
  -- The system once the reply has come in.
  abbrev pub replied : Sys W
  replied = record s { client = (finish r).c; world = w }

  pub exchange :
      Replies m fuel r body s.world w
      → Holds (reset (get_buffer b (finish r).c)) []
      → (x : Buffer) × (base_transact m fuel r op b s
          ≡ check_reply fuel b op (at_buffer b x replied))
        × Ahead x body
  unfolding base_transact rpc_send
  exchange q h =
      let x = reset (get_buffer b (finish r).c) in
      let sent : Sys W = record s { client = (finish r).c; world = q.after_write } in
      (
        stored m fuel x body,
        rw q.written (
            rw ==_refl (
              rw
                (read_response-at m fuel b x sent body q.after_head w q.fits q.head_comes
                  q.body_comes)
                refl)),
        stored-Ahead m fuel x body h q.fits,
      )
