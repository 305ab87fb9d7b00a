-- ===== src/Tests/Data.antt =====
-- Values that the tests share.
use ssqlite.Prelude.{
  ℕ, List, [], ◌∷◌, Option, none, some, false, replicate, length, ◌<◌, refl, append-nil, arith,
}
use ssqlite.Rpc.Exchange.{Comes}
use ssqlite.Buffer.{Heap, allocate_buffer}
use ssqlite.System.{Machine, Client, StateId, File, Sys}
use ssqlite.Vfs.Base.{SqlFile}

-- A heap whose blocks are full of the byte 7.
abbrev pub heap7 : Heap
heap7 n j = 7

abbrev pub client7 : Client
client7 = record {
  fd = 3;
  xid = 9;
  address = [];
  clientid = replicate 8 1;
  session = replicate 16 5;
  sequence = 4;
  server_sequence = 1;
  lock_sequence = 1;
  instance_verifier = replicate 8 2;
  forward = allocate_buffer heap7 16384;
  reverse = allocate_buffer heap7 16384;
  maxreq = 1024;
  maxresp = 1024;
  maxops = 16;
  maxreqs = 32;
  hostname = allocate_buffer heap7 8;
  root_filehandle_len = 128;
  root_filehandle = replicate 128 3;
}

abbrev stateid7 : StateId
stateid7 = record { seqid = 1; opaque = replicate 12 0 }

abbrev pub file7 : File
file7 = record {
  path = (b'a' ∷ []) ∷ [];
  filehandle_len = 4;
  filehandle = replicate 128 0;
  latest_sid = stateid7;
  open_sid = stateid7;
}

abbrev pub sql_file7 : SqlFile
sql_file7 = record { f = file7; file_lock = 0; powersafe = false; readonly = false }

abbrev pub sys7 : {W : Type 0} → W → Sys W
sys7 w = record { client = client7; world = w; memory = λ j. 0; badsession = false }

-- A machine that answers nothing but its reads.
abbrev pub machine7 : {W : Type 0} → (ℕ → ℕ → W → Option (List ℕ) × W) → Machine W
machine7 read = record {
  heap = heap7;
  getenv = λ name. none;
  resolve = λ name w. (some [], w);
  dial = λ address w. ((3, 0), w);
  write = λ fd xs w. (none, w);
  read = read;
  rand = λ w. (4, w);
  clock = λ w. (5, w);
  left_over = λ w. (none, w);
}

-- Each `read` takes the next piece.
abbrev pub next_piece : ℕ → ℕ → List (List ℕ) → Option (List ℕ) × List (List ℕ)
next_piece fd n [] = (some [], [])
next_piece fd n (xs ∷ pieces) = (some xs, pieces)

-- A machine with these reads and another `write`.
abbrev pub taking :
    (ℕ → List ℕ → List (List ℕ) → Option ℕ × List (List ℕ)) → Machine (List (List ℕ))
taking write = record (machine7 next_piece) { write = write }

-- A piece comes in whole.
pub piece-Comes :
    {write : ℕ → List ℕ → List (List ℕ) → Option ℕ × List (List ℕ)} {fd : ℕ} {w : List (List ℕ)}
    (xs : List ℕ)
    → 0 < length xs
    → Comes (taking write) fd 9 xs (xs ∷ w) w
piece-Comes {w = w} xs h = record {
  pieces = xs ∷ [];
  delivered = (w, refl, refl);
  just_enough = (h, omega arith);
  whole = append-nil xs;
  few = omega arith;
}
