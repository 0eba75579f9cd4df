-- ===== src/Dpi.antt =====
-- `fetch_discovery_msg` of src/vipo/dpi_client.c. The socket is a parameter: how `select` ends, what
-- arrives, and whether the acknowledgement can be sent.
pub mod Connect
pub mod Fetch
pub mod Pieces
pub mod Stream
pub mod Concluded
pub mod Message
pub mod End
use vantiq_sdk_micro.Base.{
  ℕ, zero, suc, ◌+◌, ◌-◌, ◌*◌, ◌%◌, Bool, true, false, ◌&&◌, Option, none, some, List, [], ◌∷◌,
  ◌++◌, Bytes, codes, length, take, drop, set, leb, ltb, ◌==◌, eq_bytes, if◌then◌else◌, size_mod,
  add_size,
}
use vantiq_sdk_micro.Memory.{
  M, World, pure, aborted, fault, ◌>>=◌, ◌>>◌, in_bounds, cells_of, realloc_unchecked,
}
use vantiq_sdk_micro.Buf.{Vmebuf, ensure_size, tostr, dealloc}

-- What arrives: a piece of bytes and what follows it, until the peer closes or `recv` fails.
pub data Inbox : Type 0 where
  closed failed : Inbox
  piece : Bytes → Inbox → Inbox

pub data Activity : Type 0 where
  timed_out select_failed ready : Activity

pub record Socket : Type 0 where
  pub activity : Activity
  pub inbox : Inbox
  pub takes_ack : Bool

-- `recv` of at most `avail` bytes: `none` is an error, and no bytes say that the peer has closed. A
-- piece that is too long stays with its rest.
abbrev pub recv : (avail : ℕ) → Inbox → Option Bytes × Inbox
recv avail closed = (some [], closed)
recv avail failed = (none, failed)
recv avail (piece p next) =
    if leb (length p) avail
    then (some p, next)
    else (some (take avail p), piece (drop avail p) next)

abbrev inbox_size : Inbox → ℕ
inbox_size closed = 0
inbox_size failed = 0
inbox_size (piece p next) = length p + inbox_size next

-- INITBUFSIZE, PROT_EOT
abbrev pub init_buf_size : ℕ
init_buf_size = 512

abbrev pub prot_eot : Bytes
prot_eot = codes "EOT"

-- a block with some of its cells written, from `offset` on
abbrev pub write_at : (offset : ℕ) → Bytes → Bytes → Bytes
write_at offset bytes cells = take offset cells ++ (bytes ++ drop (offset + length bytes) cells)

-- What `recv` has delivered is written behind what is in use.
pub receive_into : Vmebuf → Bytes → M Vmebuf
receive_into b bytes = do
  in_bounds (leb (b.len + length bytes) (length (cells_of b.cells)))
  pure (record b { cells = some (write_at b.len bytes (cells_of b.cells)) })

-- Twice the room, with the bytes counted.
pub double : Vmebuf → ℕ → M Vmebuf
double b n = do
  cells ← realloc_unchecked b.cells (b.limit * 2 % size_mod)
  pure (record { len = add_size b.len n; limit = b.limit * 2 % size_mod; cells = some cells })

-- What the loop does behind a `recv`: it goes on as `again` while the room is filled. The result is
-- what the last `recv` delivered.
pub after_recv :
    (avail : ℕ)
    → Vmebuf
    → Option Bytes
    → (again : Vmebuf → M (Option Bytes × Vmebuf)) → M (Option Bytes × Vmebuf)
unfolding receive_into double
after_recv avail b none again = pure (none, b)
after_recv avail b (some bytes) again = do
  b' ← receive_into b bytes
  (if length bytes == avail
      then (do b'' ← double b' (length bytes); again b'')
      else pure (some bytes, b'))

-- The loop. Every round but the last takes a byte, so the number of bytes that arrive is fuel
-- enough.
unfoldable pub receive_all : ℕ → Inbox → Vmebuf → M (Option Bytes × Vmebuf)
receive_all zero inbox b = λ w. fault
receive_all (suc fuel) inbox b =
    let avail = b.limit - b.len in
    after_recv avail b (recv avail inbox).0 (receive_all fuel (recv avail inbox).1)

-- The message is terminated and acknowledged, and handed over in a block of its own.
pub acknowledge : Bool → Vmebuf → M (Option Bytes)
acknowledge takes_ack b = do
  in_bounds (ltb b.len (length (cells_of b.cells)))
  let b = record b { cells = some (set (cells_of b.cells) b.len 0) }
  (if takes_ack then pure tt else λ w. aborted)
  text ← tostr b
  b ← dealloc b
  pure (some text)

-- `memcmp` with PROT_EOT and its terminator: the fourth byte is one that was not received.
abbrev pub is_eot : Vmebuf → Bytes → Bool
is_eot b bytes =
    length bytes == length prot_eot && eq_bytes (take 4 (cells_of b.cells)) (prot_eot ++ 0 ∷ [])

-- What is done behind the loop. The buffer is kept where NULL is returned, and a failure of `recv`
-- ends the program.
pub conclude : Bool → Option Bytes → Vmebuf → M (Option Bytes)
unfolding acknowledge
conclude takes_ack none b = λ w. aborted
conclude takes_ack (some bytes) b =
    if length bytes == 0 && b.len == 0
    then pure none
    else if is_eot b bytes
    then pure none
    else acknowledge takes_ack (record b { len = add_size b.len (length bytes) })

-- Behind `select`: NULL unless something has arrived.
on_activity : Activity → Socket → Vmebuf → M (Option Bytes)
unfolding receive_all conclude
on_activity timed_out s b = pure none
on_activity select_failed s b = pure none
on_activity ready s b = do
  (last, b) ← receive_all (suc (inbox_size s.inbox)) s.inbox b
  conclude s.takes_ack last b

pub fetch_discovery_msg : Socket → M (Option Bytes)
unfolding on_activity
fetch_discovery_msg s = do b ← ensure_size none init_buf_size; on_activity s.activity s b
