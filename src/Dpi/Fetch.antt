-- ===== src/Dpi/Fetch.antt =====
-- What `fetch_discovery_msg` of src/vipo/dpi_client.c makes of a message that arrives in one piece.
use vantiq_sdk_micro.Base.{
  ℕ, zero, suc, ◌+◌, ◌-◌, ◌≤◌, ◌<◌, ◌≡◌, ◌≢◌, refl, ap, ◌∙◌, sym, true, false, some, [], ◌∷◌, ◌++◌,
  Bytes, arith, length, take, drop, set, ◌==◌, le→leb, lt→ltb, add_size, length-append, length-drop,
  length-set, take_left,
}
use vantiq_sdk_micro.Memory.{World, at_live, ok, Granting, cells_of}
use vantiq_sdk_micro.Memory.Returns.{Returns, returns, bind}
use vantiq_sdk_micro.Buf.{Vmebuf}
use vantiq_sdk_micro.Buf.Growth.{Holds, length-contents, ensure_size-Allocated}
use vantiq_sdk_micro.Buf.Contents.{tostr_lem, dealloc_lem}
use vantiq_sdk_micro.Dpi.{
  Inbox, piece, ready, recv, inbox_size, write_at, receive_into, after_recv, receive_all,
  acknowledge, conclude, on_activity, fetch_discovery_msg,
}

take-set_same : (i : ℕ) (xs : Bytes) (v : ℕ) → take i (set xs i v) ≡ take i xs
take-set_same zero xs v = refl
take-set_same (suc i) [] v = refl
take-set_same (suc i) (x ∷ xs) v = ap (λ t. x ∷ t) (take-set_same i xs v)

-- A new buffer that has received `p`.
abbrev pub received : Vmebuf → Bytes → Vmebuf
received b p = record b { cells = some (write_at b.len p (cells_of b.cells)) }

pub len_zero : {b : Vmebuf} → Holds [] b → b.len ≡ 0
len_zero h = sym (length-contents h.is_buf) ∙ ap length h.bytes

length-write_at :
    (p cells : Bytes) → length p ≤ length cells → length (write_at 0 p cells) ≡ length cells
length-write_at p cells h =
    omega (arith, length-append p (drop (0 + length p) cells), length-drop (0 + length p) cells)

pub received-Holds :
    {b : Vmebuf} (p : Bytes)
    → Holds [] b
    → length p ≤ b.limit
    → Holds p (record (received b p) { len = length p })
received-Holds {b} p h k =
    let v = h.is_buf in
    rw (len_zero h) (record {
      is_buf = record {
        sized = length-write_at p (cells_of b.cells) (omega (arith, v.sized)) ∙ v.sized;
        within = k;
        least = v.least;
        fits = v.fits;
      };
      bytes = take_left p (drop (0 + length p) (cells_of b.cells));
    })

-- To set a cell behind the bytes in use changes none of them.
set-Holds :
    {s c : Bytes} {b : Vmebuf} (v : ℕ)
    → b.cells ≡ some c
    → Holds s b
    → Holds s (record b { cells = some (set (cells_of b.cells) b.len v) })
set-Holds {b} v e h = record {
  is_buf = record {
    sized = length-set (cells_of b.cells) b.len v ∙ h.is_buf.sized;
    within = h.is_buf.within;
    least = h.is_buf.least;
    fits = h.is_buf.fits;
  };
  bytes = take-set_same b.len (cells_of b.cells) v ∙ h.bytes;
}

pub acknowledge_lem :
    {s c : Bytes} {b : Vmebuf} (n : ℕ) (w : World)
    → Granting w
    → b.cells ≡ some c
    → Holds s b
    → b.len < b.limit
    → w.live ≡ suc (suc n)
    → acknowledge true b w ≡ ok (some (s ++ 0 ∷ [])) (at_live w (suc n))
unfolding acknowledge
acknowledge_lem {s} {c} {b} n w g e h room live =
    let t = set-Holds 0 e h in
    rw
      (
        lt→ltb b.len (length (cells_of b.cells)) (omega (arith, h.is_buf.sized)),
        tostr_lem w g t,
        dealloc_lem (suc n) (at_live w (suc w.live)) t.is_buf (ap suc live),
      )
      refl

recv_whole :
    (avail : ℕ) (p : Bytes) (next : Inbox)
    → length p ≤ avail
    → recv avail (piece p next) ≡ (some p, next)
recv_whole avail p next h = rw (le→leb (length p) avail h) refl

pub receive_all_lem :
    {b : Vmebuf} (fuel : ℕ) (p : Bytes) (next : Inbox) (w : World)
    → Holds [] b
    → length p < b.limit
    → receive_all (suc fuel) (piece p next) b w ≡ ok (some p, received b p) w
unfolding receive_all after_recv receive_into
receive_all_lem {b} fuel p next w h k =
    let empty = len_zero h in
    let short : (length p == b.limit - b.len) ≡ false = ground (arith, empty) in
    rw
      (
        recv_whole (b.limit - b.len) p next (omega (arith, empty)),
        le→leb (b.len + length p) (length (cells_of b.cells))
            (omega (arith, empty, h.is_buf.sized)),
        short,
      )
      refl

conclude_lem :
    {b : Vmebuf} (p : Bytes) (n : ℕ) (w : World)
    → Granting w
    → Holds [] b
    → 0 < length p
    → length p < b.limit
    → length p ≢ 3
    → w.live ≡ suc (suc n)
    → conclude true (some p) (received b p) w ≡ ok (some (p ++ 0 ∷ [])) (at_live w (suc n))
unfolding conclude
conclude_lem {b} p n w g h any k three live =
    let empty = len_zero h in
    let no_wrap : add_size b.len (length p) ≡ length p = omega (arith, empty, h.is_buf.fits) in
    let some_bytes : (length p == 0) ≡ false = ground arith in
    let no_eot : (length p == 3) ≡ false = ground arith in
    rw (some_bytes, no_eot, no_wrap)
      (acknowledge_lem n w g refl (received-Holds p h (omega arith)) k live)

-- If every allocation is granted, the socket is ready and takes the acknowledgement, and a
-- message of 1 to 511 bytes, but not of 3, arrives in one piece, then fetch_discovery_msg
-- returns it as a C string in a block of its own and gives its buffer back.
pub fetch_discovery_msg_lem :
    (p : Bytes) (next : Inbox) (w : World)
    → Granting w
    → 0 < length p
    → length p < 512
    → length p ≢ 3
    → Returns
        (λ r u. (r ≡ some (p ++ 0 ∷ [])) × (u ≡ at_live w (suc w.live)))
        (fetch_discovery_msg
          (record { activity = ready; inbox = piece p next; takes_ack = true })
          w)
unfolding fetch_discovery_msg on_activity
fetch_discovery_msg_lem p next w g any k three =
    bind (ensure_size-Allocated 512 w g (omega arith)) λ b u q.
      let room : 512 ≤ b.limit = q.room in
      let g' : Granting u = ap (λ (v : World). v.ration) q.two_blocks ∙ g in
      rw
        (
          receive_all_lem (length p + inbox_size next) p next u q.holds (omega arith),
          conclude_lem p w.live u g' q.holds any (omega arith) three
              (ap (λ (v : World). v.live) q.two_blocks),
        )
        (returns (refl, ap (λ v. at_live v (suc w.live)) q.two_blocks))
