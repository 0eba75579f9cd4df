-- ===== src/Client/Callbacks/Body.antt =====
-- `write_callback` and `read_callback` of src/vme/vantiq_client.c: the response body that comes in,
-- and the request body that goes out.
use mathlib.Core.Path.{subst, subst₂}
use vantiq_sdk_micro.Base.{
  eqb→eq, take-take_le, drop-take_le, drop_all, length-take, length-drop, ℕ, ◌+◌, ◌-◌, ◌*◌, ◌%◌,
  ◌≤◌, ◌<◌, ◌≡◌, refl, ap, ◌∙◌, sym, false, inl, inr, none, some, [], ◌∷◌, ◌++◌, Bytes, arith, ltb,
  Bool-cases, if◌then◌else◌, length, take, drop, take_all, size_mod, ltb→lt, ltb→le, ◌==◌,
}
use vantiq_sdk_micro.Memory.{World, M, Run, and_then, ok, Granting}
use vantiq_sdk_micro.Memory.Returns.{Returns, returns, bind}
use vantiq_sdk_micro.Buf.{Vmebuf}
use vantiq_sdk_micro.Buf.Growth.{Holds, length-contents, ensure_incr_size-Grown}
use vantiq_sdk_micro.Buf.Contents.{IsSmall, Left-bind, Grown-bind, concat-Left, read_block_lem}
use vantiq_sdk_micro.Client.{Client, Callback, SendState}
use vantiq_sdk_micro.Client.Callbacks.{
  write_callback, receive, keep_contents, call_app, read_callback,
}

-- The receive buffer holds `s`, the size returned is `n`, and all else is as before.
pub record Received (s : Bytes) (n : ℕ) (c : Client) (w : World) (r : ℕ × Client) (w' : World)
    : Type 0 where
  pub buf : Vmebuf
  pub holds : Holds s buf
  pub taken : r.0 ≡ n
  pub client : r.1 ≡ record c { recv_buf = buf }
  pub same_world : w' ≡ w

keep_contents-Received :
    {s : Bytes} (c : Client) (contents : Bytes) (w : World)
    → Granting w
    → Holds s c.recv_buf
    → IsSmall (length s + length contents)
    → Returns
        (Received (s ++ contents) (length contents) c w)
        (keep_contents contents (length contents) c w)
unfolding keep_contents
keep_contents-Received {s} c contents w g h small =
    let n = length contents in
    let used : length s ≡ c.recv_buf.len = sym (ap length h.bytes) ∙ length-contents h.is_buf in
    Grown-bind _ h (ensure_incr_size-Grown n w g h.is_buf (omega arith)) λ b h' same.
      Left-bind _ (concat-Left contents n w g h' (omega arith) (omega arith)) λ b' h''.
        returns (record {
          buf = b';
          holds = rw (take_all n contents (omega arith)) at h'';
          taken = refl;
          client = refl;
          same_world = refl;
        })

-- With no callback of the application the bytes are appended to the receive buffer.
pub write_callback-Received :
    {s : Bytes} {c : Client} (contents : Bytes) (w : World)
    → Granting w
    → c.recv_callback ≡ none
    → Holds s c.recv_buf
    → IsSmall (length s + length contents)
    → Returns
        (Received (s ++ contents) (length contents) c w)
        (write_callback contents 1 (length contents) c w)
unfolding write_callback receive
write_callback-Received {s} {c} contents w g unset h small =
    let n = length contents in
    let no_wrap : 1 * n % size_mod ≡ n = omega arith in
    rw no_wrap (
      subst (λ f. Returns (Received (s ++ contents) n c w) (receive f contents n c w)) (sym unset)
        (keep_contents-Received c contents w g h small))

-- To go on from a chunk that was kept.
pub Received-bind :
    {A : Type 0} {Q : A → World → Type 0} {s : Bytes} {n : ℕ} {c : Client} {w : World}
    {r : Run (ℕ × Client)} (k : ℕ × Client → M A)
    → Returns (Received s n c w) r
    → ((b : Vmebuf) → Holds s b → Returns Q (k (n, record c { recv_buf = b }) w))
    → Returns Q (and_then r k)
Received-bind {Q} {n} {c} k r next = bind r λ p w' q.
    let same : p ≡ (n, record c { recv_buf = q.buf }) = λ i. (q.taken i, q.client i) in
    subst₂ (λ u v. Returns Q (k u v)) (sym same) (sym q.same_world) (next q.buf q.holds)

-- With one, the bytes go to it alone, and its answer is the size returned.
pub write_callback-app :
    (f : Callback) (contents : Bytes) (c : Client) (w : World)
    → c.recv_callback ≡ some f
    → length contents < size_mod
    → write_callback contents 1 (length contents) c w
      ≡ ok
          (f w.app_calls c.callback_state contents, c)
          (record w { app_calls = (c.callback_state, contents) ∷ w.app_calls })
unfolding write_callback receive call_app
write_callback-app f contents c w e h =
    let n = length contents in
    let no_wrap : 1 * n % size_mod ≡ n = omega arith in
    rw (no_wrap) (
      ap (λ o. receive o contents n c w) e
      ∙ rw (read_block_lem contents n w (omega arith), take_all n contents (omega arith)))

-- the bytes that are still to be sent
abbrev pub unsent : SendState → Bytes
unsent s = take s.sizeleft s.readptr

-- What `memcpy` of `copy` bytes, the smaller of `room` and `left`, takes and leaves.
record Cut (room left copy : ℕ) (src : Bytes) : Type 0 where
  taken : take room (take left src) ≡ take copy src
  count : length (take copy src) ≡ copy
  kept : take (left - copy) (drop copy src) ≡ drop room (take left src)
  inside : left - copy ≤ length (drop copy src)

Cut-room : (room left : ℕ) (src : Bytes) → room < left → left ≤ length src → Cut room left room src
Cut-room room left src h k = record {
  taken = take-take_le room left src (omega arith);
  count = omega (arith, length-take room src);
  kept = sym (drop-take_le room left src (omega arith));
  inside = omega (arith, length-drop room src);
}

Cut-left : (room left : ℕ) (src : Bytes) → left ≤ room → left ≤ length src → Cut room left left src
Cut-left room left src h k =
    let n = length-take left src in
    let nothing : left - left ≡ 0 = omega arith in
    record {
      taken = take_all room (take left src) (omega arith);
      count = omega arith;
      kept = rw nothing (sym (drop_all room (take left src) (omega arith)));
      inside = omega arith;
    }

copies : ℕ → ℕ → ℕ
copies room left = if ltb room left then room else left

copies-Cut :
    (room left : ℕ) (src : Bytes) → left ≤ length src → Cut room left (copies room left) src
unfolding copies
copies-Cut room left src k = elim (Bool-cases (ltb room left)) [
  | inl part ↦ rw part (Cut-room room left src (ltb→lt _ _ part) k)
  | inr all ↦ rw all (Cut-left room left src (ltb→le _ _ all) k)
]

-- the state of sending behind a pull of at most `room` bytes
abbrev pub advance : ℕ → SendState → SendState
unfolding copies
advance room s = record {
  readptr = drop (copies room s.sizeleft) s.readptr;
  sizeleft = s.sizeleft - copies room s.sizeleft;
}

advance_done : (room : ℕ) (s : SendState) → s.sizeleft ≡ 0 → advance room s ≡ s
unfolding copies
advance_done room s e = ground arith

copies_zero : (room left : ℕ) → left ≡ 0 → copies room left ≡ 0
unfolding copies
copies_zero room left e = ground arith

read_callback_done :
    (room : ℕ) (c : Client) (w : World)
    → c.send_state.sizeleft ≡ 0
    → read_callback 1 room c w ≡ ok (0, [], c) w
unfolding read_callback
read_callback_done room c w e = ground arith

read_callback_more :
    (room : ℕ) (c : Client) (w : World)
    → room < size_mod
    → c.send_state.sizeleft ≤ length c.send_state.readptr
    → (c.send_state.sizeleft == 0) ≡ false
    → let n = copies room c.send_state.sizeleft in
      read_callback 1 room c w
      ≡ ok (n, take n c.send_state.readptr, record c { send_state = advance room c.send_state }) w
unfolding read_callback copies
read_callback_more room c w h k more =
    let no_wrap : 1 * room % size_mod ≡ room = omega arith in
    let left = c.send_state.sizeleft in
    let n = if ltb room left then room else left in
    rw (no_wrap, more, read_block_lem c.send_state.readptr n w (ground arith))

read_callback_first :
    (room : ℕ) (c : Client) (w : World)
    → room < size_mod
    → c.send_state.sizeleft ≤ length c.send_state.readptr
    → let delivered = take room (unsent c.send_state) in
      read_callback 1 room c w
      ≡ ok (length delivered, delivered, record c { send_state = advance room c.send_state }) w
read_callback_first room c w h k =
    let left = c.send_state.sizeleft in
    let q = copies-Cut room left c.send_state.readptr k in
    elim (Bool-cases (left == 0)) [
      | inl over ↦
          let e = eqb→eq left 0 over in
          let none_left = copies_zero room left e in
          rw (read_callback_done room c w e, q.taken, none_left, advance_done room c.send_state e)
      | inr more ↦ rw (read_callback_more room c w h k more, q.taken, q.count)
    ]

-- If what is still to be sent lies inside its block and the room is below 2 ^ 64, read_callback
-- delivers the next bytes of the message, as many as there is room for, and returns their
-- number; what is still to be sent is then the rest of the message, inside its block.
pub read_callback_lem :
    (room : ℕ) (c : Client) (w : World)
    → room < size_mod
    → c.send_state.sizeleft ≤ length c.send_state.readptr
    → let delivered = take room (unsent c.send_state) in
      let rest = advance room c.send_state in
      (read_callback 1 room c w
        ≡ ok (length delivered, delivered, record c { send_state = rest }) w)
      × (unsent rest ≡ drop room (unsent c.send_state))
      × (rest.sizeleft ≤ length rest.readptr)
read_callback_lem room c w h k =
    let q = copies-Cut room c.send_state.sizeleft c.send_state.readptr k in
    (read_callback_first room c w h k, unfold copies in q.kept, unfold copies in q.inside)
