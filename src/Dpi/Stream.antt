-- ===== src/Dpi/Stream.antt =====
-- That the loop of `fetch_discovery_msg` of src/vipo/dpi_client.c ends, whatever arrives.
use mathlib.Core.Path.{subst, ap₂}
use vantiq_sdk_micro.Base.{
  ℕ, zero, suc, ◌+◌, ◌-◌, ◌*◌, ◌≤◌, ◌<◌, ◌≡◌, refl, ap, ◌∙◌, sym, inl, inr, Bool-cases, true, false,
  if◌then◌else◌, Option, none, some, [], ◌++◌, append_assoc, Bytes, arith, length, take, drop, leb,
  ◌==◌, eqb→eq, size_mod, length-append, length-drop, length-take, take-append-drop,
}
use vantiq_sdk_micro.Memory.{World, Granting}
use vantiq_sdk_micro.Memory.Returns.{Returns, returns, mono}
use vantiq_sdk_micro.Buf.{Vmebuf}
use vantiq_sdk_micro.Buf.Growth.{Holds}
use vantiq_sdk_micro.Dpi.{Inbox, closed, failed, piece, recv, inbox_size, receive_all}
use vantiq_sdk_micro.Dpi.Pieces.{Holds-len, after_recv_short, after_recv_full, Ended, Ended-short}

-- All bytes that arrive, in order.
abbrev pub stream : Inbox → Bytes
stream closed = []
stream failed = []
stream (piece p next) = p ++ stream next

-- `recv` never fails.
abbrev pub Delivers : Inbox → Type 0
Delivers closed = Unit
Delivers failed = ⊥
Delivers (piece p next) = Delivers next

-- A piece, and what is taken behind it if it fills the room.
abbrev go_on : (room : ℕ) → Option Bytes → Bytes → Bytes
go_on room none behind = []
go_on room (some p) behind = if length p == room then p ++ behind else p

-- The bytes that are taken with a room that grows as often as it is filled: `room` at first, then
-- `next`, then twice `next`, and so on, up to the first piece that leaves room.
abbrev pub gathered : (fuel room next : ℕ) → Inbox → Bytes
gathered zero room next inbox = []
gathered (suc fuel) room next inbox =
    go_on room (recv room inbox).0 (gathered fuel next (next * 2) (recv room inbox).1)

-- The loop has ended behind `front`, which arrived first.
pub record Gathered (s : Bytes) (inbox : Inbox) (front : Bytes) (w : World)
    (r : Option Bytes × Vmebuf) (u : World) : Type 0 where
  pub rest : Bytes
  pub split : stream inbox ≡ front ++ rest
  pub ended : Ended (s ++ front) w r u

Gathered-behind :
    (s p : Bytes) (inbox next : Inbox) (front : Bytes) (w : World) (r : Option Bytes × Vmebuf)
    (u : World)
    → stream inbox ≡ p ++ stream next
    → Gathered (s ++ p) next front w r u
    → Gathered s inbox (p ++ front) w r u
Gathered-behind s p inbox next front w r u e q = record {
  rest = q.rest;
  split = e ∙ ap (λ t. p ++ t) q.split ∙ sym (append_assoc p front q.rest);
  ended = subst (λ t. Ended t w r u) (append_assoc s p front) q.ended;
}

-- The buffer behind a piece that filled it has the next room.
gathered-full :
    (fuel : ℕ) (inbox : Inbox) (b b' : Vmebuf)
    → b'.len ≡ b.limit
    → b'.limit ≡ b.limit * 2
    → gathered fuel (b'.limit - b'.len) b'.limit inbox ≡ gathered fuel b.limit (b.limit * 2) inbox
gathered-full fuel inbox b b' len limit =
    let room : b'.limit - b'.len ≡ b.limit = omega arith in
    ap₂ (λ m n. gathered fuel m n inbox) room limit

pub receive_all-Gathered :
    (fuel : ℕ) (inbox : Inbox) {s : Bytes} {b : Vmebuf} (w : World)
    → Granting w
    → Holds s b
    → b.len < b.limit
    → inbox_size inbox < fuel
    → Delivers inbox
    → (b.len + inbox_size inbox + 512) * 4 < size_mod
    → b.limit ≤ 2 * b.len + 512
    → Returns
        (Gathered s inbox (gathered fuel (b.limit - b.len) b.limit inbox) w)
        (receive_all fuel inbox b w)
unfolding receive_all
receive_all-Gathered zero inbox w g h room enough d small tight = absurd (omega arith)
receive_all-Gathered (suc fuel) failed w g h room enough d small tight = absurd d
receive_all-Gathered (suc fuel) closed {s} {b} w g h room enough d small tight =
    let room_left : (0 == b.limit - b.len) ≡ false = ground arith in
    rw (after_recv_short [] w h (receive_all fuel closed) (ground arith), room_left)
      (returns (record { rest = []; split = refl; ended = Ended-short [] w h (ground arith) }))
receive_all-Gathered (suc fuel) (piece p next) {s} {b} w g h room enough d small tight =
    let avail = b.limit - b.len in
    let twice : b.limit * 2 < size_mod = omega arith in
    elim (Bool-cases (leb (length p) avail)) [
      | inl whole ↦ elim (Bool-cases (length p == avail)) [
        | inl full ↦
            let size = eqb→eq (length p) avail full in
            rw (whole, full)
              (after_recv_full p w h (receive_all fuel next) g (omega arith) twice λ b' h' limit.
                let len : b'.len ≡ b.limit =
                  omega (arith, Holds-len h', Holds-len h, length-append s p) in
                mono
                  (rw (gathered-full fuel next b b' len limit) at (
                    receive_all-Gathered fuel next w g h' (omega arith) (omega arith) d
                      (omega arith) (omega arith)))
                  λ r u q. Gathered-behind s p (piece p next) next _ w r u refl q)
        | inr less ↦
            let fits : b.len + length p < b.limit = ground (arith, h.is_buf.within) in
            rw (whole, less, after_recv_short p w h (receive_all fuel next) fits)
              (returns
                (record { rest = stream next; split = refl; ended = Ended-short p w h fits }))
      ]
      | inr cut ↦
          let front = take avail p in
          let back = drop avail p in
          let size : length front ≡ avail = ground (arith, length-take avail p) in
          let left : length back ≡ length p - avail = length-drop avail p in
          let split : p ++ stream next ≡ front ++ (back ++ stream next) =
            ap (λ t. t ++ stream next) (sym (take-append-drop avail p))
            ∙ append_assoc front back (stream next) in
          let filled : (length front == avail) ≡ true = ground arith in
          rw (cut, filled)
            (after_recv_full front w h (receive_all fuel (piece back next)) g (omega arith) twice
              λ b' h' limit.
                let len : b'.len ≡ b.limit =
                  omega (arith, Holds-len h', Holds-len h, length-append s front) in
                mono
                  (rw (gathered-full fuel (piece back next) b b' len limit) at (
                    receive_all-Gathered fuel (piece back next) w g h' (omega arith) (ground arith)
                      d (ground arith) (omega arith)))
                  λ r u q. Gathered-behind s front (piece p next) (piece back next) _ w r u split q)
    ]
