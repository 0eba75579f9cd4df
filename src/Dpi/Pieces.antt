-- ===== src/Dpi/Pieces.antt =====
-- The loop of `fetch_discovery_msg` of src/vipo/dpi_client.c on what arrives in pieces of any size.
use mathlib.Core.Path.{subst}
use native.Mathlib.Nat.{mul_assoc, mul-le-mul_left, pow-succ'}
use vantiq_sdk_micro.Base.{
  ℕ, zero, suc, ◌+◌, ◌-◌, ◌*◌, ◌%◌, ◌^◌, ◌≤◌, ◌<◌, ◌≡◌, ◌≢◌, refl, ap, ◌∙◌, sym, true, false, inl,
  inr, Bool-cases, Option, some, ◌++◌, append_assoc, Bytes, arith, length, take, drop, leb, ◌==◌,
  le→leb, eqb→eq, add_size, size_mod, length-append, length-drop, length-take, take-append-drop,
  take_left,
}
use vantiq_sdk_micro.Memory.{World, ok, M, Granting, cells_of, realloc_unchecked_granted}
use vantiq_sdk_micro.Memory.Returns.{Returns, returns, bind}
use vantiq_sdk_micro.Buf.{Vmebuf}
use vantiq_sdk_micro.Buf.Growth.{Holds, length-contents, moved-Grown}
use vantiq_sdk_micro.Buf.Contents.{Grown-Holds}
use vantiq_sdk_micro.Dpi.{
  Inbox, piece, inbox_size, write_at, receive_into, double, after_recv, receive_all,
}

-- The buffer with `p` written behind what is in use, and not yet counted.
abbrev pub behind : Vmebuf → Bytes → Vmebuf
behind b p = record b { cells = some (write_at b.len p (cells_of b.cells)) }

abbrev pub counted : Vmebuf → Bytes → Vmebuf
counted b p = record b { len = b.len + length p }

take-write_at :
    (n : ℕ) (p c : Bytes) → n ≤ length c → take (n + length p) (write_at n p c) ≡ take n c ++ p
take-write_at n p c h =
    let front = take n c in
    let rest = drop (n + length p) c in
    let size : n + length p ≡ length (front ++ p) =
      omega (arith, length-append front p, length-take n c) in
    ap (λ t. take (n + length p) t) (sym (append_assoc front p rest))
    ∙ ap (λ k. take k ((front ++ p) ++ rest)) size
    ∙ take_left (front ++ p) rest

length-write_at :
    (n : ℕ) (p c : Bytes) → n + length p ≤ length c → length (write_at n p c) ≡ length c
length-write_at n p c h = omega (
  arith,
  length-append (take n c) (p ++ drop (n + length p) c),
  length-append p (drop (n + length p) c),
  length-take n c,
  length-drop (n + length p) c,
)

pub Holds-len : {s : Bytes} {b : Vmebuf} → Holds s b → b.len ≡ length s
Holds-len h = sym (length-contents h.is_buf) ∙ ap length h.bytes

module _ {s : Bytes} {b : Vmebuf} (p : Bytes) (h : Holds s b)
    (fits : b.len + length p ≤ b.limit) where
  pub behind-Holds : Holds (s ++ p) (counted (behind b p) p)
  behind-Holds = record {
    is_buf = record {
      sized =
          length-write_at b.len p (cells_of b.cells) (omega (arith, h.is_buf.sized))
          ∙ h.is_buf.sized;
      within = fits;
      least = h.is_buf.least;
      fits = h.is_buf.fits;
    };
    bytes =
        take-write_at b.len p (cells_of b.cells) (omega (arith, h.is_buf.sized))
        ∙ ap (λ t. t ++ p) h.bytes;
  }

  receive_into_lem : (w : World) → receive_into b p w ≡ ok (behind b p) w
  unfolding receive_into
  receive_into_lem w =
      rw (le→leb (b.len + length p) (length (cells_of b.cells)) (omega (arith, h.is_buf.sized)))

-- Twice the room, with what was written counted.
record Doubled (s : Bytes) (limit : ℕ) (w : World) (b : Vmebuf) (u : World) : Type 0 where
  holds : Holds s b
  same_limit : b.limit ≡ limit * 2
  same_world : u ≡ w

double-Doubled :
    {s : Bytes} {b : Vmebuf} (p : Bytes) (w : World)
    → Granting w
    → Holds s b
    → b.len + length p ≡ b.limit
    → b.limit * 2 < size_mod
    → Returns (Doubled (s ++ p) b.limit w) (double (behind b p) (length p) w)
unfolding double
double-Doubled {s} {b} p w g h full small =
    let q = behind-Holds p h (omega arith) in
    let c = write_at b.len p (cells_of b.cells) in
    let v = q.is_buf in
    let no_wrap : b.limit * 2 % size_mod ≡ b.limit * 2 = omega arith in
    let same : add_size b.len (length p) ≡ b.len + length p = omega arith in
    let m = moved-Grown (b.limit * 2) w c v refl (omega (arith, v.least)) (omega arith) small in
    rw (no_wrap, same, realloc_unchecked_granted w g c (b.limit * 2))
      (returns (record { holds = Grown-Holds m q; same_limit = refl; same_world = refl }))

module _ {s : Bytes} {b : Vmebuf} (p : Bytes) (w : World) (h : Holds s b) where
  -- The loop ends behind a piece that leaves room.
  pub after_recv_short :
      (again : Vmebuf → M (Option Bytes × Vmebuf))
      → b.len + length p < b.limit
      → after_recv (b.limit - b.len) b (some p) again w ≡ ok (some p, behind b p) w
  unfolding after_recv
  after_recv_short again room =
      let short : (length p == b.limit - b.len) ≡ false = ground arith in
      rw (receive_into_lem p h (omega arith) w, short) refl

  -- It goes on behind a piece that fills the room, with twice the room.
  pub after_recv_full :
      {Q : Option Bytes × Vmebuf → World → Type 0} (again : Vmebuf → M (Option Bytes × Vmebuf))
      → Granting w
      → b.len + length p ≡ b.limit
      → b.limit * 2 < size_mod
      → ((b' : Vmebuf) → Holds (s ++ p) b' → b'.limit ≡ b.limit * 2 → Returns Q (again b' w))
      → Returns Q (after_recv (b.limit - b.len) b (some p) again w)
  unfolding after_recv
  after_recv_full {Q} again g full small next =
      let filled : (length p == b.limit - b.len) ≡ true = ground arith in
      rw (receive_into_lem p h (omega arith) w, filled)
        (bind (double-Doubled p w g h full small) λ b' u q.
          subst (λ v. Returns Q (again b' v)) (sym q.same_world) (next b' q.holds q.same_limit))

-- What the loop leaves when it ends behind a message: the buffer with its last piece, which is not
-- counted, and room for a terminator.
pub record Ended (s : Bytes) (w : World) (r : Option Bytes × Vmebuf) (u : World) : Type 0 where
  pub last : Bytes
  pub is_last : r.0 ≡ some last
  pub holds : Holds s (counted r.1 last)
  pub room : r.1.len + length last < r.1.limit
  pub same_world : u ≡ w

pub Ended-short :
    {s : Bytes} {b : Vmebuf} (p : Bytes) (w : World)
    → Holds s b
    → b.len + length p < b.limit
    → Ended (s ++ p) w (some p, behind b p) w
Ended-short p w h room = record {
  last = p;
  is_last = refl;
  holds = behind-Holds p h (omega arith);
  room = room;
  same_world = refl;
}

-- A number of bytes at which the room is never filled just by the message's end.
abbrev pub NeverFills : ℕ → ℕ → Type 0
NeverFills limit n = (k : ℕ) → n ≢ limit * 2 ^ k

NeverFills-double : (limit n : ℕ) → NeverFills limit n → NeverFills (limit * 2) n
NeverFills-double limit n never k e = never (suc k) (e ∙ same)
  where
    same : limit * 2 * 2 ^ k ≡ limit * 2 ^ suc k
    same = mul_assoc limit 2 (2 ^ k) ∙ ap (λ t. limit * t) (sym (pow-succ' 2 k))

NeverFills-short : (limit n : ℕ) → NeverFills limit n → n ≤ limit → n < limit
NeverFills-short limit n never h =
    let one : limit * 2 ^ 0 ≡ limit = omega arith in
    elim (Bool-cases (n == limit)) [
      | inl same ↦ absurd (never 0 (eqb→eq n limit same ∙ sym one))
      | inr other ↦ ground arith
    ]

pow_positive : (k : ℕ) → 0 < 2 ^ k
pow_positive zero = omega arith
pow_positive (suc k) = omega (arith, pow_positive k, pow-succ' 2 k)

-- A message that is shorter than the room.
pub NeverFills-less : (limit n : ℕ) → n < limit → NeverFills limit n
NeverFills-less limit n less k e =
    let more : limit * 1 ≤ limit * 2 ^ k = mul-le-mul_left limit (pow_positive k) in omega arith

pub receive_all_whole :
    (fuel : ℕ) (p : Bytes) (next : Inbox) {s : Bytes} {b : Vmebuf} (w : World)
    → Granting w
    → Holds s b
    → b.len < b.limit
    → length p + inbox_size next < fuel
    → NeverFills b.limit (b.len + length p)
    → (b.len + length p + 512) * 4 < size_mod
    → b.limit ≤ 2 * b.len + 512
    → Returns (Ended (s ++ p) w) (receive_all fuel (piece p next) b w)
unfolding receive_all
receive_all_whole zero p next w g h room enough never small tight = absurd (omega arith)
receive_all_whole (suc fuel) p next {s} {b} w g h room enough never small tight =
    let avail = b.limit - b.len in
    elim (Bool-cases (leb (length p) avail)) [
      | inl whole ↦ rw whole (
          let fits =
            NeverFills-short b.limit (b.len + length p) never (ground (arith, h.is_buf.within)) in
          rw (after_recv_short p w h (receive_all fuel next) fits)
            (returns (Ended-short p w h fits)))
      | inr cut ↦
          let front = take avail p in
          let back = drop avail p in
          let size : length front ≡ avail = ground (arith, length-take avail p) in
          let left : length back ≡ length p - avail = length-drop avail p in
          let twice : b.limit * 2 < size_mod = omega arith in
          rw cut (
            after_recv_full front w h (receive_all fuel (piece back next)) g (omega arith) twice
              λ b' h' limit.
                let len : b'.len ≡ b.limit =
                  omega (arith, Holds-len h', Holds-len h, length-append s front) in
                let total : b'.len + length back ≡ b.len + length p = ground arith in
                let whole : (s ++ front) ++ back ≡ s ++ p =
                  append_assoc s front back ∙ ap (λ t. s ++ t) (take-append-drop avail p) in
                subst (λ t. Returns (Ended t w) (receive_all fuel (piece back next) b' w)) whole
                  (receive_all_whole fuel back next w g h' (ground arith) (ground arith)
                    (λ k e.
                      NeverFills-double b.limit (b.len + length p) never k
                        (sym total ∙ e ∙ ap (λ m. m * 2 ^ k) limit))
                    (omega arith) (omega arith)))
    ]

-- A message that fills the room just to its end is not told from what follows.
pub receive_all_joined :
    (fuel : ℕ) (p q : Bytes) (next : Inbox) {s : Bytes} {b : Vmebuf} (w : World)
    → Granting w
    → Holds s b
    → b.len + length p ≡ b.limit
    → length q + inbox_size next < fuel
    → NeverFills (b.limit * 2) (b.limit + length q)
    → (b.limit + length q + 512) * 4 < size_mod
    → Returns (Ended ((s ++ p) ++ q) w) (receive_all (suc fuel) (piece p (piece q next)) b w)
unfolding receive_all
receive_all_joined fuel p q next {s} {b} w g h full enough never small =
    let fits : length p ≤ b.limit - b.len = omega arith in
    rw (le→leb (length p) (b.limit - b.len) fits) (
      after_recv_full p w h (receive_all fuel (piece q next)) g full (omega arith) λ b' h' limit.
        let len : b'.len ≡ b.limit = omega (arith, Holds-len h', Holds-len h, length-append s p) in
        receive_all_whole fuel q next w g h' (omega (arith, h.is_buf.least)) enough
          (rw (len, limit) never) (omega arith) (omega arith))
