-- ===== src/Buf/Growth.antt =====
-- How src/vme/buf.c sizes its block: what `vmebuf_ensure_size` and its kin give and keep.
use vantiq_sdk_micro.Base.{
  true, ◌∙◌, ℕ, suc, ◌+◌, ◌≤◌, ◌<◌, ◌≡◌, refl, ap, Bool, ◌&&◌, ◌||◌, inl, inr, none, some, [],
  Bytes, arith, add_size, size_mod, length, take, length-take, Bool-cases, Option-cases, ltb, leb,
  le→leb, if◌then◌else◌,
}
use vantiq_sdk_micro.Memory.{
  World, ok, ◌>>◌, pure, assert, Granting, cells_of, resize_cells, length-resize_cells,
  take-resize_cells, allocate_granted, realloc_or_abort_granted, realloc_unchecked_granted,
  realloc_or_abort_new,
}
use vantiq_sdk_micro.Memory.Returns.{Returns, returns, bind, assert-true}
use vantiq_sdk_micro.Buf.{
  Vmebuf, min_buf_size, sml_buf_size, lrg_buf_size, no_cells, at_least_min, resize, ensure_size,
  ensure_incr_size,
}

-- A buffer with a block of `limit` cells, of which `len` are in use.
pub record IsBuf (b : Vmebuf) : Type 0 where
  pub sized : length (cells_of b.cells) ≡ b.limit
  pub within : b.len ≤ b.limit
  pub least : min_buf_size ≤ b.limit
  pub fits : b.limit < size_mod

abbrev pub contents : Vmebuf → Bytes
contents b = take b.len (cells_of b.cells)

-- A well-formed buffer whose bytes in use are `s`.
pub record Holds (s : Bytes) (b : Vmebuf) : Type 0 where
  pub is_buf : IsBuf b
  pub bytes : contents b ≡ s

pub length-contents : {b : Vmebuf} → IsBuf b → length (contents b) ≡ b.len
length-contents {b} v = omega (arith, length-take b.len (cells_of b.cells))

-- What is left of a buffer and the world when the block has room for `n` and all else is as before.
pub record Grown (n : ℕ) (b : Vmebuf) (w : World) (b' : Vmebuf) (w' : World) : Type 0 where
  pub is_buf : IsBuf b'
  pub same_len : b'.len ≡ b.len
  pub same_bytes : contents b' ≡ contents b
  pub room : n ≤ b'.limit
  pub same_world : w' ≡ w

pub IsBuf-cells : {b : Vmebuf} → IsBuf b → (c : Bytes) × (b.cells ≡ some c)
IsBuf-cells {b} v = elim (Option-cases b.cells) [
  | inl e ↦ absurd (omega (arith, v.least, v.sized, ap (λ o. length (cells_of o)) e))
  | inr found ↦ found
]

-- `realloc` runs, to a larger block or from an outsized one to a small one.
abbrev moves : Vmebuf → ℕ → Bool
moves b n = ltb b.limit n || leb n sml_buf_size && leb lrg_buf_size b.limit

abbrev pub moved : Vmebuf → Bytes → ℕ → Vmebuf
moved b cells n = record b { limit = n; cells = some cells }

resize_lem :
    (b : Vmebuf) (n : ℕ) (w : World) (c : Bytes)
    → Granting w
    → b.cells ≡ some c
    → resize b n w ≡ ok (if moves b n then moved b (resize_cells w.junk c n) n else b) w
unfolding resize
resize_lem b n w c g e =
    ground (arith, realloc_or_abort_granted w g c n, realloc_unchecked_granted w g c n)

pub moved-Grown :
    {b : Vmebuf} (n : ℕ) (w : World) (c : Bytes)
    → IsBuf b
    → b.cells ≡ some c
    → min_buf_size ≤ n
    → b.len ≤ n
    → n < size_mod
    → Grown n b w (moved b (resize_cells w.junk c n) n) w
moved-Grown {b} n w c v e least len fits =
    let cut : length c ≡ b.limit = rw e at v.sized in
    record {
      is_buf = record {
        sized = length-resize_cells w.junk c n;
        within = len;
        least = least;
        fits = fits;
      };
      same_len = refl;
      same_bytes = rw e (take-resize_cells w.junk c b.len n len (omega (arith, v.within)));
      room = omega arith;
      same_world = refl;
    }

resize-Grown :
    {b : Vmebuf} (n : ℕ) (w : World)
    → Granting w
    → IsBuf b
    → min_buf_size ≤ n
    → b.len ≤ n
    → n < size_mod
    → Returns (Grown n b w) (resize b n w)
resize-Grown {b} n w g v least len fits =
    let (c, e) = IsBuf-cells v in
    rw (resize_lem b n w c g e) (elim (Bool-cases (moves b n)) [
      | inl yes' ↦ rw yes' (returns (moved-Grown n w c v e least len fits))
      | inr stays ↦ rw stays (
          returns (record {
            is_buf = v;
            same_len = refl;
            same_bytes = refl;
            room = ground arith;
            same_world = refl;
          }))
    ])

pub at_least_min_bounds : (n : ℕ) → (n ≤ at_least_min n) × (min_buf_size ≤ at_least_min n)
at_least_min_bounds n = ground arith

pub at_least_min_fits : (n : ℕ) → n < size_mod → at_least_min n < size_mod
at_least_min_fits n h = ground arith

-- If every allocation is granted, the buffer is well-formed, and the size asked for is not below
-- its length (a size below 64 counts as 64) and below 2 ^ 64, then vmebuf_ensure_size returns a
-- well-formed buffer with the same bytes in use and room for that size, and changes nothing
-- else.
pub ensure_size-Grown :
    {b : Vmebuf} (n : ℕ) (w : World)
    → Granting w
    → IsBuf b
    → b.len ≤ at_least_min n
    → n < size_mod
    → Returns (Grown (at_least_min n) b w) (ensure_size (some b) n w)
unfolding ensure_size
ensure_size-Grown n w g v len fits =
    resize-Grown (at_least_min n) w g v (at_least_min_bounds n).1 len (at_least_min_fits n fits)

-- A fresh buffer is empty, and costs two blocks: the struct and its cells.
pub record Allocated (n : ℕ) (w : World) (b : Vmebuf) (w' : World) : Type 0 where
  pub holds : Holds [] b
  pub room : at_least_min n ≤ b.limit
  pub two_blocks : w' ≡ record w { live = suc (suc w.live) }
  pub same_limit : b.limit ≡ at_least_min n
  pub fresh_cells : b.cells ≡ some (resize_cells w.junk [] b.limit)

resize-no_cells :
    (n : ℕ) (w : World)
    → Granting w
    → min_buf_size ≤ n
    → resize no_cells n w
      ≡ ok (moved no_cells (resize_cells w.junk [] n) n) (record w { live = suc w.live })
unfolding resize
resize-no_cells n w g least = ground (arith, realloc_or_abort_new w g n)

pub ensure_size-Allocated :
    (n : ℕ) (w : World) → Granting w → n < size_mod → Returns (Allocated n w) (ensure_size none n w)
unfolding ensure_size
ensure_size-Allocated n w g fits =
    let big = at_least_min_bounds n in
    rw
      (
        allocate_granted w g,
        resize-no_cells (at_least_min n) (record w { live = suc w.live }) g big.1,
      )
      (returns (record {
        holds = record {
          is_buf = record {
            sized = length-resize_cells w.junk [] (at_least_min n);
            within = omega arith;
            least = big.1;
            fits = at_least_min_fits n fits;
          };
          bytes = refl;
        };
        room = omega arith;
        two_blocks = refl;
        same_limit = refl;
        fresh_cells = refl;
      }))

-- The increment is on top of what is in use, so nothing in use is ever cut off.
pub ensure_incr_size-Grown :
    {b : Vmebuf} (n : ℕ) (w : World)
    → Granting w
    → IsBuf b
    → b.len + n < size_mod
    → Returns (Grown (b.len + n) b w) (ensure_incr_size (some b) n w)
unfolding ensure_incr_size
ensure_incr_size-Grown {b} n w g v fits =
    rw no_wrap (bind (ensure_size-Grown (b.len + n) w g v (ground arith) fits) checked)
  where
    no_wrap : add_size b.len n ≡ b.len + n
    no_wrap = omega arith

    checked :
        (r : Vmebuf) (w' : World)
        → Grown (at_least_min (b.len + n)) b w r w'
        → Returns (Grown (b.len + n) b w) ((assert (leb r.len r.limit) >> pure r) w')
    checked r w' q = assert-true (leb r.len r.limit) w' _ (le→leb r.len r.limit q.is_buf.within) (
        returns (record {
          is_buf = q.is_buf;
          same_len = q.same_len;
          same_bytes = q.same_bytes;
          room = omega (arith, at_least_min_bounds (b.len + n), q.room);
          same_world = q.same_world;
        }))

-- If every allocation is granted, the buffer is well-formed, its block of at least 1 MB is asked
-- to have a size of at most 1024 (a size below 64 counts as 64), and that size is below the
-- number of bytes in use, then vmebuf_ensure_size returns a buffer whose length is above its
-- limit.
pub ensure_size-shrunk :
    (b : Vmebuf) (n : ℕ) (w : World)
    → Granting w
    → IsBuf b
    → lrg_buf_size ≤ b.limit
    → at_least_min n ≤ sml_buf_size
    → at_least_min n < b.len
    → (b' : Vmebuf) × (ensure_size (some b) n w ≡ ok b' w) × (b'.limit < b'.len)
unfolding ensure_size
ensure_size-shrunk b n w g v large small less =
    let (c, e) = IsBuf-cells v in
    let m = at_least_min n in
    let runs : moves b m ≡ true =
      rw (le→leb m sml_buf_size small, le→leb lrg_buf_size b.limit large) (ground arith) in
    (moved b (resize_cells w.junk c m) m, resize_lem b m w c g e ∙ rw runs refl, less)
