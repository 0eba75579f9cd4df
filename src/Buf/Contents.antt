-- ===== src/Buf/Contents.antt =====
-- What src/vme/buf.c stores and gives back: a buffer is the sequence of the bytes appended to it.
use mathlib.Core.Path.{subst}
use vantiq_sdk_micro.Base.{
  ℕ, zero, ◌*◌, sym, take_left, suc, ◌+◌, ◌/◌, ◌≤◌, ◌<◌, ◌≡◌, refl, ap, ◌∙◌, [], ◌∷◌, ◌++◌,
  append_assoc, append-nil, Bytes, arith, add_size, size_mod, length, take, length-append,
  length-set, take-set, ltb, leb, lt→ltb, le→leb,
}
use vantiq_sdk_micro.Memory.{
  World, at_live, M, Run, and_then, ok, pure, ◌>>◌, assert, in_bounds, Granting, cells_of,
  allocate_or_abort_granted, free_lem,
}
use vantiq_sdk_micro.Memory.Returns.{Returns, returns, bind, mono, assert-true, in_bounds-true}
use vantiq_sdk_micro.Buf.{
  Vmebuf, min_buf_size, put, push, copy_in, concat, read_block, tostr, free_cells, freed, dealloc,
}
use vantiq_sdk_micro.Buf.Growth.{
  IsBuf, Holds, length-contents, Grown, Allocated, ensure_size-Grown, at_least_min_bounds,
  IsBuf-cells,
}

-- The buffer holds `s`, and nothing else has changed.
pub record Left (s : Bytes) (w : World) (b : Vmebuf) (w' : World) : Type 0 where
  pub holds : Holds s b
  pub same_world : w' ≡ w

-- the same, and the block has kept its size
pub record Filled (s : Bytes) (limit : ℕ) (w : World) (b : Vmebuf) (w' : World) : Type 0 where
  pub holds : Holds s b
  pub same_limit : b.limit ≡ limit
  pub same_world : w' ≡ w

pub put-Filled :
    {s : Bytes} {b : Vmebuf} (c : ℕ) (w : World)
    → Holds s b
    → b.len < b.limit
    → Returns (Filled (s ++ c ∷ []) b.limit w) (put b c w)
unfolding put
put-Filled {s} {b} c w h room =
    let v = h.is_buf in
    let next : add_size b.len 1 ≡ suc b.len = omega (arith, v.fits) in
    let inside : b.len < length (cells_of b.cells) = omega (arith, v.sized) in
    in_bounds-true (ltb b.len (length (cells_of b.cells))) w _ (lt→ltb _ _ inside) (
      rw next (
        returns (record {
          holds = record {
            is_buf = record {
              sized = length-set (cells_of b.cells) b.len c ∙ v.sized;
              within = room;
              least = v.least;
              fits = v.fits;
            };
            bytes = take-set b.len (cells_of b.cells) c inside ∙ ap (λ t. t ++ (c ∷ [])) h.bytes;
          };
          same_limit = refl;
          same_world = refl;
        })))

pub copy_in-Filled :
    {s : Bytes} {b : Vmebuf} (src : Bytes) (n : ℕ) (w : World)
    → Holds s b
    → n ≤ length src
    → b.len + n ≤ b.limit
    → Returns (Filled (s ++ take n src) b.limit w) (copy_in b src n w)
unfolding copy_in
copy_in-Filled {s} src zero w h k room =
    returns (record { holds = rw append-nil h; same_limit = refl; same_world = refl })
copy_in-Filled [] (suc n) w h k room = absurd (omega arith)
copy_in-Filled {s} {b} (c ∷ src) (suc n) w h k room =
    bind (put-Filled c w h (omega arith)) λ b' w' q.
      mono
        (copy_in-Filled src n w' q.holds (omega arith)
          (omega (arith, q.same_limit, longer b' q.holds)))
        λ b'' w'' r. record {
          holds = rw append_assoc at r.holds;
          same_limit = r.same_limit ∙ q.same_limit;
          same_world = r.same_world ∙ q.same_world;
        }
  where
    longer : (b' : Vmebuf) → Holds (s ++ c ∷ []) b' → b'.len ≡ suc b.len
    longer b' h' = omega (
      arith,
      length-contents h.is_buf,
      length-contents h'.is_buf,
      ap length h.bytes,
      ap length h'.bytes,
      length-append s (c ∷ []),
    )

pub Grown-Holds :
    {s : Bytes} {b b' : Vmebuf} {n : ℕ} {w w' : World} → Grown n b w b' w' → Holds s b → Holds s b'
Grown-Holds q h = record { is_buf = q.is_buf; bytes = q.same_bytes ∙ h.bytes }

-- the assertion that ends both functions
pub Filled-Left :
    {s : Bytes} {b : Vmebuf} {limit : ℕ} {w w₀ w' : World}
    → w₀ ≡ w
    → Filled s limit w₀ b w'
    → Returns (Left s w) ((assert (leb b.len b.limit) >> pure b) w')
Filled-Left {b} {w'} e q =
    assert-true (leb b.len b.limit) w' _ (le→leb b.len b.limit q.holds.is_buf.within)
      (returns (record { holds = q.holds; same_world = q.same_world ∙ e }))

-- If every allocation is granted, the buffer is well-formed and holds s, and its length and 64
-- stay below 2 ^ 64, then vmebuf_push returns a well-formed buffer that holds s and the byte,
-- and changes nothing else.
pub push-Left :
    {s : Bytes} {b : Vmebuf} (c : ℕ) (w : World)
    → Granting w
    → Holds s b
    → b.len + min_buf_size < size_mod
    → Returns (Left (s ++ c ∷ []) w) (push b c w)
unfolding push
push-Left {s} {b} c w g h fits =
    let no_wrap : add_size b.len min_buf_size ≡ b.len + min_buf_size = omega arith in
    rw no_wrap (
      bind (ensure_size-Grown (b.len + min_buf_size) w g h.is_buf (ground arith) fits) λ r w' q.
        bind
          (put-Filled c w' (Grown-Holds q h)
            (omega (arith, at_least_min_bounds (b.len + min_buf_size), q.room, q.same_len)))
          λ r' w'' f. Filled-Left q.same_world f)

-- If every allocation is granted, the buffer is well-formed and holds s, the source has n bytes,
-- and the size asked for stays below 2 ^ 64, then vmebuf_concat returns a well-formed buffer
-- that holds s and the first n bytes of the source, and changes nothing else.
pub concat-Left :
    {s : Bytes} {b : Vmebuf} (src : Bytes) (n : ℕ) (w : World)
    → Granting w
    → Holds s b
    → n ≤ length src
    → b.len + n + n / 2 < size_mod
    → Returns (Left (s ++ take n src) w) (concat b src n w)
unfolding concat
concat-Left {s} {b} src n w g h k fits =
    let no_wrap : add_size (add_size b.len n) (n / 2) ≡ b.len + n + n / 2 = omega arith in
    rw no_wrap (
      bind (ensure_size-Grown (b.len + n + n / 2) w g h.is_buf (ground arith) fits) λ r w' q.
        bind
          (copy_in-Filled src n w' (Grown-Holds q h) k
            (omega (arith, at_least_min_bounds (b.len + n + n / 2), q.room, q.same_len)))
          λ r' w'' f. Filled-Left q.same_world f)

-- Reading inside a block gives its first cells.
pub read_block_lem :
    (cells : Bytes) (n : ℕ) (w : World)
    → n ≤ length cells
    → read_block cells n w ≡ ok (take n cells) w
unfolding read_block
read_block_lem cells n w h = rw (le→leb n (length cells) h)

-- `vmebuf_tostr` gives the bytes in use with a terminator behind them, in one new block.
pub tostr_lem :
    {s : Bytes} {b : Vmebuf} (w : World)
    → Granting w
    → Holds s b
    → tostr b w ≡ ok (s ++ 0 ∷ []) (record w { live = suc w.live })
unfolding tostr read_block
tostr_lem {s} {b} w g h =
    let v = h.is_buf in
    rw (
      allocate_or_abort_granted w g,
      le→leb b.len (length (cells_of b.cells)) (omega (arith, v.sized, v.within)),
      in_bounds,
      h.bytes,
    )

-- `vmebuf_dealloc` gives back the two blocks that the buffer is made of.
pub dealloc_lem :
    {b : Vmebuf} (n : ℕ) (w : World)
    → IsBuf b
    → w.live ≡ suc (suc n)
    → dealloc b w ≡ ok (freed b) (record w { live = n })
unfolding dealloc free_cells
dealloc_lem {b} n w v e =
    let (c, found) = IsBuf-cells v in
    ground (arith, found, free_lem (suc n) w e, free_lem n (record w { live = suc n }) refl)

-- A size with so much room below 2 ^ 64 that no reckoning of `buf.c` with it wraps.
abbrev pub IsSmall : ℕ → Type 0
IsSmall n = 2 * n + min_buf_size < size_mod

module _ {A : Type 0} {Q : A → World → Type 0} where
  -- To go on from a buffer that holds `s`, in the world as it was.
  pub Left-bind :
      {s : Bytes} {w : World} {r : Run Vmebuf} (k : Vmebuf → M A)
      → Returns (Left s w) r
      → ((b : Vmebuf) → Holds s b → Returns Q (k b w))
      → Returns Q (and_then r k)
  Left-bind k r next =
      bind r λ b w' q. subst (λ v. Returns Q (k b v)) (sym q.same_world) (next b q.holds)

  pub Grown-bind :
      {n : ℕ} {s : Bytes} {b : Vmebuf} {w : World} {r : Run Vmebuf} (k : Vmebuf → M A)
      → Holds s b
      → Returns (Grown n b w) r
      → ((b' : Vmebuf) → Holds s b' → b'.len ≡ b.len → Returns Q (k b' w))
      → Returns Q (and_then r k)
  Grown-bind k h r next = bind r λ b' w' q.
      subst (λ v. Returns Q (k b' v)) (sym q.same_world) (next b' (Grown-Holds q h) q.same_len)

  -- To go on from a fresh buffer, in the world with its two blocks.
  pub Allocated-bind :
      {n : ℕ} {w : World} {r : Run Vmebuf} (k : Vmebuf → M A)
      → Returns (Allocated n w) r
      → ((b : Vmebuf) → Holds [] b → Returns Q (k b (at_live w (suc (suc w.live)))))
      → Returns Q (and_then r k)
  Allocated-bind k r next =
      bind r λ b w' q. subst (λ v. Returns Q (k b v)) (sym q.two_blocks) (next b q.holds)

-- `vmebuf_concat(b, t, strlen(t))` appends the text of a C string.
pub concat_str-Left :
    {s : Bytes} {b : Vmebuf} (t : Bytes) (w : World)
    → Granting w
    → Holds s b
    → IsSmall (length s + length t)
    → Returns (Left (s ++ t) w) (concat b (t ++ 0 ∷ []) (length t) w)
concat_str-Left {s} {b} t w g h small = rw take_left at (
    concat-Left (t ++ 0 ∷ []) (length t) w g h (omega (arith, length-append t (0 ∷ [])))
      (omega (arith, length-contents h.is_buf, ap length h.bytes)))

pub push_small-Left :
    {s : Bytes} {b : Vmebuf} (c : ℕ) (w : World)
    → Granting w
    → Holds s b
    → IsSmall (length s)
    → Returns (Left (s ++ c ∷ []) w) (push b c w)
push_small-Left c w g h small =
    push-Left c w g h (omega (arith, length-contents h.is_buf, ap length h.bytes))
