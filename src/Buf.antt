-- ===== src/Buf.antt =====
-- src/vme/buf.c (declared in src/vme/vme.h): the expanding buffer. A pointer to a buffer is an
-- `Option Vmebuf` where the code takes NULL, and a `Vmebuf` where it asserts that there is none;
-- the buffer that a function has changed is what it returns.
pub mod Contents
pub mod Growth
pub mod Safety
use vantiq_sdk_micro.Base.{
  ℕ, zero, suc, ◌+◌, ◌*◌, ◌/◌, ◌&&◌, Option, none, some, [], ◌∷◌, ◌++◌, Bytes, if◌then◌else◌, ltb,
  leb, add_size, length, set, take,
}
use vantiq_sdk_micro.Memory.{
  World, M, pure, fault, ◌>>=◌, ◌>>◌, assert, in_bounds, allocate, allocate_or_abort, free,
  cells_of, realloc_or_abort, realloc_unchecked,
}

-- `vmebuf_t`; `cells` is the block behind its `data` pointer.
pub record Vmebuf : Type 0 where
  pub len : ℕ
  pub limit : ℕ
  pub cells : Option Bytes

-- MIN_BUF_SIZE, LRG_BUF_SIZE, SML_BUF_SIZE
abbrev pub min_buf_size : ℕ
min_buf_size = 64

abbrev pub lrg_buf_size : ℕ
lrg_buf_size = 1024 * 1024

abbrev pub sml_buf_size : ℕ
sml_buf_size = 1024

-- the new buffer of `vmebuf_ensure_size`, before it has a block
abbrev pub no_cells : Vmebuf
no_cells = record { len = 0; limit = 0; cells = none }

abbrev pub at_least_min : ℕ → ℕ
at_least_min n = if ltb n min_buf_size then min_buf_size else n

-- `vmebuf_ensure_size` on a buffer, with `newSize` already raised to the minimum
resize : Vmebuf → ℕ → M Vmebuf
resize b n =
    if ltb b.limit n
    then (do cells ← realloc_or_abort b.cells n; pure (record b { limit = n; cells = some cells }))
    else if leb n sml_buf_size && leb lrg_buf_size b.limit
    then (do cells ← realloc_unchecked b.cells n; pure (record b { limit = n; cells = some cells }))
    else pure b

pub ensure_size : Option Vmebuf → ℕ → M Vmebuf
unfolding resize
ensure_size none n = do allocate; resize no_cells (at_least_min n)
ensure_size (some b) n = resize b (at_least_min n)

abbrev len_of : Option Vmebuf → ℕ
len_of none = 0
len_of (some b) = b.len

pub ensure_incr_size : Option Vmebuf → ℕ → M Vmebuf
ensure_incr_size b incr = do
  r ← ensure_size b (add_size (len_of b) incr)
  assert (leb r.len r.limit)
  pure r

-- `vmebuf_alloc()`
abbrev pub alloc : M Vmebuf
alloc = ensure_size none 0

abbrev pub truncate : Vmebuf → M Vmebuf
truncate b = pure (record b { len = 0 })

-- `buf->data[buf->len++] = c`
pub put : Vmebuf → ℕ → M Vmebuf
put b c = do
  in_bounds (ltb b.len (length (cells_of b.cells)))
  pure (record b { len = add_size b.len 1; cells = some (set (cells_of b.cells) b.len c) })

pub push : Vmebuf → ℕ → M Vmebuf
push b c = do
  b ← ensure_size (some b) (add_size b.len min_buf_size)
  b ← put b c
  assert (leb b.len b.limit)
  pure b

-- The loop of `vmebuf_concat`, with the rounds left; past the end of the source it is a fault.
pub copy_in : Vmebuf → Bytes → ℕ → M Vmebuf
copy_in b src zero = pure b
copy_in b [] (suc n) = λ w. fault
copy_in b (c ∷ src) (suc n) = do b' ← put b c; copy_in b' src n

-- `src` is the block that the pointer leads to, of which `n` bytes are wanted. The two do not
-- overlap.
pub concat : Vmebuf → Bytes → ℕ → M Vmebuf
unfolding copy_in
concat b src n = do
  b ← ensure_size (some b) (add_size (add_size b.len n) (n / 2))
  b ← copy_in b src n
  assert (leb b.len b.limit)
  pure b

-- `memcpy` of the first `n` cells of a block
pub read_block : Bytes → ℕ → M Bytes
read_block cells n = do in_bounds (leb n (length cells)); pure (take n cells)

-- The new block, its terminator included.
pub tostr : Vmebuf → M Bytes
tostr b = do allocate_or_abort; s ← read_block (cells_of b.cells) b.len; pure (s ++ 0 ∷ [])

-- `free(NULL)` frees nothing.
free_cells : Option Bytes → M (Unit {0})
free_cells none = pure tt
free_cells (some _) = free

-- The buffer behind `vmebuf_dealloc`: nothing can be read through it any more.
abbrev pub freed : Vmebuf → Vmebuf
freed b = record b { cells = none }

pub dealloc : Vmebuf → M Vmebuf
unfolding free_cells
dealloc b = do free_cells b.cells; free; pure (freed b)
