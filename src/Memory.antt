-- ===== src/Memory.antt =====
-- The C run-time that every module stands on: the allocator, the process-wide state that calls
-- share, and the four ways a call can end. It models no file of its own: `malloc`, `realloc` and
-- `free` are used by all of them.
pub mod Returns
pub mod Safe
use vantiq_sdk_micro.Base.{
  ℕ, zero, suc, ◌+◌, ◌-◌, ◌≡◌, refl, ap, Bool, true, false, Option, none, some, List, [], ◌∷◌, ◌++◌,
  Bytes, length, take, take_nil, length-take, length-append, take-take-append, ◌≤◌, arith,
}

-- `live` counts the blocks that are allocated and not yet freed. `ration` is how many more requests
-- the allocator grants (`none`: every one); a run stops at its first refusal, so a count says all.
-- `junk` is what a fresh block happens to hold. `level` is the `L.level` of log.c. `app_calls` is
-- every call made of the application's receive callback so far, the latest first: the state pointer
-- and the bytes that it was given. `sockets` counts the sockets that are open.
pub record World : Type 0 where
  pub live : ℕ
  pub ration : Option ℕ
  pub junk : ℕ → ℕ
  pub level : ℕ
  pub app_calls : List (ℕ × Bytes)
  pub sockets : ℕ

-- The world with another count of live blocks.
abbrev pub at_live : World → ℕ → World
at_live w n = record w { live = n }

-- How a call ends: it returns; an `assert` fails; an allocation is refused and the code, which does
-- not look, goes on with NULL, where the model does not follow it; or it reads or writes outside its
-- memory. No theorem counts either of the last two as a good end.
pub data Run (A : Type 0) : Type 0 where
  ok : A → World → Run A
  aborted : Run A
  refused : Run A
  fault : Run A

abbrev pub M : Type 0 → Type 0
M A = World → Run A

abbrev pub pure : {A : Type 0} → A → M A
pure = ok

module _ {A B : Type 0} where
  abbrev pub and_then : Run A → (A → M B) → Run B
  and_then (ok a w) k = k a w
  and_then aborted k = aborted
  and_then refused k = refused
  and_then fault k = fault

  infixl 5 ◌>>=◌ ◌>>◌
  abbrev pub ◌>>=◌ : M A → (A → M B) → M B
  m >>= k = λ w. and_then (m w) k

  abbrev pub ◌>>◌ : M A → M B → M B
  m >> n = m >>= λ _. n

-- `assert(b)`.
abbrev pub assert : Bool → M (Unit {0})
assert true w = ok tt w
assert false w = aborted

-- An access that is in bounds exactly if `b`.
abbrev pub in_bounds : Bool → M (Unit {0})
in_bounds true w = ok tt w
in_bounds false w = fault

abbrev grant_in : Option ℕ → (A : Type 0) → (Option ℕ → Run A) → Run A → Run A
grant_in none A granted stop = granted none
grant_in (some zero) A granted stop = stop
grant_in (some (suc k)) A granted stop = granted (some k)

-- A `malloc` (or `strdup`) whose result is not looked at: it adds a live block.
unfoldable pub allocate : M (Unit {0})
allocate w =
    grant_in w.ration (Unit {0}) (λ r. ok tt (record w { live = suc w.live; ration = r })) refused

-- A `malloc` behind which `assert(p != NULL)` stands.
unfoldable pub allocate_or_abort : M (Unit {0})
allocate_or_abort w =
    grant_in w.ration (Unit {0}) (λ r. ok tt (record w { live = suc w.live; ration = r })) aborted

-- Freeing when nothing is allocated is a fault.
abbrev free_in : ℕ → World → Run (Unit {0})
free_in zero w = fault
free_in (suc n) w = ok tt (record w { live = n })

unfoldable pub free : M (Unit {0})
free w = free_in w.live w

-- `n` cells of a fresh block, the first of them at offset `i`.
abbrev pub fresh : (ℕ → ℕ) → ℕ → ℕ → Bytes
fresh junk i zero = []
fresh junk i (suc n) = junk i ∷ fresh junk (suc i) n

-- What a block of the cells `old` holds when it has been given `n` cells.
pub resize_cells : (ℕ → ℕ) → Bytes → ℕ → Bytes
resize_cells junk old n = take n old ++ fresh junk (length old) (n - length old)

abbrev block_count : Option Bytes → ℕ
block_count none = 1
block_count (some _) = 0

abbrev pub cells_of : Option Bytes → Bytes
cells_of none = []
cells_of (some cells) = cells

abbrev realloc : Run Bytes → Option Bytes → ℕ → M Bytes
realloc stop old n w =
    grant_in w.ration Bytes
      (λ r.
        ok (resize_cells w.junk (cells_of old) n)
          (record w { live = block_count old + w.live; ration = r }))
      stop

-- `p = realloc(p, n)`, where `none` is NULL: with `assert(p != NULL)` behind it, and with no look.
unfoldable pub realloc_or_abort : Option Bytes → ℕ → M Bytes
realloc_or_abort = realloc aborted

unfoldable pub realloc_unchecked : Option Bytes → ℕ → M Bytes
realloc_unchecked = realloc refused

-- Every request is granted from here on.
abbrev pub Granting : World → Type 0
Granting w = w.ration ≡ none

pub length-fresh : (junk : ℕ → ℕ) (i n : ℕ) → length (fresh junk i n) ≡ n
length-fresh junk i zero = refl
length-fresh junk i (suc n) = ap suc (length-fresh junk (suc i) n)

pub length-resize_cells :
    (junk : ℕ → ℕ) (old : Bytes) (n : ℕ) → length (resize_cells junk old n) ≡ n
unfolding resize_cells
length-resize_cells junk old n = omega (
  arith,
  length-append (take n old) (fresh junk (length old) (n - length old)),
  length-take n old,
  length-fresh junk (length old) (n - length old),
)

-- A resized block keeps the cells that both sizes have.
pub take-resize_cells :
    (junk : ℕ → ℕ) (old : Bytes) (m n : ℕ)
    → m ≤ n
    → m ≤ length old
    → take m (resize_cells junk old n) ≡ take m old
unfolding resize_cells
take-resize_cells junk old m n h k = take-take-append m n old _ h k

-- A new block holds what it happens to hold, from its first cell on.
pub resize_cells-new : (junk : ℕ → ℕ) (n : ℕ) → resize_cells junk [] n ≡ fresh junk 0 n
unfolding resize_cells
resize_cells-new junk n = rw take_nil (ap (fresh junk 0) (omega arith))

-- With every request granted the allocator never stops a run.
module _ (w : World) (g : Granting w) where
  pub allocate_granted : allocate w ≡ ok tt (record w { live = suc w.live })
  unfolding allocate
  allocate_granted = ground arith

  pub allocate_or_abort_granted : allocate_or_abort w ≡ ok tt (record w { live = suc w.live })
  unfolding allocate_or_abort
  allocate_or_abort_granted = ground arith

  pub realloc_or_abort_granted :
      (old : Bytes) (n : ℕ) → realloc_or_abort (some old) n w ≡ ok (resize_cells w.junk old n) w
  unfolding realloc_or_abort
  realloc_or_abort_granted old n = ground arith

  pub realloc_unchecked_granted :
      (old : Bytes) (n : ℕ) → realloc_unchecked (some old) n w ≡ ok (resize_cells w.junk old n) w
  unfolding realloc_unchecked
  realloc_unchecked_granted old n = ground arith

  pub realloc_or_abort_new :
      (n : ℕ)
      → realloc_or_abort none n w ≡ ok (resize_cells w.junk [] n) (record w { live = suc w.live })
  unfolding realloc_or_abort
  realloc_or_abort_new n = ground arith

pub free_lem : (n : ℕ) (w : World) → w.live ≡ suc n → free w ≡ ok tt (record w { live = n })
unfolding free
free_lem n w e = ground arith
