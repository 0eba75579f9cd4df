-- ===== src/Memory/Safe.antt =====
-- Safety of a call, whatever the allocator does: it may be stopped by an assertion, but it never goes
-- on with memory that was refused and never leaves its memory, and what it returns satisfies `P`.
use vantiq_sdk_micro.Base.{
  ℕ, zero, suc, ◌+◌, ◌≡◌, refl, ap, arith, Bool, true, false, Option, none, some, Bytes,
}
use vantiq_sdk_micro.Memory.{
  World, Run, ok, aborted, M, and_then, assert, grant_in, resize_cells, realloc_or_abort,
}
use vantiq_sdk_micro.Memory.Returns.{Returns, returns}

pub data Safe {A : Type 0} (P : A → World → Type 0) : Run A → Type 0 where
  safe : {a : A} {w : World} → P a w → Safe P (ok a w)
  aborts : Safe P aborted

pub Returns-Safe : {A : Type 0} {P : A → World → Type 0} {r : Run A} → Returns P r → Safe P r
Returns-Safe (returns p) = safe p

-- Nothing has changed but how much the allocator still grants.
abbrev pub Rationed : World → World → Type 0
Rationed w u = (r : Option ℕ) × (u ≡ record w { ration = r })

module _ {A : Type 0} {P : A → World → Type 0} where
  pub bind-Safe :
      {B : Type 0} {Q : B → World → Type 0} {r : Run A} {k : A → M B}
      → Safe P r
      → ((a : A) (w : World) → P a w → Safe Q (k a w))
      → Safe Q (and_then r k)
  bind-Safe (safe p) next = next _ _ p
  bind-Safe aborts next = aborts

  pub mono-Safe :
      {Q : A → World → Type 0} {r : Run A}
      → Safe P r
      → ((a : A) (w : World) → P a w → Q a w)
      → Safe Q r
  mono-Safe (safe p) weaken = safe (weaken _ _ p)
  mono-Safe aborts weaken = aborts

  -- An assertion stops the run or does nothing.
  pub assert-Safe :
      (b : Bool) (w : World) (k : Unit {0} → M A)
      → Safe P (k tt w)
      → Safe P (and_then (assert b w) k)
  assert-Safe true w k h = h
  assert-Safe false w k h = aborts

  grant_in-Safe :
      (r : Option ℕ) (granted : Option ℕ → Run A) (stop : Run A)
      → ((q : Option ℕ) → Safe P (granted q))
      → Safe P stop
      → Safe P (grant_in r A granted stop)
  grant_in-Safe none granted stop h k = h none
  grant_in-Safe (some zero) granted stop h k = k
  grant_in-Safe (some (suc n)) granted stop h k = h (some n)

-- The cells of a block that has been resized.
abbrev pub Resized : Bytes → ℕ → World → Bytes → World → Type 0
Resized old n w cells u = (cells ≡ resize_cells w.junk old n) × Rationed w u

module _ (old : Bytes) (n : ℕ) (w : World) where
  same_live : (q : Option ℕ) → record w { live = 0 + w.live; ration = q } ≡ record w { ration = q }
  same_live q =
      let e : 0 + w.live ≡ w.live = omega arith in ap (λ n. record w { live = n; ration = q }) e

  pub realloc_or_abort-Safe : Safe (Resized old n w) (realloc_or_abort (some old) n w)
  unfolding realloc_or_abort
  realloc_or_abort-Safe =
      grant_in-Safe w.ration _ aborted (λ q. safe (refl, (q, same_live q))) aborts
