-- ===== src/Memory/Returns.antt =====
-- Total correctness of a call: it returns, and what it returns and leaves behind satisfies `P`.
use mathlib.Core.Path.{ap₂}
use vantiq_sdk_micro.Base.{◌≡◌, Bool, true}
use vantiq_sdk_micro.Memory.{World, Run, ok, M, and_then, assert, in_bounds}

pub data Returns {A : Type 0} (P : A → World → Type 0) : Run A → Type 0 where
  returns : {a : A} {w : World} → P a w → Returns P (ok a w)

-- The call returns just that.
pub data Is {A : Type 0} (a : A) (w : World) (x : A) (v : World) : Type 0 where
  just : x ≡ a → v ≡ w → Is a w x v

pub eq_of_Returns : {A : Type 0} {a : A} {w : World} {r : Run A} → Returns (Is a w) r → r ≡ ok a w
eq_of_Returns (returns (just p q)) = ap₂ ok p q

module _ {A : Type 0} {P : A → World → Type 0} where
  pub bind :
      {B : Type 0} {Q : B → World → Type 0} {r : Run A} {k : A → M B}
      → Returns P r
      → ((a : A) (w : World) → P a w → Returns Q (k a w))
      → Returns Q (and_then r k)
  bind (returns p) next = next _ _ p

  pub mono :
      {Q : A → World → Type 0} {r : Run A}
      → Returns P r
      → ((a : A) (w : World) → P a w → Q a w)
      → Returns Q r
  mono (returns p) weaken = returns (weaken _ _ p)

  -- An assertion that holds, and an access in bounds, do nothing.
  pub assert-true :
      (b : Bool) (w : World) (k : Unit {0} → M A)
      → b ≡ true
      → Returns P (k tt w)
      → Returns P (and_then (assert b w) k)
  assert-true b w k e h = rw e h

  pub in_bounds-true :
      (b : Bool) (w : World) (k : Unit {0} → M A)
      → b ≡ true
      → Returns P (k tt w)
      → Returns P (and_then (in_bounds b w) k)
  in_bounds-true b w k e h = rw e h
