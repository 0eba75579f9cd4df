-- ===== src/Base/Text.antt =====
-- Bytes, and C strings as the bytes in front of their terminator.
use Prim.Native.Nat.{ℕ, ◌+◌, ◌-◌}
use Prim.Native.Char.{code}
use Prim.Native.String.{String}
use mathlib.Core.Path.{◌≡◌, refl}
use mathlib.Core.Logic.{◌≢◌}
use mathlib.Core.Bool.{Bool, true, false, not, ◌&&◌}
use mathlib.Core.List.{List, [], ◌∷◌, ◌++◌}
use native.Mathlib.Omega.{arith}
use vantiq_sdk_micro.Base.Lists.{length, take}
use vantiq_sdk_micro.Base.Logic.{leb, ◌==◌, if◌then◌else◌}

abbrev pub Bytes : Type 0
Bytes = List ℕ

-- The code points of a literal: its bytes, since every literal here is ASCII.
abbrev pub codes : String → Bytes
codes String.[] = []
codes (String.◌∷◌ c s) = code c ∷ codes s

-- The C string that starts at a block's first byte: what stands before the first NUL.
unfoldable pub c_str : Bytes → Bytes
c_str [] = []
c_str (c ∷ cs) = elim (c == 0) [ true ↦ [] | false ↦ c ∷ c_str cs ]

-- A text that can be a C string.
pub data IsText : Bytes → Type 0 where
  nil : IsText []
  cons : {c : ℕ} {cs : Bytes} → c ≢ 0 → IsText cs → IsText (c ∷ cs)

pub IsText-append : {s t : Bytes} → IsText s → IsText t → IsText (s ++ t)
IsText-append nil k = k
IsText-append (cons h t) k = cons h (IsText-append t k)

pub c_str-terminated : {s : Bytes} (rest : Bytes) → IsText s → c_str (s ++ (0 ∷ rest)) ≡ s
unfolding c_str
c_str-terminated rest nil = refl
c_str-terminated rest (cons {c} {cs} h t) = ground (arith, c_str-terminated rest t)

-- Bytewise equality, as `strcmp(a, b) == 0` and `memcmp` of two blocks of one size decide it.
abbrev pub eq_bytes : Bytes → Bytes → Bool
eq_bytes [] [] = true
eq_bytes (x ∷ xs) (y ∷ ys) = x == y && eq_bytes xs ys
eq_bytes _ _ = false

pub eq_bytes→eq : (a b : Bytes) → eq_bytes a b ≡ true → a ≡ b
eq_bytes→eq [] [] h = refl
eq_bytes→eq (x ∷ a) (y ∷ b) h = ground (arith, eq_bytes→eq a b)
eq_bytes→eq [] (y ∷ b) h = ground arith
eq_bytes→eq (x ∷ a) [] h = ground arith

pub eq_bytes_refl : (a : Bytes) → eq_bytes a a ≡ true
eq_bytes_refl [] = refl
eq_bytes_refl (x ∷ a) = ground (arith, eq_bytes_refl a)

-- `tolower` of the C locale.
abbrev pub to_lower : ℕ → ℕ
to_lower c = if leb b'A' c && leb c b'Z' then c + 32 else c

-- `snprintf(p, size, …)` of a text: the length that it wanted, and what is in `p`.
abbrev pub snprintf : ℕ → Bytes → ℕ × Bytes
snprintf size text = (length text, take (size - 1) text)

-- The text is not empty, and `c` is its last byte.
abbrev pub ends_in : ℕ → Bytes → Bool
ends_in c [] = false
ends_in c (x ∷ []) = x == c
ends_in c (x ∷ y ∷ s) = ends_in c (y ∷ s)

pub ends_in-append :
    (c : ℕ) (s : Bytes) (x : ℕ) (t : Bytes) → ends_in c (s ++ (x ∷ t)) ≡ ends_in c (x ∷ t)
ends_in-append c [] x t = refl
ends_in-append c (y ∷ []) x t = refl
ends_in-append c (y ∷ z ∷ s) x t = ends_in-append c (z ∷ s) x t

-- Whether there is no NUL.
abbrev pub is_text : Bytes → Bool
is_text [] = true
is_text (c ∷ cs) = not (c == 0) && is_text cs

pub is_text→IsText : (s : Bytes) → is_text s ≡ true → IsText s
is_text→IsText [] h = nil
is_text→IsText (c ∷ cs) h = cons (ground arith) (is_text→IsText cs (ground arith))
