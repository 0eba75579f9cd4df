-- ===== src/Config/Keys.antt =====
-- How src/vme/config.c compares the keys.
use vantiq_sdk_micro.Base.{
  suc, ◌<◌, ◌≡◌, refl, ap, false, inl, inr, Bool-cases, [], ◌∷◌, Bytes, arith, length, to_lower,
  eq_bytes, ◌==◌, eqb_refl, eqb→eq, eq_bytes→eq,
}
use vantiq_sdk_micro.Memory.{World, ok}
use vantiq_sdk_micro.Config.{compare_from, cmp_strings}

abbrev pub lower : Bytes → Bytes
lower [] = []
lower (c ∷ s) = to_lower c ∷ lower s

compare_from_lem :
    (a b : Bytes) (w : World)
    → length a ≡ length b
    → 0 < length b
    → compare_from a b w ≡ ok (eq_bytes (lower a) (lower b)) w
unfolding compare_from
compare_from_lem [] [] w h k = absurd (omega arith)
compare_from_lem [] (d ∷ t) w h k = refl
compare_from_lem (c ∷ s) [] w h k = refl
compare_from_lem (c ∷ []) (d ∷ []) w h k = elim (Bool-cases (to_lower c == to_lower d)) [
  | inl same ↦ rw same refl
  | inr other ↦ rw other refl
]
compare_from_lem (c ∷ []) (d ∷ e ∷ t) w h k = absurd (omega arith)
compare_from_lem (c ∷ e ∷ s) (d ∷ []) w h k = absurd (omega arith)
compare_from_lem (c ∷ e ∷ s) (d ∷ f ∷ t) w h k = elim (Bool-cases (to_lower c == to_lower d)) [
  | inl same ↦ rw same (compare_from_lem (e ∷ s) (f ∷ t) w (omega arith) (omega arith))
  | inr other ↦ rw other refl
]

length-lower : (a : Bytes) → length (lower a) ≡ length a
length-lower [] = refl
length-lower (c ∷ a) = ap suc (length-lower a)

-- Texts of two lengths differ.
eq_bytes-length :
    (a b : Bytes) → (length a == length b) ≡ false → eq_bytes (lower a) (lower b) ≡ false
eq_bytes-length a b other = elim (Bool-cases (eq_bytes (lower a) (lower b))) [
  | inl same ↦
      let e = ap length (eq_bytes→eq (lower a) (lower b) same) in
      let n : length a ≡ length b = omega (arith, e, length-lower a, length-lower b) in
      absurd (ground (arith, n, eqb_refl (length a)))
  | inr differ ↦ differ
]

-- If the second text is not empty, cmp_strings decides whether the two texts are equal up to the
-- case of their letters, and reads no byte behind their ends.
pub cmp_strings_lem :
    (a b : Bytes) (w : World)
    → 0 < length b
    → cmp_strings a b w ≡ ok (eq_bytes (lower a) (lower b)) w
unfolding cmp_strings
cmp_strings_lem a b w k = elim (Bool-cases (length a == length b)) [
  | inl same ↦ rw same (compare_from_lem a b w (eqb→eq (length a) (length b) same) k)
  | inr other ↦ rw (other, eq_bytes-length a b other) refl
]
