-- ===== src/Number/RoundTrip.antt =====
-- What `%d` prints has few digits, all of them digits, and `atoi` reads it back.
use native.Mathlib.Nat.{pow-suc}
use vantiq_sdk_micro.Base.{
  ℕ, zero, suc, ◌+◌, ◌*◌, ◌/◌, ◌%◌, ◌^◌, ◌≤◌, ◌<◌, ◌≡◌, ◌∙◌, refl, true, false, inl, inr, some, [],
  ◌∷◌, ◌++◌, Bytes, arith, ◌==◌, length, Bool-cases, IsText, nil, cons,
}
use vantiq_sdk_micro.Number.{
  digits_onto, decimal, is_digit, is_space, scan_digits, skip_spaces, read_sign, atoi,
}

length-digits_onto :
    (f n k : ℕ) (out : Bytes) → n < 10 ^ suc k → length (digits_onto f n out) ≤ suc k + length out
unfolding digits_onto
length-digits_onto zero n k out h = omega arith
length-digits_onto (suc f) n zero out h = ground arith
length-digits_onto (suc f) n (suc k) out h =
    let big : n < 10 ^ suc k * 10 = rw pow-suc at h in
    ground (arith, length-digits_onto f (n / 10) k ((b'0' + n % 10) ∷ out) (omega arith))

IsText-digits_onto : (f n : ℕ) {out : Bytes} → IsText out → IsText (digits_onto f n out)
unfolding digits_onto
IsText-digits_onto zero n t = t
IsText-digits_onto (suc f) n t = elim (Bool-cases (n / 10 == 0)) [
  | inl last ↦ rw last (cons (omega arith) t)
  | inr more ↦ rw more (IsText-digits_onto f (n / 10) (cons (omega arith) t))
]

-- A decimal holds no NUL.
pub IsText-decimal : (n : ℕ) → IsText (decimal n)
unfolding decimal
IsText-decimal n = IsText-digits_onto (suc n) n nil

scan_digits-digits_onto :
    (f n : ℕ) (out : Bytes) → n < f → scan_digits (digits_onto f n out) 0 ≡ scan_digits out n
unfolding scan_digits digits_onto
scan_digits-digits_onto zero n out h = absurd (omega arith)
scan_digits-digits_onto (suc f) n out h = elim (Bool-cases (n / 10 == 0)) [
  | inl last ↦ rw last (ground arith)
  | inr more ↦
      rw more
        (scan_digits-digits_onto f (n / 10) ((b'0' + n % 10) ∷ out) (ground arith) ∙ ground arith)
]

-- The first of the digits is one.
head-digits_onto :
    (f n : ℕ) (out : Bytes)
    → n < f
    → (c : ℕ) × (s : Bytes) × (digits_onto f n out ≡ c ∷ s) × (is_digit c ≡ true)
unfolding digits_onto
head-digits_onto zero n out h = absurd (omega arith)
head-digits_onto (suc f) n out h = elim (Bool-cases (n / 10 == 0)) [
  | inl last ↦ rw last (b'0' + n % 10, out, refl, ground arith)
  | inr more ↦ rw more (head-digits_onto f (n / 10) ((b'0' + n % 10) ∷ out) (ground arith))
]

pub length-decimal : (n k : ℕ) → n < 10 ^ suc k → length (decimal n) ≤ suc k
unfolding decimal
length-decimal n k h = omega (arith, length-digits_onto (suc n) n k [] h)

digits_onto-append :
    (f n : ℕ) (out rest : Bytes) → digits_onto f n out ++ rest ≡ digits_onto f n (out ++ rest)
unfolding digits_onto
digits_onto-append zero n out rest = refl
digits_onto-append (suc f) n out rest =
    ground (arith, digits_onto-append f (n / 10) ((b'0' + n % 10) ∷ out) rest)

-- A text in which no digit comes next.
abbrev pub EndsNumber : Bytes → Type 0
EndsNumber [] = Unit
EndsNumber (c ∷ s) = is_digit c ≡ false

scan_digits_end : (rest : Bytes) (n : ℕ) → EndsNumber rest → scan_digits rest n ≡ n
unfolding scan_digits
scan_digits_end [] n e = refl
scan_digits_end (c ∷ rest) n e = rw e

atoi_digit :
    (c m : ℕ) (s : Bytes)
    → is_digit c ≡ true
    → scan_digits (c ∷ s) 0 ≡ m
    → m < 2 ^ 31
    → atoi (c ∷ s) ≡ some (false, m)
unfolding atoi skip_spaces read_sign
atoi_digit c m s d e h = ground arith

-- atoi reads back a number below 2 ^ 31 that was printed with %d, whatever stands behind its
-- digits that does not start with a digit.
pub atoi-decimal :
    (n : ℕ) (rest : Bytes)
    → n < 2 ^ 31
    → EndsNumber rest
    → atoi (decimal n ++ rest) ≡ some (false, n)
unfolding decimal
atoi-decimal n rest h e =
    let (c, s, first, d) = head-digits_onto (suc n) n rest (omega arith) in
    let read = scan_digits-digits_onto (suc n) n rest (omega arith) ∙ scan_digits_end rest n e in
    rw digits_onto-append (rw first (atoi_digit c n s d (rw first at read) h))

pub atoi_blank : (c : ℕ) (s : Bytes) → is_space c ≡ true → atoi (c ∷ s) ≡ atoi s
unfolding atoi skip_spaces
atoi_blank c s h = rw h
