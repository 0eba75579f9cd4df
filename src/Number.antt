-- ===== src/Number.antt =====
-- How the C library prints and reads numbers, as src/vme/utils.c and src/vme/vme.c use `%d`
-- and src/vme/vantiq_client.c uses `atoi`.
pub mod RoundTrip
use vantiq_sdk_micro.Base.{
  ℕ, zero, suc, ◌+◌, ◌-◌, ◌*◌, ◌/◌, ◌%◌, ◌^◌, Bool, true, false, ◌&&◌, ◌||◌, Option, none, some, [],
  ◌∷◌, Bytes, leb, ltb, ◌==◌, if◌then◌else◌,
}

-- The digits of `n` in front of `out`; one unit of fuel for each of them.
digits_onto : ℕ → ℕ → Bytes → Bytes
digits_onto zero n out = out
digits_onto (suc f) n out =
    let d = b'0' + n % 10 in
    let rest = digits_onto f (n / 10) (d ∷ out) in if n / 10 == 0 then d ∷ out else rest

-- `%d` of a number that is not negative. There are no more digits than the number counts.
unfoldable pub decimal : ℕ → Bytes
unfolding digits_onto
decimal n = digits_onto (suc n) n []

abbrev pub is_digit : ℕ → Bool
is_digit c = leb b'0' c && leb c b'9'

-- `isspace` of the C locale.
abbrev pub is_space : ℕ → Bool
is_space c = c == b' ' || leb 9 c && leb c 13

scan_digits : Bytes → ℕ → ℕ
scan_digits [] n = n
scan_digits (c ∷ s) n =
    let rest = scan_digits s (n * 10 + (c - b'0')) in if is_digit c then rest else n

skip_spaces : Bytes → Bytes
skip_spaces [] = []
skip_spaces (c ∷ s) = let rest = skip_spaces s in if is_space c then rest else c ∷ s

-- A sign and a magnitude; a value that is no `int` is undefined, `none`.
abbrev int_range : Bool → ℕ → Option (Bool × ℕ)
int_range true n = if leb n (2 ^ 31) then some (true, n) else none
int_range false n = if ltb n (2 ^ 31) then some (false, n) else none

read_sign : Bytes → Option (Bool × ℕ)
unfolding scan_digits
read_sign [] = some (false, 0)
read_sign (c ∷ s) =
    if c == b'-'
    then int_range true (scan_digits s 0)
    else if c == b'+'
    then int_range false (scan_digits s 0)
    else int_range false (scan_digits (c ∷ s) 0)

-- `atoi`; the flag says that the number is negative.
unfoldable pub atoi : Bytes → Option (Bool × ℕ)
unfolding skip_spaces read_sign
atoi s = read_sign (skip_spaces s)

-- The `uint32_t` that an `int` is assigned to.
abbrev pub to_uint32 : Bool → ℕ → ℕ
to_uint32 true n = (2 ^ 32 - n) % 2 ^ 32
to_uint32 false n = n
