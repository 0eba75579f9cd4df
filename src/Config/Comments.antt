-- ===== src/Config/Comments.antt =====
-- What src/vme/config.c makes of comments.
use vantiq_sdk_micro.Base.{
  ℕ, zero, suc, ◌+◌, ◌-◌, ◌≤◌, ◌≡◌, refl, ap, ◌∙◌, Bool, true, false, not, ◌&&◌, some, [], ◌∷◌,
  ◌++◌, append-nil, Bytes, arith, length, ◌==◌, c_str,
}
use vantiq_sdk_micro.Memory.{World}
use vantiq_sdk_micro.Config.{
  Vmeconfig, empty_config, fgets, line_room, count_line, parse_line, parse_lines, parse_keys_vals,
  vme_parse_config,
}
use vantiq_sdk_micro.Config.RoundTrip.{and_then-ap}
use vantiq_sdk_micro.Config.Total.{fgets_takes}

-- There is no newline in the text.
abbrev pub one_line : Bytes → Bool
one_line [] = true
one_line (c ∷ s) = not (c == b'\n') && one_line s

-- `fgets` goes on behind such a text with the room that is left.
fgets-one_line :
    (m n : ℕ) (s rest : Bytes)
    → one_line s ≡ true
    → n ≡ length s + m
    → fgets n (s ++ rest) ≡ (s ++ (fgets m rest).0, (fgets m rest).1)
unfolding fgets
fgets-one_line m n [] rest h e = ap (λ k. fgets k rest) (e ∙ omega arith)
fgets-one_line m zero (c ∷ s) rest h e = absurd (omega arith)
fgets-one_line m (suc n) (c ∷ s) rest h e =
    let here : (c == b'\n') ≡ false = ground arith in
    let later : one_line s ≡ true = ground arith in
    rw (here, fgets-one_line m n s rest later (omega arith)) refl

-- Any fuel that is enough gives the same.
parse_lines_fuel :
    (f g : ℕ) (file : Bytes) (config : Vmeconfig) (n : ℕ) (w : World)
    → length file ≤ f
    → length file ≤ g
    → parse_lines f file config n w ≡ parse_lines g file config n w
unfolding parse_lines
parse_lines_fuel f g [] config n w h k = refl
parse_lines_fuel zero g (c ∷ file) config n w h k = absurd (omega arith)
parse_lines_fuel (suc f) zero (c ∷ file) config n w h k = absurd (omega arith)
parse_lines_fuel (suc f) (suc g) (c ∷ file) config n w h k =
    let line = fgets line_room (c ∷ file) in
    let shorter : length line.1 ≤ length file = fgets_takes 1022 c file in
    and_then-ap (parse_line config (c_str line.0) w) λ r u.
      and_then-ap (count_line r.1 n u)
        λ m v. parse_lines_fuel f g line.1 r.0 m v (omega arith) (omega arith)

-- A line that begins with a hash is passed over.
parse_keys_vals-comment :
    (s t file : Bytes) (config : Vmeconfig) (w : World)
    → fgets line_room (b'#' ∷ s) ≡ (b'#' ∷ t, file)
    → parse_keys_vals (b'#' ∷ s) config w ≡ parse_keys_vals file config w
unfolding parse_keys_vals parse_lines parse_line c_str
parse_keys_vals-comment s t file config w e =
    let shorter : length file ≤ length s =
      omega (arith, ap (λ r. length r.1) e, fgets_takes 1022 b'#' s) in
    rw e (parse_lines_fuel (length s) (length file) file config 0 w shorter (omega arith))

-- A comment that fits the buffer is passed over.
pub vme_parse_config-comment :
    (s file : Bytes) (w : World)
    → one_line s ≡ true
    → length s ≤ 1021
    → vme_parse_config (some (b'#' ∷ (s ++ b'\n' ∷ file))) w ≡ vme_parse_config (some file) w
unfolding vme_parse_config fgets
vme_parse_config-comment s file w h fits =
    let m = 1021 - length s in
    let line = fgets-one_line (suc m) 1022 s (b'\n' ∷ file) h (omega arith) in
    rw
      (parse_keys_vals-comment (s ++ b'\n' ∷ file) (s ++ b'\n' ∷ []) file empty_config w
        (rw line refl))
      refl

-- A comment that has no newline in the 1023 bytes that the buffer of vme_parse_config has room
-- for, its hash included, is cut off there: what stands behind is read as if the file began with
-- it, with the same result and the same effects, whatever it is and whatever the allocator does.
pub vme_parse_config-line_room :
    (s file : Bytes) (w : World)
    → one_line s ≡ true
    → suc (length s) ≡ line_room
    → vme_parse_config (some (b'#' ∷ (s ++ file))) w ≡ vme_parse_config (some file) w
unfolding vme_parse_config fgets
vme_parse_config-line_room s file w h full =
    let line = fgets-one_line 0 1022 s file h (omega arith) in
    rw (parse_keys_vals-comment (s ++ file) s file empty_config w (rw (line, append-nil) refl)) refl
