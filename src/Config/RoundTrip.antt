-- ===== src/Config/RoundTrip.antt =====
-- A file of settings, printed one to a line, is read by src/vme/config.c as those settings.
use vantiq_sdk_micro.Base.{
  ℕ, zero, suc, ◌+◌, ◌-◌, ◌≤◌, ◌≡◌, refl, ap, ◌∙◌, Bool, true, false, not, ◌&&◌, some, List, [],
  ◌∷◌, ◌++◌, Bytes, arith, length, length-append, ◌==◌, c_str,
}
use vantiq_sdk_micro.Memory.{World, M, Run, ok, aborted, refused, fault, and_then, pure, ◌>>=◌}
use vantiq_sdk_micro.Number.{is_space}
use vantiq_sdk_micro.Config.{
  Vmeconfig, skip_space, until_space, remove_spaces, find_first, set_config_param, fgets, line_room,
  set_pair, count_line, parse_line, parse_lines, parse_keys_vals,
}

-- A byte that can stand in a key or a value: no blank, no separator, no terminator.
abbrev pub is_plain : ℕ → Bool
is_plain c = not (is_space c) && (not (c == b'=') && not (c == 0))

abbrev pub all_plain : Bytes → Bool
all_plain [] = true
all_plain (c ∷ s) = is_plain c && all_plain s

-- A setting that can be printed: both texts are words, the key is no comment, and the line fits.
pub record IsSetting (s : Bytes × Bytes) : Type 0 where
  pub key : all_plain s.0 ≡ true
  pub value : all_plain s.1 ≡ true
  pub key_from : (c : ℕ) × (k : Bytes) × (s.0 ≡ c ∷ k) × ((c == b'#') ≡ false)
  pub value_from : (d : ℕ) × (v : Bytes) × (s.1 ≡ d ∷ v)
  pub fits : length s.0 + length s.1 + 2 ≤ line_room

abbrev pub printed_line : Bytes × Bytes → Bytes
printed_line s = s.0 ++ b'=' ∷ (s.1 ++ b'\n' ∷ [])

abbrev pub printed : List (Bytes × Bytes) → Bytes
printed [] = []
printed (s ∷ ss) = s.0 ++ b'=' ∷ (s.1 ++ b'\n' ∷ printed ss)

-- What a plain byte is not.
module _ (c : ℕ) (s : Bytes) (h : all_plain (c ∷ s) ≡ true) where
  no_space : is_space c ≡ false
  no_space = ground arith

  no_separator : (c == b'=') ≡ false
  no_separator = ground arith

  no_newline : (c == b'\n') ≡ false
  no_newline = ground arith

  no_end : (c == 0) ≡ false
  no_end = ground arith

  all_behind : all_plain s ≡ true
  all_behind = ground arith

until_space-plain : (s rest : Bytes) → all_plain s ≡ true → until_space (s ++ b'\n' ∷ rest) ≡ s
unfolding until_space
until_space-plain [] rest h = refl
until_space-plain (c ∷ s) rest h =
    rw (no_space c s h) (ap (λ t. c ∷ t) (until_space-plain s rest (all_behind c s h)))

until_space_all : (s : Bytes) → all_plain s ≡ true → until_space s ≡ s
unfolding until_space
until_space_all [] h = refl
until_space_all (c ∷ s) h =
    rw (no_space c s h) (ap (λ t. c ∷ t) (until_space_all s (all_behind c s h)))

find_first-plain :
    (s rest : Bytes) → all_plain s ≡ true → find_first (s ++ b'=' ∷ rest) b'=' ≡ some (s, rest)
unfolding find_first
find_first-plain [] rest h = refl
find_first-plain (c ∷ s) rest h =
    rw (no_separator c s h, find_first-plain s rest (all_behind c s h)) refl

c_str-plain : (s rest : Bytes) → all_plain s ≡ true → c_str (s ++ rest) ≡ s ++ c_str rest
unfolding c_str
c_str-plain [] rest h = refl
c_str-plain (c ∷ s) rest h =
    rw (c_str, no_end c s h) (ap (λ t. c ∷ t) (c_str-plain s rest (all_behind c s h)))

c_str-printed_line :
    (key value : Bytes)
    → all_plain key ≡ true
    → all_plain value ≡ true
    → c_str (printed_line (key, value)) ≡ printed_line (key, value)
unfolding c_str
c_str-printed_line key value h k =
    c_str-plain key (b'=' ∷ (value ++ b'\n' ∷ [])) h
    ∙ ap (λ t. key ++ b'=' ∷ t) (c_str-plain value (b'\n' ∷ []) k)

-- `fgets` goes on behind plain bytes with the room that is left.
fgets-plain :
    (m n : ℕ) (s rest : Bytes)
    → all_plain s ≡ true
    → n ≡ length s + m
    → fgets n (s ++ rest) ≡ (s ++ (fgets m rest).0, (fgets m rest).1)
unfolding fgets
fgets-plain m n [] rest h e = ap (λ k. fgets k rest) (e ∙ omega arith)
fgets-plain m zero (c ∷ s) rest h e = absurd (omega arith)
fgets-plain m (suc n) (c ∷ s) rest h e =
    rw (no_newline c s h, fgets-plain m n s rest (all_behind c s h) (omega arith)) refl

fgets-printed_line :
    (key value file : Bytes)
    → all_plain key ≡ true
    → all_plain value ≡ true
    → length key + length value + 2 ≤ line_room
    → fgets line_room (key ++ b'=' ∷ (value ++ b'\n' ∷ file)) ≡ (printed_line (key, value), file)
unfolding fgets
fgets-printed_line key value file h k fits =
    let last = 1021 - length key - length value in
    let behind = length value + suc last in
    let first =
      fgets-plain (suc behind) line_room key (b'=' ∷ (value ++ b'\n' ∷ file)) h (omega arith) in
    let second = fgets-plain (suc last) behind value (b'\n' ∷ file) k refl in
    first ∙ ap (λ r. (key ++ b'=' ∷ r.0, r.1)) second

parse_line-printed_line :
    (config : Vmeconfig) (c : ℕ) (k : Bytes) (d : ℕ) (v : Bytes)
    → all_plain (c ∷ k) ≡ true
    → all_plain (d ∷ v) ≡ true
    → (c == b'#') ≡ false
    → parse_line config (printed_line (c ∷ k, d ∷ v)) ≡ set_config_param config (c ∷ k) (d ∷ v)
unfolding parse_line set_pair remove_spaces skip_space
parse_line-printed_line config c k d v h l no_comment =
    let some_bytes : (length (d ∷ v) == 0) ≡ false = ground arith in
    rw
      (
        no_comment,
        find_first-plain (c ∷ k) (d ∷ (v ++ b'\n' ∷ [])) h,
        no_space c k h,
        no_space d v l,
        until_space-plain (d ∷ v) [] l,
        until_space_all (c ∷ k) h,
        some_bytes,
      )
      refl

-- The settings one by one, with the number of those that are known.
abbrev pub apply_all : List (Bytes × Bytes) → Vmeconfig → ℕ → M (Vmeconfig × ℕ)
apply_all [] config n = pure (config, n)
apply_all (s ∷ ss) config n = do
  (config, is_set) ← set_config_param config s.0 s.1
  n ← count_line is_set n
  apply_all ss config n

-- All settings can be printed.
abbrev pub AllSettings : List (Bytes × Bytes) → Type 0
AllSettings [] = Unit
AllSettings (s ∷ ss) = IsSetting s × AllSettings ss

pub and_then-ap :
    {A B : Type 0} (r : Run A) {k l : A → M B}
    → ((a : A) (w : World) → k a w ≡ l a w)
    → and_then r k ≡ and_then r l
and_then-ap (ok a w) h = h a w
and_then-ap aborted h = refl
and_then-ap refused h = refl
and_then-ap fault h = refl

-- One round of the loop reads one printed setting.
parse_lines-step :
    (fuel c : ℕ) (k : Bytes) (d : ℕ) (v file : Bytes) (config : Vmeconfig) (n : ℕ) (w : World)
    → all_plain (c ∷ k) ≡ true
    → all_plain (d ∷ v) ≡ true
    → (c == b'#') ≡ false
    → length (c ∷ k) + length (d ∷ v) + 2 ≤ line_room
    → parse_lines (suc fuel) ((c ∷ k) ++ b'=' ∷ (d ∷ v ++ b'\n' ∷ file)) config n w
      ≡ and_then
          (set_config_param config (c ∷ k) (d ∷ v) w)
          λ r. count_line r.1 n >>= λ m. parse_lines fuel file r.0 m
unfolding parse_lines
parse_lines-step fuel c k d v file config n w h l no_comment fits =
    rw
      (
        fgets-printed_line (c ∷ k) (d ∷ v) file h l fits,
        c_str-printed_line (c ∷ k) (d ∷ v) h l,
        parse_line-printed_line config c k d v h l no_comment,
      )
      refl

parse_lines-printed :
    (fuel : ℕ) (ss : List (Bytes × Bytes)) (config : Vmeconfig) (n : ℕ) (w : World)
    → AllSettings ss
    → length (printed ss) ≤ fuel
    → parse_lines fuel (printed ss) config n w ≡ apply_all ss config n w
unfolding parse_lines
parse_lines-printed fuel [] config n w a h = refl
parse_lines-printed zero ((key, value) ∷ ss) config n w (v, a) h =
    absurd (omega (arith, length-append key (b'=' ∷ (value ++ b'\n' ∷ printed ss))))
parse_lines-printed (suc fuel) ((key, value) ∷ ss) config n w (v, a) h =
    let (c, k, e, no_comment) = v.key_from in
    let (d, u, f) = v.value_from in
    let rest = length-append value (b'\n' ∷ printed ss) in
    let whole = length-append key (b'=' ∷ (value ++ b'\n' ∷ printed ss)) in
    let enough : length (printed ss) ≤ fuel = omega (arith, rest, whole) in
    let fits : length (c ∷ k) + length (d ∷ u) + 2 ≤ line_room =
      omega (arith, v.fits, ap length e, ap length f) in
    rw (e, f)
      (parse_lines-step fuel c k d u (printed ss) config n w (rw e at v.key) (rw f at v.value)
          no_comment fits
        ∙ and_then-ap (set_config_param config (c ∷ k) (d ∷ u) w) λ r u'.
          and_then-ap (count_line r.1 n u') λ m u''. parse_lines-printed fuel ss r.0 m u'' a enough)

-- A file of settings that are printed one to a line as key=value is read as those settings in
-- order, each set as set_config_param sets it, with the number of those that are known, whatever
-- the allocator does: provided that keys and values are not empty, have no blank, no equals sign
-- and no NUL, that no key starts with #, and that each line has at most 1023 bytes.
pub parse_keys_vals-printed :
    (ss : List (Bytes × Bytes)) (config : Vmeconfig) (w : World)
    → AllSettings ss
    → parse_keys_vals (printed ss) config w ≡ apply_all ss config 0 w
unfolding parse_keys_vals
parse_keys_vals-printed ss config w a =
    parse_lines-printed (length (printed ss)) ss config 0 w a (omega arith)
