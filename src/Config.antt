-- ===== src/Config.antt =====
-- src/vme/config.c: the file of the library's settings. A text that is read stands in its buffer up
-- to the first NUL; the two parts of a line are then C strings of their own.
pub mod Keys
pub mod RoundTrip
pub mod Assigned
pub mod Total
pub mod Printed
pub mod Comments
use vantiq_sdk_micro.Base.{
  ℕ, zero, suc, Bool, true, false, Option, none, some, [], ◌∷◌, ◌++◌, Bytes, codes, c_str, to_lower,
  length, ltb, ◌^◌, ◌==◌, if◌then◌else◌, ℤ, pos, negsuc,
}
use vantiq_sdk_micro.Memory.{M, pure, fault, ◌>>=◌, ◌>>◌, in_bounds}
use vantiq_sdk_micro.Number.{is_space}
use vantiq_sdk_micro.Client.Session.{last_char}
use vantiq_sdk_micro.Client.Transfer.{strdup}
use vantiq_sdk_micro.Log.{log_warn, log_set_level, vme_set_log_level}

-- `vmeconfig_t`: five blocks, each of which may be missing.
pub record Vmeconfig : Type 0 where
  pub dpi_port : Option Bytes
  pub dpi_socket_path : Option Bytes
  pub vantiq_url : Option Bytes
  pub vantiq_token : Option Bytes
  pub log_level : Option Bytes

-- what `memset` leaves
abbrev pub empty_config : Vmeconfig
empty_config = record {
  dpi_port = none;
  dpi_socket_path = none;
  vantiq_url = none;
  vantiq_token = none;
  log_level = none;
}

skip_space : Bytes → Bytes
skip_space [] = []
skip_space (c ∷ s) = let rest = skip_space s in if is_space c then rest else c ∷ s

until_space : Bytes → Bytes
until_space [] = []
until_space (c ∷ s) = let rest = until_space s in if is_space c then [] else c ∷ rest

-- The first word.
pub remove_spaces : Bytes → Bytes
unfolding skip_space until_space
remove_spaces s = until_space (skip_space s)

-- What stands in front of the separator and behind it.
pub find_first : Bytes → (sep : ℕ) → Option (Bytes × Bytes)
find_first [] sep = none
find_first (c ∷ s) sep =
    let later = find_first s sep in
    if c == sep then some ([], s) else elim later [ none ↦ none | some p ↦ some (c ∷ p.0, p.1) ]

abbrev no_more : Bytes → Bytes → Bool
no_more [] [] = true
no_more _ _ = false

-- The `do` loop of `cmp_strings`, from one position of both texts on. Two empty texts are read
-- behind their ends.
compare_from : Bytes → Bytes → M Bool
compare_from [] [] = λ w. fault
compare_from [] (d ∷ t) = pure false
compare_from (c ∷ s) [] = pure false
compare_from (c ∷ s) (d ∷ t) =
    if to_lower c == to_lower d
    then (if no_more s t then pure true else compare_from s t)
    else pure false

pub cmp_strings : Bytes → Bytes → M Bool
unfolding compare_from
cmp_strings a b = if length a == length b then compare_from a b else pure false

-- A URL gets a slash at its end. Of an empty text the byte in front of it would be read.
url_block : Bytes → M Bytes
url_block value = do
  last ← last_char value
  (if last == b'/' then strdup value else strdup (value ++ b'/' ∷ []))

set_url : Vmeconfig → Bytes → M (Vmeconfig × Bool)
unfolding url_block
set_url config value = do u ← url_block value; pure (record config { vantiq_url = some u }, true)

set_level : Vmeconfig → Bytes → M (Vmeconfig × Bool)
set_level config value = do v ← strdup value; pure (record config { log_level = some v }, true)

-- The block that a repeated key had is not given back.
pub set_config_param : Vmeconfig → (key value : Bytes) → M (Vmeconfig × Bool)
unfolding set_url set_level
set_config_param config key value = do
  is_port ← cmp_strings key (codes "DPIPORT")
  (if is_port then (do v ← strdup value; pure (record config { dpi_port = some v }, true)) else (do
    is_path ← cmp_strings key (codes "DPISOCKETPATH")
    (if is_path
        then (do v ← strdup value; pure (record config { dpi_socket_path = some v }, true))
        else (do
          is_url ← cmp_strings key (codes "VANTIQ_BASEURL")
          (if is_url then set_url config value else (do
            is_token ← cmp_strings key (codes "VANTIQTOKEN")
            (if is_token
                then (do v ← strdup value; pure (record config { vantiq_token = some v }, true))
                else (do
                  is_level ← cmp_strings key (codes "LOG_LEVEL")
                  (if is_level then set_level config value else pure (config, false))))))))))

-- `fgets` of at most `n` bytes: up to and with the first newline.
pub fgets : (n : ℕ) → Bytes → Bytes × Bytes
fgets zero file = ([], file)
fgets (suc n) [] = ([], [])
fgets (suc n) (c ∷ file) =
    let rest = fgets n file in if c == b'\n' then (c ∷ [], file) else (c ∷ rest.0, rest.1)

-- MAXLINELENGTH less the terminator
abbrev pub line_room : ℕ
line_room = 1023

-- What is made of the two parts of a line: the value may not be empty.
set_pair : Vmeconfig → Option (Bytes × Bytes) → M (Vmeconfig × Bool)
set_pair config none = pure (config, false)
set_pair config (some (key, value)) =
    if length (remove_spaces value) == 0
    then pure (config, false)
    else set_config_param config (remove_spaces key) (remove_spaces value)

-- One round of the loop, on what `fgets` has read.
parse_line : Vmeconfig → Bytes → M (Vmeconfig × Bool)
unfolding set_pair
parse_line config [] = pure (config, false)
parse_line config (c ∷ s) =
    if c == b'#' then pure (config, false) else set_pair config (find_first (c ∷ s) b'=')

-- `lines++` of an `int`, whose overflow is undefined.
pub count_line : (is_set : Bool) → (lines : ℕ) → M ℕ
count_line true lines = do in_bounds (ltb (suc lines) (2 ^ 31)); pure (suc lines)
count_line false lines = pure lines

-- The loop: every round but the last reads a byte, so the file's length is fuel enough.
parse_lines : ℕ → Bytes → Vmeconfig → (lines : ℕ) → M (Vmeconfig × ℕ)
unfolding parse_line count_line
parse_lines fuel [] config lines = pure (config, lines)
parse_lines zero (c ∷ file) config lines = λ w. fault
parse_lines (suc fuel) (c ∷ file) config lines = do
  let (line, rest) = fgets line_room (c ∷ file)
  (config, is_set) ← parse_line config (c_str line)
  lines ← count_line is_set lines
  parse_lines fuel rest config lines

pub parse_keys_vals : (file : Bytes) → Vmeconfig → M (Vmeconfig × ℕ)
unfolding parse_lines
parse_keys_vals file config = parse_lines (length file) file config 0

pub set_level_of : Option Bytes → M (Unit {0})
set_level_of none = log_set_level log_warn
set_level_of (some level) = vme_set_log_level (c_str level)

-- `vme_parse_config`, of a file that cannot be opened or of its bytes
unfoldable pub vme_parse_config : Option Bytes → M (Vmeconfig × ℤ)
unfolding set_level_of
vme_parse_config none = pure (empty_config, negsuc 0)
vme_parse_config (some file) = do
  (config, n) ← parse_keys_vals file empty_config
  set_level_of config.log_level
  pure (config, pos n)
