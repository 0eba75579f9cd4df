-- ===== src/Config/Total.antt =====
-- What src/vme/config.c makes of any file.
use vantiq_sdk_micro.Base.{
  ℕ, zero, suc, ◌≤◌, ◌<◌, ◌≡◌, refl, Bool, true, false, Option, List, ◌^◌, lt→ltb, none, some, [],
  ◌∷◌, Bytes, c_str, arith, length, ◌==◌, if◌then◌else◌,
}
use vantiq_sdk_micro.Memory.{World, ok}
use vantiq_sdk_micro.Log.{log_warn, log_set_level}
use vantiq_sdk_micro.Log.Levels.{vme_set_log_level_any}
use vantiq_sdk_micro.Config.{
  Vmeconfig, remove_spaces, find_first, fgets, line_room, count_line, set_level_of,
}
use vantiq_sdk_micro.Config.Assigned.{assigned}

-- The setting that a line is, if it is one: it is no comment, there is a separator, and the first word
-- behind it is not empty. Its key is the first word in front.
abbrev named : Bytes → Bytes → Option (Bytes × Bytes)
named key [] = none
named key (c ∷ s) = some (key, c ∷ s)

abbrev words_of : Option (Bytes × Bytes) → Option (Bytes × Bytes)
words_of none = none
words_of (some (key, value)) = named (remove_spaces key) (remove_spaces value)

abbrev pub setting_of : Bytes → Option (Bytes × Bytes)
setting_of [] = none
setting_of (c ∷ s) = if c == b'#' then none else words_of (find_first (c ∷ s) b'=')

-- What a line that may be a setting makes of the struct.
abbrev taken : Vmeconfig → Option (Bytes × Bytes) → Vmeconfig × Bool
taken config none = (config, false)
taken config (some (key, value)) = assigned config key value

-- A line is never longer than the file, and takes something of a file that is not at its end.
fgets_shrinks : (n : ℕ) (file : Bytes) → length (fgets n file).1 ≤ length file
unfolding fgets
fgets_shrinks zero file = omega arith
fgets_shrinks (suc n) [] = omega arith
fgets_shrinks (suc n) (c ∷ file) = ground (arith, fgets_shrinks n file)

pub fgets_takes : (n c : ℕ) (file : Bytes) → length (fgets (suc n) (c ∷ file)).1 ≤ length file
unfolding fgets
fgets_takes n c file = ground (arith, fgets_shrinks n file)

pub count_line_lem :
    (is_set : Bool) (n : ℕ) (w : World)
    → suc n < 2 ^ 31
    → count_line is_set n w ≡ ok (if is_set then suc n else n) w
unfolding count_line
count_line_lem true n w h = rw (lt→ltb (suc n) (2 ^ 31) h) refl
count_line_lem false n w h = refl

abbrev with_setting : Option (Bytes × Bytes) → List (Bytes × Bytes) → List (Bytes × Bytes)
with_setting none rest = rest
with_setting (some s) rest = s ∷ rest

-- The settings of a file, in order. A line is what `fgets` reads of it, up to its first NUL.
abbrev settings_in : (fuel : ℕ) → Bytes → List (Bytes × Bytes)
settings_in fuel [] = []
settings_in zero (c ∷ file) = []
settings_in (suc fuel) (c ∷ file) =
    let line = fgets line_room (c ∷ file) in
    with_setting (setting_of (c_str line.0)) (settings_in fuel line.1)

abbrev pub settings_of : Bytes → List (Bytes × Bytes)
settings_of file = settings_in (length file) file

-- The number of known settings so far.
abbrev next_count : Bool → ℕ → ℕ
next_count is_set n = if is_set then suc n else n

pub set_level_of_lem :
    (level : Option Bytes) (w : World)
    → (n : ℕ) × (set_level_of level w ≡ ok tt (record w { level = n }))
unfolding set_level_of log_set_level
set_level_of_lem none w = (log_warn, refl)
set_level_of_lem (some level) w = vme_set_log_level_any (c_str level) w
