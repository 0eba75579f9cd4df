-- ===== src/Log/Levels.antt =====
-- Which names `vme_set_log_level` of src/vme/log.c takes.
use vantiq_sdk_micro.Base.{
  ℕ, zero, suc, ◌<◌, ◌≡◌, refl, Option, none, some, List, [], ◌∷◌, Bytes, arith, ltb, if◌then◌else◌,
}
use vantiq_sdk_micro.Memory.{World, ok}
use vantiq_sdk_micro.Log.{level_names, level_from, set_level_to, log_set_level, vme_set_log_level}

abbrev nth_name : ℕ → List Bytes → Option Bytes
nth_name n [] = none
nth_name zero (s ∷ ss) = some s
nth_name (suc n) (s ∷ ss) = nth_name n ss

abbrev named : Option Bytes → Bytes
named none = []
named (some s) = s

-- The name at a place of the table of six.
abbrev pub level_name : ℕ → Bytes
level_name n = named (nth_name n level_names)

-- vme_set_log_level takes the name of a level from TRACE to ERROR and sets that level; the name
-- FATAL, the last of the table of six, is passed over and the level stays as it is.
pub vme_set_log_level_lem :
    (n : ℕ) (w : World)
    → n < 6
    → vme_set_log_level (level_name n) w
      ≡ ok tt (record w { level = if ltb n 5 then n else w.level })
unfolding vme_set_log_level level_from set_level_to log_set_level
vme_set_log_level_lem zero w h = refl
vme_set_log_level_lem (suc zero) w h = refl
vme_set_log_level_lem (suc (suc zero)) w h = refl
vme_set_log_level_lem (suc (suc (suc zero))) w h = refl
vme_set_log_level_lem (suc (suc (suc (suc zero)))) w h = refl
vme_set_log_level_lem (suc (suc (suc (suc (suc zero))))) w h = refl
vme_set_log_level_lem (suc (suc (suc (suc (suc (suc n)))))) w h = absurd (omega arith)

set_level_to_lem :
    (o : Option ℕ) (w : World) → (n : ℕ) × (set_level_to o w ≡ ok tt (record w { level = n }))
unfolding set_level_to log_set_level
set_level_to_lem none w = (w.level, refl)
set_level_to_lem (some n) w = (n, refl)

-- Whatever the name is, nothing but the level is set.
pub vme_set_log_level_any :
    (name : Bytes) (w : World)
    → (n : ℕ) × (vme_set_log_level name w ≡ ok tt (record w { level = n }))
unfolding vme_set_log_level
vme_set_log_level_any name w = set_level_to_lem (level_from 0 level_names name) w
