-- ===== src/Log.antt =====
-- The level of src/vme/log.c below which nothing is logged, and `vme_set_log_level`. The level is that
-- of the process, `level` of the world; it is taken to be no negative int. The logger itself is a copy
-- of another project's.
pub mod Levels
use vantiq_sdk_micro.Base.{
  ℕ, zero, suc, ◌+◌, ◌-◌, Bool, true, false, not, Option, none, some, List, [], ◌∷◌, ◌++◌, Bytes,
  codes, eq_bytes, length, ltb, leb, ◌==◌, if◌then◌else◌,
}
use vantiq_sdk_micro.Memory.{M, pure, ok}
use vantiq_sdk_micro.Number.{decimal}

-- `level_names`, and the enum of src/vme/log.h by position
abbrev pub level_names : List Bytes
level_names =
    codes "TRACE" ∷ codes "DEBUG" ∷ codes "INFO" ∷ codes "WARN" ∷ codes "ERROR" ∷ codes "FATAL" ∷ []

abbrev pub log_warn : ℕ
log_warn = 3

abbrev pub log_error : ℕ
log_error = 4

unfoldable pub log_set_level : ℕ → M (Unit {0})
log_set_level level w = ok tt (record w { level = level })

pub log_get_level : M ℕ
log_get_level w = ok w.level w

-- The loop from `i` on, over the names from there on: the first that matches up to LOG_ERROR.
level_from : (i : ℕ) → List Bytes → Bytes → Option ℕ
level_from i [] name = none
level_from i (n ∷ ns) name =
    let later = level_from (suc i) ns name in
    if leb i log_error then (if eq_bytes name n then some i else later) else none

set_level_to : Option ℕ → M (Unit {0})
unfolding log_set_level
set_level_to none = pure tt
set_level_to (some i) = log_set_level i

unfoldable pub vme_set_log_level : Bytes → M (Unit {0})
unfolding level_from set_level_to
vme_set_log_level name = set_level_to (level_from 0 level_names name)
