-- ===== src/Config/Printed.antt =====
-- What src/vme/config.c makes of a file of settings, printed one to a line.
use mathlib.Core.Path.{subst}
use vantiq_sdk_micro.Base.{
  ℕ, suc, ◌+◌, ◌^◌, ◌<◌, ◌≡◌, length, refl, ap, sym, ◌∙◌, Bool, true, false, some, List, [], ◌∷◌,
  Bytes, arith, if◌then◌else◌, pos,
}
use vantiq_sdk_micro.Memory.{World, at_live, ok, Granting}
use vantiq_sdk_micro.Config.{
  Vmeconfig, empty_config, parse_keys_vals, vme_parse_config, set_config_param,
}
use vantiq_sdk_micro.Config.RoundTrip.{
  IsSetting, AllSettings, printed, apply_all, parse_keys_vals-printed,
}
use vantiq_sdk_micro.Config.Assigned.{assigned, all_assigned, paid, set_config_param_lem}
use vantiq_sdk_micro.Config.Total.{count_line_lem, set_level_of_lem}

module _ (w : World) (g : Granting w) (m : ℕ) where
  -- with a block for each that was known
  abbrev counting : ℕ → World
  counting n = at_live w (n + m)

  paid-counting :
      (is_set : Bool) (n : ℕ) → paid is_set (counting n) ≡ counting (if is_set then suc n else n)
  paid-counting true n = ap (at_live w) (omega arith)
  paid-counting false n = refl

  set_one :
      (config : Vmeconfig) (s : Bytes × Bytes) (n : ℕ)
      → IsSetting s
      → let a = assigned config s.0 s.1 in
        set_config_param config s.0 s.1 (counting n) ≡ ok a (counting (if a.1 then suc n else n))
  set_one config (key, value) n v =
      let (d, u, f) = v.value_from in
      subst
        (λ t.
          let a = assigned config key t in
          set_config_param config key t (counting n) ≡ ok a (counting (if a.1 then suc n else n)))
        (sym f)
        (set_config_param_lem (counting n) g config key d u
          ∙ ap (ok (assigned config key (d ∷ u))) (paid-counting (assigned config key (d ∷ u)).1 n))

  apply_all_lem :
      (ss : List (Bytes × Bytes)) (config : Vmeconfig) (n : ℕ)
      → AllSettings ss
      → n + length ss < 2 ^ 31
      → let r = all_assigned ss (config, n) in
        apply_all ss config n (counting n) ≡ ok r (counting r.1)
  apply_all_lem [] config n a k = refl
  apply_all_lem (s ∷ ss) config n (v, vs) k =
      let a = assigned config s.0 s.1 in
      let more : (if a.1 then suc n else n) + length ss < 2 ^ 31 = ground arith in
      rw
        (
          set_one config s n v,
          count_line_lem a.1 n (counting (if a.1 then suc n else n)) (omega arith),
        )
        (apply_all_lem ss a.0 (if a.1 then suc n else n) vs more)

-- If every allocation is granted, a file of settings that are printed one to a line as key=value
-- is read by vme_parse_config as just those settings, each stored where its key says, in any
-- case of letters, as a C string of its own, that of the URL with a slash at its end, the last
-- of a key winning; the number of the known ones is returned and as many blocks are allocated,
-- and but for the level of the log nothing else has changed: provided that there are fewer than
-- 2 ^ 31 settings, that keys and values are not empty, have no blank, no equals sign and no NUL,
-- that no key starts with #, and that each line has at most 1023 bytes.
pub vme_parse_config-printed :
    (ss : List (Bytes × Bytes)) (w : World)
    → Granting w
    → AllSettings ss
    → length ss < 2 ^ 31
    → let r = all_assigned ss (empty_config, 0) in
      (level : ℕ) × (vme_parse_config (some (printed ss)) w
        ≡ ok (r.0, pos r.1) (record w { live = r.1 + w.live; level = level }))
unfolding vme_parse_config
vme_parse_config-printed ss w g a k =
    let r = all_assigned ss (empty_config, 0) in
    let u = at_live w (r.1 + w.live) in
    let (level, set) = set_level_of_lem r.0.log_level u in
    let start : w ≡ at_live w (0 + w.live) = ap (at_live w) (omega arith) in
    let parsed : parse_keys_vals (printed ss) empty_config w ≡ ok r u =
      parse_keys_vals-printed ss empty_config w a
      ∙ ap (apply_all ss empty_config 0) start
      ∙ apply_all_lem w g w.live ss empty_config 0 a (omega arith) in
    (level, rw (parsed, set) refl)
