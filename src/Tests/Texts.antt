-- ===== src/Tests/Texts.antt =====
-- URLs, paths, numbers and names, tried out.
use vantiq_sdk_micro.Config.Comments.{one_line, vme_parse_config-line_room}
use vantiq_sdk_micro.Base.{
  suc, ap, refl, ◌≡◌, ◌++◌, true, some, List, [], ◌∷◌, Bytes, codes, arith, ends_in, pos, ℕ,
}
use vantiq_sdk_micro.Memory.{at_live, ok, fresh, length-fresh}
use vantiq_sdk_micro.Number.{decimal}
use vantiq_sdk_micro.Resource.{users, index, mapto_rsname, is_sys_type, build_rsuri}
use vantiq_sdk_micro.Resource.Types.{is_sys_type-mapto_rsname}
use vantiq_sdk_micro.Resource.Path.{build_rsuri_lem, build_rsuri-ends_in}
use vantiq_sdk_micro.Client.Params.{param}
use vantiq_sdk_micro.Client.Url.{create_url, string_block}
use vantiq_sdk_micro.Client.Url.Text.{create_url_lem}
use vantiq_sdk_micro.Log.{vme_set_log_level}
use vantiq_sdk_micro.Log.Levels.{vme_set_log_level_lem}
use vantiq_sdk_micro.Config.{empty_config, vme_parse_config}
use vantiq_sdk_micro.Config.RoundTrip.{IsSetting, AllSettings}
use vantiq_sdk_micro.Config.Printed.{vme_parse_config-printed}
use vantiq_sdk_micro.Tests.{server, start_world}

create_url_lem_example :
    create_url server
      (codes "http://s")
      (codes "/r")
      (param (codes "a") (codes "1") ∷ param (codes "b") [] ∷ [])
      start_world
    ≡ ok (string_block (codes "http://s/r?a=1;b=")) (at_live start_world 6)
create_url_lem_example =
    create_url_lem server (codes "http://s") (codes "/r")
      (param (codes "a") (codes "1") ∷ param (codes "b") [] ∷ []) start_world refl (omega arith)

build_rsuri_lem_example :
    build_rsuri 1 (some (codes "custom")) (some (codes "T")) (some (codes "9")) start_world
    ≡ ok (codes "/api/v1/resources/custom/T/9") (at_live start_world 6)
unfolding decimal
build_rsuri_lem_example =
    build_rsuri_lem 1 (codes "custom") (some (codes "T")) (some (codes "9")) start_world refl
      (omega arith) refl (omega arith)

build_rsuri-ends_in_example :
    (path : Bytes) × (build_rsuri 1 (some (codes "custom")) (some (codes "T")) (some []) start_world
      ≡ ok path (at_live start_world 6))
    × (ends_in b'/' path ≡ true)
build_rsuri-ends_in_example =
    build_rsuri-ends_in 1 (codes "custom") (some (codes "T")) (some []) start_world refl
      (omega arith) refl (omega arith)

is_sys_type-mapto_rsname_example :
    (name : Bytes) × (mapto_rsname (index users) start_world ≡ ok name start_world)
    × (is_sys_type (some name) ≡ some (index users))
is_sys_type-mapto_rsname_example = is_sys_type-mapto_rsname users start_world

vme_set_log_level_lem_example :
    vme_set_log_level (codes "ERROR") start_world ≡ ok tt (record start_world { level = 4 })
vme_set_log_level_lem_example = vme_set_log_level_lem 4 start_world (omega arith)

abbrev port_setting : Bytes × Bytes
port_setting = (codes "DPIPORT", codes "3490")

port_setting-IsSetting : IsSetting port_setting
port_setting-IsSetting = record {
  key = refl;
  value = refl;
  key_from = (b'D', codes "PIPORT", refl, refl);
  value_from = (b'3', codes "490", refl);
  fits = omega arith;
}

abbrev two_ports : Bytes
two_ports = codes "DPIPORT=1\n# LOG_LEVEL=DEBUG\nDPIPORT=2\n"

-- A key twice, and one that is not known.
abbrev some_settings : List (Bytes × Bytes)
some_settings = (codes "dpiport", codes "1") ∷ port_setting ∷ (codes "x", codes "y") ∷ []

some_settings-AllSettings : AllSettings some_settings
some_settings-AllSettings = (
  record {
    key = refl;
    value = refl;
    key_from = (b'd', codes "piport", refl, refl);
    value_from = (b'1', [], refl);
    fits = omega arith;
  },
  (
    port_setting-IsSetting,
    (
      record {
        key = refl;
        value = refl;
        key_from = (b'x', [], refl, refl);
        value_from = (b'y', [], refl);
        fits = omega arith;
      },
      tt,
    ),
  ),
)

vme_parse_config-printed_example :
    (level : ℕ) × (vme_parse_config (some (codes "dpiport=1\nDPIPORT=3490\nx=y\n")) start_world
      ≡ ok
          (record empty_config { dpi_port = some (string_block (codes "3490")) }, pos 2)
          (record start_world { live = 7; level = level }))
vme_parse_config-printed_example =
    vme_parse_config-printed some_settings start_world refl some_settings-AllSettings (omega arith)

-- A comment of 1023 bytes, and what looks like the rest of it.
abbrev long : Bytes
long = fresh (λ i. 97) 0 1022

long-one_line : one_line long ≡ true
long-one_line = refl

vme_parse_config-line_room_example :
    vme_parse_config (some (b'#' ∷ (long ++ codes "DPIPORT=1"))) start_world
    ≡ vme_parse_config (some (codes "DPIPORT=1")) start_world
vme_parse_config-line_room_example =
    vme_parse_config-line_room long (codes "DPIPORT=1") start_world long-one_line
      (ap suc (length-fresh (λ i. 97) 0 1022))
