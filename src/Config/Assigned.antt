-- ===== src/Config/Assigned.antt =====
-- What a setting does in src/vme/config.c, and what it costs.
use vantiq_sdk_micro.Base.{
  ℕ, suc, ◌<◌, ◌≡◌, refl, ◌∙◌, Bool, true, false, inl, inr, Bool-cases, List, some, [], ◌∷◌, ◌++◌,
  Bytes, codes, arith, length, eq_bytes, if◌then◌else◌, ends_in,
}
use vantiq_sdk_micro.Memory.{World, at_live, ok, Granting, allocate_granted}
use vantiq_sdk_micro.Client.Url.{string_block}
use vantiq_sdk_micro.Client.Session.Last.{last_char_lem}
use vantiq_sdk_micro.Config.{Vmeconfig, url_block, set_url, set_level, set_config_param}
use vantiq_sdk_micro.Config.Keys.{lower, cmp_strings_lem}

-- The key that a text is, in any case of its letters.
abbrev is_key : Bytes → Bytes → Bool
is_key key name = eq_bytes (lower key) (lower name)

abbrev pub with_slash : Bytes → Bytes
with_slash value = if ends_in b'/' value then value else value ++ b'/' ∷ []

-- What a setting makes of the struct, and whether its key is known. The value is stored as a C string
-- of its own, that of the URL with a slash at its end.
abbrev pub assigned : Vmeconfig → (key value : Bytes) → Vmeconfig × Bool
assigned config key value =
    if is_key key (codes "DPIPORT")
    then (record config { dpi_port = some (string_block value) }, true)
    else if is_key key (codes "DPISOCKETPATH")
    then (record config { dpi_socket_path = some (string_block value) }, true)
    else if is_key key (codes "VANTIQ_BASEURL")
    then (record config { vantiq_url = some (string_block (with_slash value)) }, true)
    else if is_key key (codes "VANTIQTOKEN")
    then (record config { vantiq_token = some (string_block value) }, true)
    else if is_key key (codes "LOG_LEVEL")
    then (record config { log_level = some (string_block value) }, true)
    else (config, false)

-- The settings stored in order, with the number of those that are known.
abbrev pub all_assigned : List (Bytes × Bytes) → Vmeconfig × ℕ → Vmeconfig × ℕ
all_assigned [] r = r
all_assigned (s ∷ ss) r =
    let a = assigned r.0 s.0 s.1 in all_assigned ss (a.0, if a.1 then suc r.1 else r.1)

-- One more block if the setting is known, and nothing else.
abbrev pub paid : Bool → World → World
paid is_set w = at_live w (if is_set then suc w.live else w.live)

module _ (w : World) (g : Granting w) where
  set_url_lem :
      (config : Vmeconfig) (c : ℕ) (s : Bytes)
      → set_url config (c ∷ s) w
        ≡ ok
            (record config { vantiq_url = some (string_block (with_slash (c ∷ s))) }, true)
            (paid true w)
  unfolding set_url url_block
  set_url_lem config c s =
      let (d, e, last) = last_char_lem c s w in
      elim (Bool-cases (ends_in b'/' (c ∷ s))) [
        | inl slash ↦ rw (e, last ∙ slash, slash, allocate_granted w g) refl
        | inr other ↦ rw (e, last ∙ other, other, allocate_granted w g) refl
      ]

  -- If every allocation is granted and the value is not empty, set_config_param stores the value
  -- where its key says, in any case of letters, that of the URL with a slash at its end, and
  -- allocates one block; a key that is not known changes nothing.
  pub set_config_param_lem :
      (config : Vmeconfig) (key : Bytes) (c : ℕ) (s : Bytes)
      → set_config_param config key (c ∷ s) w
        ≡ ok (assigned config key (c ∷ s)) (paid (assigned config key (c ∷ s)).1 w)
  unfolding set_config_param set_level
  set_config_param_lem config key c s =
      let compared = λ (name : Bytes) (k : 0 < length name). cmp_strings_lem key name w k in
      elim (Bool-cases (is_key key (codes "DPIPORT"))) [
        | inl is_port ↦
            rw (compared (codes "DPIPORT") (omega arith), is_port, allocate_granted w g) refl
        | inr other_port ↦ elim (Bool-cases (is_key key (codes "DPISOCKETPATH"))) [
          | inl is_path ↦
              rw
                (
                  compared (codes "DPIPORT") (omega arith),
                  other_port,
                  compared (codes "DPISOCKETPATH") (omega arith),
                  is_path,
                  allocate_granted w g,
                )
                refl
          | inr other_path ↦ elim (Bool-cases (is_key key (codes "VANTIQ_BASEURL"))) [
            | inl is_url ↦
                rw
                  (
                    compared (codes "DPIPORT") (omega arith),
                    other_port,
                    compared (codes "DPISOCKETPATH") (omega arith),
                    other_path,
                    compared (codes "VANTIQ_BASEURL") (omega arith),
                    is_url,
                    set_url_lem config c s,
                  )
                  refl
            | inr other_url ↦ elim (Bool-cases (is_key key (codes "VANTIQTOKEN"))) [
              | inl is_token ↦
                  rw
                    (
                      compared (codes "DPIPORT") (omega arith),
                      other_port,
                      compared (codes "DPISOCKETPATH") (omega arith),
                      other_path,
                      compared (codes "VANTIQ_BASEURL") (omega arith),
                      other_url,
                      compared (codes "VANTIQTOKEN") (omega arith),
                      is_token,
                      allocate_granted w g,
                    )
                    refl
              | inr other_token ↦ elim (Bool-cases (is_key key (codes "LOG_LEVEL"))) [
                | inl is_level ↦
                    rw
                      (
                        compared (codes "DPIPORT") (omega arith),
                        other_port,
                        compared (codes "DPISOCKETPATH") (omega arith),
                        other_path,
                        compared (codes "VANTIQ_BASEURL") (omega arith),
                        other_url,
                        compared (codes "VANTIQTOKEN") (omega arith),
                        other_token,
                        compared (codes "LOG_LEVEL") (omega arith),
                        is_level,
                        allocate_granted w g,
                      )
                      refl
                | inr other_level ↦
                    rw
                      (
                        compared (codes "DPIPORT") (omega arith),
                        other_port,
                        compared (codes "DPISOCKETPATH") (omega arith),
                        other_path,
                        compared (codes "VANTIQ_BASEURL") (omega arith),
                        other_url,
                        compared (codes "VANTIQTOKEN") (omega arith),
                        other_token,
                        compared (codes "LOG_LEVEL") (omega arith),
                        other_level,
                      )
                      refl
              ]
            ]
          ]
        ]
      ]
