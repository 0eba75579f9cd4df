-- ===== src/Client.antt =====
-- src/vme/vantiq_client.h and the parts of src/vme/vantiq_client.c that every request shares: the
-- client's state, its validity, and the options that all requests set.
pub mod Params
pub mod Url
pub mod Callbacks
pub mod Transfer
pub mod Request
pub mod Session
use vantiq_sdk_micro.Base.{
  ℕ, Bool, true, false, ◌&&◌, Option, none, some, List, [], ◌∷◌, ◌++◌, Bytes, codes, ◌==◌, leb,
  if◌then◌else◌,
}
use vantiq_sdk_micro.Memory.{World, M, ok}
use vantiq_sdk_micro.Buf.{Vmebuf}
use vantiq_sdk_micro.Curl.{
  Setting, follow_location, ssl_verify_peer, ssl_verify_host, verbose, fail_on_error, http_header,
  read_function, write_function, header_function, read_data, write_data, header_data,
  low_speed_time, low_speed_limit, Easy, setopt, reset,
}

-- The application's receive callback: the size that it returns may depend on all the calls made of
-- it before. It is given its state pointer and the bytes.
abbrev pub Callback : Type 0
Callback = (before : List (ℕ × Bytes)) (state : ℕ) (contents : Bytes) → ℕ

-- `vc_sendstate_t`; `readptr` is the rest of the block that the pointer leads to, taken by value: whether
-- the block is still allocated is not tracked.
pub record SendState : Type 0 where
  pub readptr : Bytes
  pub sizeleft : ℕ

-- `struct vantiq_client`
pub record Client : Type 0 where
  pub magic : ℕ
  pub api_version : ℕ
  pub result_count : ℕ
  pub curl : Easy
  pub server_url : Bytes
  pub http_hdrs : List Bytes
  pub recv_buf : Vmebuf
  pub recv_callback : Option Callback
  pub callback_state : ℕ
  pub send_state : SendState

-- A `VME` handle: NULL, or the client that it leads to. Its memory is taken to be readable.
abbrev pub Handle : Type 0
Handle = Option Client

abbrev pub vc_magic : ℕ
vc_magic = 0x07

unfoldable pub vc_is_valid : Handle → Bool
vc_is_valid none = false
vc_is_valid (some c) = c.magic == vc_magic

unfoldable pub vc_from_vme : Handle → Handle
unfolding vc_is_valid
vc_from_vme vme = if vc_is_valid vme then vme else none

abbrev pub set_option : Setting → Client → Client
set_option s c = record c { curl = setopt s c.curl }

abbrev pub set_options : List Setting → Client → Client
set_options [] c = c
set_options (s ∷ ss) c = set_options ss (set_option s c)

-- LOG_DEBUG of src/vme/log.h
abbrev pub log_debug_level : ℕ
log_debug_level = 1

abbrev verbose_settings : ℕ → List Setting
verbose_settings level = if leb level log_debug_level then verbose 1 ∷ [] else []

-- The options that `common_curl_setup` sets, in order.
pub common_settings : (level : ℕ) → List Bytes → List Setting
common_settings level hdrs =
    follow_location 1
    ∷ ssl_verify_peer 1
    ∷ ssl_verify_host 1
    ∷ (verbose_settings level
        ++ fail_on_error 0
          ∷ http_header hdrs
          ∷ read_function
          ∷ write_function
          ∷ header_function
          ∷ read_data
          ∷ write_data
          ∷ header_data
          ∷ low_speed_time 60
          ∷ low_speed_limit 30
          ∷ [])

pub common_curl_setup : Client → M Client
unfolding common_settings
common_curl_setup c w =
    ok (set_options (common_settings w.level c.http_hdrs) (record c { curl = reset c.curl })) w
