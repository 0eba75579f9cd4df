-- ===== src/Curl.antt =====
-- libcurl, which is not in the repository, as src/vme/vantiq_client.c sees it. A handle is the list
-- of the options set since its last reset. What a transfer does is a parameter: a finite dialogue
-- in which libcurl makes the callbacks in its own order and goes on by what each of them returns.
use vantiq_sdk_micro.Base.{
  ℕ, suc, ◌≡◌, Bool, true, false, Option, none, some, List, [], ◌∷◌, ◌++◌, Bytes,
}
use vantiq_sdk_micro.Memory.{World, at_live, M, ok}

-- One call of `curl_easy_setopt`. The callbacks and the data passed to them are always those of the
-- client, so these options carry nothing.
pub data Setting : Type 0 where
  follow_location ssl_verify_peer ssl_verify_host verbose fail_on_error : ℕ → Setting
  http_header : List Bytes → Setting
  read_function write_function header_function : Setting
  read_data write_data header_data : Setting
  low_speed_time low_speed_limit : ℕ → Setting
  url : Bytes → Setting
  http_get put post : ℕ → Setting
  custom_request post_fields : Bytes → Setting
  post_field_size : ℕ → Setting
  error_buffer : Setting

-- A transfer: it ends with a CURLcode, the response code and the text for the error buffer; or it
-- hands a response header or a chunk of the body to a callback, or asks for at most so many bytes of
-- the request body, and goes on by the number returned or the bytes delivered.
pub data Transfer : Type 0 where
  finished : (code status : ℕ) (message : Bytes) → Transfer
  header : Bytes → (ℕ → Transfer) → Transfer
  chunk : Bytes → (ℕ → Transfer) → Transfer
  pull : ℕ → (Bytes → Transfer) → Transfer

-- `perform` may depend on all that was asked before, so it covers a server with a state.
pub record Curl : Type 0 where
  pub escape : Bytes → Option Bytes
  pub strerror : ℕ → Bytes
  pub global_init : ℕ
  pub easy_init : Bool
  pub perform : (before : List (List Setting)) (now : List Setting) → Transfer

-- A handle. `sent` is the settings of every transfer performed, the latest first.
pub record Easy : Type 0 where
  pub settings : List Setting
  pub response_code : ℕ
  pub sent : List (List Setting)

abbrev pub curle_ok : ℕ
curle_ok = 0

-- `curl_easy_setopt`, `curl_easy_reset`
abbrev pub setopt : Setting → Easy → Easy
setopt s h = record h { settings = h.settings ++ s ∷ [] }

abbrev pub reset : Easy → Easy
reset h = record h { settings = [] }

abbrev pub has_error_buffer : List Setting → Bool
has_error_buffer [] = false
has_error_buffer (error_buffer ∷ ss) = true
has_error_buffer (s ∷ ss) = has_error_buffer ss

-- `curl_easy_escape`: a block of libcurl's that the caller frees, or NULL.
abbrev escape_in : Option Bytes → World → M (Option Bytes)
escape_in none w' w = ok none w
escape_in (some e) w' w = ok (some e) w'

pub easy_escape : Curl → Bytes → M (Option Bytes)
easy_escape curl s w = escape_in (curl.escape s) (at_live w (suc w.live)) w

pub easy_escape-some :
    (curl : Curl) (s e : Bytes) (w : World)
    → curl.escape s ≡ some e
    → easy_escape curl s w ≡ ok (some e) (at_live w (suc w.live))
unfolding easy_escape
easy_escape-some curl s e w h = rw h

pub easy_escape-none :
    (curl : Curl) (s : Bytes) (w : World) → curl.escape s ≡ none → easy_escape curl s w ≡ ok none w
unfolding easy_escape
easy_escape-none curl s w h = rw h
