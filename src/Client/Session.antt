-- ===== src/Client/Session.antt =====
-- `vc_init` and `vc_teardown` of src/vme/vantiq_client.c.
pub mod Login
pub mod Last
use vantiq_sdk_micro.Base.{
  ℕ, zero, suc, ◌+◌, ◌-◌, Bool, true, false, not, ◌&&◌, List, [], ◌∷◌, ◌++◌, Option, some, none,
  Bytes, codes, length, c_str, ◌==◌, if◌then◌else◌, get_elem?, ltb, leb, snprintf,
}
use vantiq_sdk_micro.Memory.{M, pure, fault, ◌>>=◌, ◌>>◌, in_bounds, allocate, free}
use vantiq_sdk_micro.Buf.{Vmebuf, alloc, dealloc, no_cells}
use vantiq_sdk_micro.Curl.{url, http_get, Curl, Easy, curle_ok, reset}
use vantiq_sdk_micro.Client.{Client, Handle, vc_magic, set_option, common_curl_setup}
use vantiq_sdk_micro.Client.Url.{create_auth_hdr, string_block}
use vantiq_sdk_micro.Client.Transfer.{Outcome, perform, strdup}

-- AUTH_URL_PATH, JSON_CONTENTTYPE and the header that switches "100-continue" off
abbrev pub auth_url_path : Bytes
auth_url_path = codes "/authenticate"

abbrev pub json_contenttype : Bytes
json_contenttype = codes "Content-Type: application/json"

abbrev pub no_expect : Bytes
no_expect = codes "Expect:"

-- a handle that has set no option yet
abbrev pub new_easy : Easy
new_easy = record { settings = []; response_code = 0; sent = [] }

-- what `memset` leaves, with the two fields that are set next
abbrev pub new_client : (api_version : ℕ) → Client
new_client v = record {
  magic = vc_magic;
  api_version = v;
  result_count = 0;
  curl = new_easy;
  server_url = [];
  http_hdrs = [];
  recv_buf = no_cells;
  recv_callback = none;
  callback_state = 0;
  send_state = record { readptr = []; sizeleft = 0 };
}

-- `s[len-1]`, a fault in front of an empty text
unfoldable pub last_char : Bytes → M ℕ
last_char [] = λ w. fault
last_char (c ∷ []) = pure c
last_char (c ∷ d ∷ s) = last_char (d ∷ s)

-- A new block with all but the last byte, terminated.
abbrev pub init_of : Bytes → Bytes
init_of [] = []
init_of (c ∷ []) = []
init_of (c ∷ d ∷ s) = c ∷ init_of (d ∷ s)

-- The server's URL in a block of its own, without a trailing slash.
trim_url : Bytes → M Bytes
unfolding last_char
trim_url base = do
  last ← last_char base
  block ← (if last == b'/' then (do allocate; pure (string_block (init_of base))) else strdup base)
  pure (c_str block)

module _ (curl : Curl) where
  -- The request to the server: what libcurl answers, and the client with the headers for all later
  -- requests.
  authenticate : Client → M (Outcome × Client)
  authenticate c = do
    c ← common_curl_setup c
    let len = length c.server_url + (length auth_url_path + 1)
    allocate
    let (_, auth_url) = snprintf len (c.server_url ++ auth_url_path)
    let c = set_option (http_get 1) (set_option (url auth_url) c)
    (out, c) ← perform curl c
    let hdrs = c.http_hdrs ++ json_contenttype ∷ no_expect ∷ []
    free
    pure (out, record c { http_hdrs = hdrs; curl = reset c.curl })

  -- From the set-up of libcurl on. The struct, the trimmed URL and the receive buffer are not given
  -- back on any failure.
  connect : Client → M Handle
  unfolding authenticate
  connect c =
      if not (curl.global_init == curle_ok)
      then pure none
      else if not curl.easy_init
      then pure none
      else (do
        (out, c) ← authenticate c
        pure (
            if not (out.code == curle_ok) && not (c.curl.response_code == 200)
            then none
            else some c))

  pub vc_init : (server_url token : Bytes) → (api_version : ℕ) → M Handle
  unfolding connect trim_url
  vc_init server_url token version = do
    allocate
    hdr ← create_auth_hdr token
    free
    trimmed ← trim_url server_url
    b ← alloc
    let hdrs = c_str hdr ∷ []
    connect (record (new_client version) { server_url = trimmed; http_hdrs = hdrs; recv_buf = b })

-- The buffer and the struct are freed, `server_url` is not. The headers and the handle belong to
-- libcurl.
pub vc_teardown : Client → M (Unit {0})
vc_teardown c = do dealloc c.recv_buf; free
