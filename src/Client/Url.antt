-- ===== src/Client/Url.antt =====
-- `create_url` and `create_auth_hdr` of src/vme/vantiq_client.c.
pub mod Text
use vantiq_sdk_micro.Base.{
  ℕ, suc, ◌+◌, ◌-◌, ◌/◌, ◌%◌, Bool, true, false, Option, none, some, List, [], ◌∷◌, ◌++◌, Bytes,
  codes, length, add_size, leb, c_str,
}
use vantiq_sdk_micro.Memory.{M, pure, ◌>>=◌, ◌>>◌, in_bounds, allocate, free}
use vantiq_sdk_micro.Buf.{Vmebuf, ensure_size, push, concat, tostr, dealloc}
use vantiq_sdk_micro.Curl.{Curl, easy_escape}
use vantiq_sdk_micro.Client.Params.{Param}

-- The block of the C string `s`, its terminator included.
abbrev pub string_block : Bytes → Bytes
string_block s = s ++ 0 ∷ []

-- `vmebuf_concat(buf, s, strlen(s))`
abbrev pub concat_str : Vmebuf → Bytes → M Vmebuf
concat_str b s = concat b (string_block s) (length s)

add_separator : Vmebuf → List Param → M Vmebuf
add_separator b [] = pure b
add_separator b (p ∷ ps) = push b b';'

begin_query : Vmebuf → List Param → M Vmebuf
begin_query b [] = pure b
begin_query b (p ∷ ps) = push b b'?'

-- The value as it is escaped, or as it is when it cannot be.
add_value : Vmebuf → Bytes → Option Bytes → M Vmebuf
add_value b value (some e) = do b ← concat_str b e; free; pure b
add_value b value none = concat_str b value

module _ (curl : Curl) where
  add_escaped : Vmebuf → Bytes → M Vmebuf
  add_escaped b value = do e ← easy_escape curl value; add_value b value e

  -- `key=value`
  add_pair : Vmebuf → Param → M Vmebuf
  add_pair b p = do b ← concat_str b p.key; b ← push b b'='; add_escaped b p.value

  -- the loop over the parameters
  add_params : Vmebuf → List Param → M Vmebuf
  add_params b [] = pure b
  add_params b (p ∷ ps) = do b ← add_pair b p; b ← add_separator b ps; add_params b ps

  -- The block of the URL that the result points to. The debug message at the end is left out.
  pub create_url : (server_url rs_uri : Bytes) → List Param → M Bytes
  unfolding add_params add_pair add_escaped add_value add_separator begin_query
  create_url server_url rs_uri params = do
    urlbuf ← ensure_size none (add_size (length server_url + length rs_uri) 1)
    urlbuf ← concat_str urlbuf server_url
    urlbuf ← concat_str urlbuf rs_uri
    urlbuf ← begin_query urlbuf params
    urlbuf ← add_params urlbuf params
    url ← tostr urlbuf
    urlbuf ← dealloc urlbuf
    pure url

-- AUTH_HDR_KEY
abbrev pub auth_hdr_key : Bytes
auth_hdr_key = codes "Authorization: Bearer "

-- `strcpy` of a text to an offset of a block of `size` cells
abbrev pub strcpy_at : (size offset : ℕ) → Bytes → M (Unit {0})
strcpy_at size offset s = in_bounds (leb (offset + length s + 1) size)

-- The token is copied over the terminator of the key.
pub create_auth_hdr : Bytes → M Bytes
create_auth_hdr token = do
  let lead_size = length auth_hdr_key + 1
  let size = length token + lead_size + 1
  allocate
  strcpy_at size 0 auth_hdr_key
  strcpy_at size (lead_size - 1) token
  pure (auth_hdr_key ++ string_block token)
