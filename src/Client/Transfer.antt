-- ===== src/Client/Transfer.antt =====
-- A transfer of libcurl run against the callbacks of src/vme/vantiq_client.c, and what is made of
-- its outcome: `prepare_result`.
pub mod Exchange
pub mod Refines
use vantiq_sdk_micro.Base.{
  ℕ, ◌+◌, ◌*◌, Bool, true, false, not, Option, none, some, List, [], ◌∷◌, ◌++◌, Bytes, ltb, leb,
  ◌==◌, if◌then◌else◌, length,
}
use vantiq_sdk_micro.Memory.{World, M, pure, ◌>>=◌, ◌>>◌, allocate, cells_of}
use vantiq_sdk_micro.Buf.{Vmebuf, read_block}
use vantiq_sdk_micro.Curl.{
  Setting, Transfer, finished, header, chunk, pull, Curl, Easy, curle_ok, has_error_buffer,
}
use vantiq_sdk_micro.Client.{Client}
use vantiq_sdk_micro.Client.Callbacks.{header_callback, write_callback, read_callback}
use vantiq_sdk_micro.Client.Url.{string_block}

-- The CURLcode and the text that libcurl has for the error buffer.
pub record Outcome : Type 0 where
  pub code : ℕ
  pub message : Bytes

-- libcurl passes 1 for `size`.
pub run_transfer : Transfer → Client → M (Outcome × Client)
run_transfer (finished code status message) c = pure (
  record { code = code; message = message },
  record c { curl = record c.curl { response_code = status } },
)
run_transfer (header line k) c = do
  (n, c) ← header_callback line 1 (length line) c
  run_transfer (k n) c
run_transfer (chunk bytes k) c = do
  (n, c) ← write_callback bytes 1 (length bytes) c
  run_transfer (k n) c
run_transfer (pull room k) c = do
  (n, delivered, c) ← read_callback 1 room c
  run_transfer (k delivered) c

abbrev pub error_text : Bool → Bytes → Bytes
error_text true message = message
error_text false message = []

-- `curl_easy_perform`, with the text that an error buffer holds behind it: it is empty before, and
-- stays so if libcurl was not told of it.
unfoldable pub perform : Curl → Client → M (Outcome × Client)
unfolding run_transfer
perform curl c = do
  let settings = c.curl.settings
  let asked = record c { curl = record c.curl { sent = settings ∷ c.curl.sent } }
  (out, c) ← run_transfer (curl.perform c.curl.sent settings) asked
  pure (record out { message = error_text (has_error_buffer settings) out.message }, c)

-- `vme_result_t`. The two pointers lead to blocks that are given whole: there is a terminator only
-- where one is listed.
pub record VmeResult : Type 0 where
  pub size : ℕ
  pub count : ℕ
  pub json_data : Option Bytes
  pub error_msg : Option Bytes

abbrev pub no_result : VmeResult
no_result = record { size = 0; count = 0; json_data = none; error_msg = none }

-- `strdup`
abbrev pub strdup : Bytes → M Bytes
strdup s = do allocate; pure (string_block s)

-- the first `if` of `prepare_result`
unfoldable pub protocol_error : Curl → (code : ℕ) → Bytes → VmeResult → M VmeResult
protocol_error curl code message r = if code == curle_ok then pure r else (do
  m ← strdup (if ltb 0 (length message) then message else curl.strerror code)
  pure (record r { error_msg = some m }))

-- The second one: what is in the receive buffer is copied, with no terminator.
unfoldable pub response : (rc : ℕ) → Vmebuf → VmeResult → M VmeResult
response rc b r =
    if ltb 0 b.len
    then (do
      allocate
      bytes ← read_block (cells_of b.cells) b.len
      pure (
          if leb 400 rc
          then record r { size = b.len; error_msg = some bytes }
          else record r { size = b.len; json_data = some bytes }))
    else pure r

-- The two assertions hold wherever it is called. The count goes into the result and is reset.
unfoldable pub prepare_result : Curl → (code : ℕ) → Bytes → Client → M (VmeResult × Client)
unfolding protocol_error response
prepare_result curl code message c = do
  allocate
  r ← protocol_error curl code message no_result
  r ← response c.curl.response_code c.recv_buf r
  pure (record r { count = c.result_count }, record c { result_count = 0 })
