-- ===== src/Client/Callbacks.antt =====
-- The three callbacks of src/vme/vantiq_client.c that libcurl calls during a transfer. Each returns
-- its `size_t`, what it delivers, and the client that it was given as its user data.
pub mod Headers
pub mod Body
use vantiq_sdk_micro.Base.{
  ℕ, zero, suc, ◌+◌, ◌-◌, ◌*◌, ◌%◌, Bool, true, false, ◌&&◌, ◌||◌, Option, none, some, [], ◌∷◌,
  ◌++◌, Bytes, codes, ltb, leb, ◌==◌, if◌then◌else◌, length, take, drop, to_lower, c_str, size_mod,
}
use vantiq_sdk_micro.Memory.{World, M, ok, fault, pure, ◌>>=◌, ◌>>◌, in_bounds}
use vantiq_sdk_micro.Buf.{Vmebuf, ensure_incr_size, concat, read_block}
use vantiq_sdk_micro.Number.{atoi, to_uint32}
use vantiq_sdk_micro.Client.{Client, Callback, SendState}

-- `strncasecmp(a, b, n) == 0`; the end of a text reads as its terminator.
unfoldable pub equal_nocase : ℕ → Bytes → Bytes → Bool
equal_nocase zero a b = true
equal_nocase (suc n) [] [] = true
equal_nocase (suc n) [] (y ∷ b) = false
equal_nocase (suc n) (x ∷ a) [] = x == 0
equal_nocase (suc n) (x ∷ a) (y ∷ b) = to_lower x == to_lower y && (x == 0 || equal_nocase n a b)

-- COUNT_HEADER
abbrev pub count_header : Bytes
count_header = codes "X-Total-Count:"

-- `sizeof(countBuf)`
abbrev pub count_buf_size : ℕ
count_buf_size = 32

set_count : Option (Bool × ℕ) → Client → M Client
set_count none c = λ w. fault
set_count (some (negative, n)) c = pure (record c { result_count = to_uint32 negative n })

-- The body of the `if`: what stands behind the name is copied to `countBuf`, terminated and read.
read_count : Bytes → (len : ℕ) → Client → M Client
unfolding set_count
read_count buffer len c = do
  let value_size = len - length count_header
  in_bounds (leb value_size count_buf_size)
  value ← read_block (drop (length count_header) buffer) value_size
  in_bounds (ltb value_size count_buf_size)
  set_count (atoi (c_str (value ++ 0 ∷ []))) c

pub header_callback : Bytes → (size nitems : ℕ) → Client → M (ℕ × Client)
unfolding read_count equal_nocase
header_callback buffer size nitems c =
    let len = nitems * size % size_mod in
    if ltb (length count_header) len && equal_nocase (length count_header) buffer count_header
    then (do c ← read_count buffer len c; pure (len, c))
    else pure (len, c)

-- The application's callback is called and the call is recorded.
call_app : Callback → Bytes → Client → M (ℕ × Client)
call_app f contents c w =
    ok (f w.app_calls c.callback_state contents, c)
      (record w { app_calls = (c.callback_state, contents) ∷ w.app_calls })

keep_contents : Bytes → ℕ → Client → M (ℕ × Client)
keep_contents contents realsize c = do
  b ← ensure_incr_size (some c.recv_buf) realsize
  b ← concat b contents realsize
  pure (realsize, record c { recv_buf = b })

receive : Option Callback → Bytes → ℕ → Client → M (ℕ × Client)
unfolding call_app keep_contents
receive (some f) contents realsize c = do given ← read_block contents realsize; call_app f given c
receive none contents realsize c = keep_contents contents realsize c

pub write_callback : Bytes → (size nmemb : ℕ) → Client → M (ℕ × Client)
unfolding receive
write_callback contents size nmemb c = receive c.recv_callback contents (size * nmemb % size_mod) c

-- What is copied to `dest` stands beside the number returned.
pub read_callback : (size nmemb : ℕ) → Client → M (ℕ × Bytes × Client)
read_callback size nmemb c =
    let buffer_size = size * nmemb % size_mod in
    let left = c.send_state.sizeleft in
    let copy = if ltb buffer_size left then buffer_size else left in
    let rest : SendState = record {
      readptr = drop copy c.send_state.readptr;
      sizeleft = left - copy;
    } in
    if left == 0 then pure (0, [], c) else (do
      copied ← read_block c.send_state.readptr copy
      pure (copy, copied, record c { send_state = rest }))
