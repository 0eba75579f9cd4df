-- ===== src/Tests.antt =====
-- A small server, a client and a world on which the theorems are tried out.
pub mod Buffers
pub mod Texts
pub mod Requests
pub mod Entries
pub mod Sessions
pub mod Calls
pub mod Discovery
pub mod Tool
use vantiq_sdk_micro.Base.{
  ℕ, refl, ◌≡◌, true, none, some, [], ◌∷◌, Bytes, codes, arith, is_text→IsText, IsText,
}
use vantiq_sdk_micro.Memory.{World, fresh}
use vantiq_sdk_micro.Buf.{Vmebuf}
use vantiq_sdk_micro.Buf.Growth.{IsBuf, Holds}
use vantiq_sdk_micro.Curl.{Curl, Transfer, finished, header, chunk, pull}
use vantiq_sdk_micro.Client.{Client, Callback}
use vantiq_sdk_micro.Client.Request.Verbs.{IsClient, IsUrl}
use vantiq_sdk_micro.Client.Session.{new_easy}

-- It sends back the first four bytes that it is sent, or `[]`, behind a count of three.
abbrev pub reply : Bytes → Transfer
reply [] = chunk (codes "[]") (λ n. finished 0 200 [])
reply (c ∷ s) = chunk (c ∷ s) (λ n. finished 0 200 [])

abbrev pub echo : Transfer
echo = pull 4 λ sent. header (codes "X-Total-Count: 3") λ n. reply sent

abbrev pub server : Curl
server = record {
  escape = λ s. some s;
  strerror = λ code. codes "failed";
  global_init = 0;
  easy_init = true;
  perform = λ before now. echo;
}

abbrev pub start_world : World
start_world = record {
  live = 5;
  ration = none;
  junk = λ i. 170;
  level = 3;
  app_calls = [];
  sockets = 0;
}

-- A block of 64 bytes, of which two are in use.
abbrev pub hi_buf : Vmebuf
hi_buf = record { len = 2; limit = 64; cells = some (b'h' ∷ b'i' ∷ fresh (λ i. 0) 0 62) }

pub hi_buf-IsBuf : IsBuf hi_buf
hi_buf-IsBuf = record {
  sized = refl;
  within = omega arith;
  least = omega arith;
  fits = omega arith;
}

pub hi_buf-Holds : Holds (codes "hi") hi_buf
hi_buf-Holds = record { is_buf = hi_buf-IsBuf; bytes = refl }

abbrev pub client : Client
client = record {
  magic = 7;
  api_version = 1;
  result_count = 0;
  curl = new_easy;
  server_url = codes "http://s";
  http_hdrs = codes "A: b" ∷ [];
  recv_buf = hi_buf;
  recv_callback = none;
  callback_state = 9;
  send_state = record { readptr = []; sizeleft = 0 };
}

pub client-IsClient : IsClient client
client-IsClient = record { buffer = hi_buf-IsBuf; in_block = omega arith }
