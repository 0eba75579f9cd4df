-- ===== src/Tests/Sessions.antt =====
-- A session and the invalid handles, tried out.
use vantiq_sdk_micro.Base.{
  refl, ◌≡◌, some, true, [], ◌∷◌, Bytes, codes, arith, is_text→IsText, c_str,
}
use vantiq_sdk_micro.Memory.Returns.{Returns}
use vantiq_sdk_micro.Number.{atoi}
use vantiq_sdk_micro.Client.Callbacks.{equal_nocase}
use vantiq_sdk_micro.Client.Callbacks.Headers.{counted}
use vantiq_sdk_micro.Client.Transfer.Exchange.{exchange}
use vantiq_sdk_micro.Client.Session.{vc_init}
use vantiq_sdk_micro.Client.Session.Login.{Opened, opening, vc_init-Opened}
use vantiq_sdk_micro.Curl.{Curl, finished}
use vantiq_sdk_micro.Api.Calls.{publish, insert}
use vantiq_sdk_micro.Api.Calls.Session.{session}
use vantiq_sdk_micro.Api.Calls.Unopened.{session-rejected}
use vantiq_sdk_micro.Tests.{server, start_world}

abbrev address : Bytes
address = codes "http://s/"

abbrev token : Bytes
token = codes "t0k"

shown : counted (codes "X-Total-Count: 3") 0 ≡ some 3
unfolding equal_nocase atoi c_str
shown = refl

vc_init-Opened_example :
    Returns
      (Opened server address token 1 start_world
        (opening server b'h' (codes "ttp://s/") token 1 start_world refl))
      (vc_init server address token 1 start_world)
vc_init-Opened_example =
    vc_init-Opened server b'h' (codes "ttp://s/") token 1 start_world refl refl refl
      (is_text→IsText address refl) (is_text→IsText token refl)
      (omega arith, (omega arith, (3, shown), (omega arith, tt)))

-- A server that cannot be reached: libcurl gives CURLE_COULDNT_CONNECT, and there is no status.
abbrev refusing : Curl
refusing = record {
  escape = λ s. some s;
  strerror = λ code. codes "failed";
  global_init = 0;
  easy_init = true;
  perform = λ before now. finished 7 0 [];
}

abbrev json : Bytes
json = codes "{\"a\":1}"

session-rejected_example :
    Returns
      (λ r u. u ≡ record start_world { live = 11; app_calls = [] })
      (session refusing address token 1
        (publish (codes "t") json 7 ∷ insert (codes "/r") json 7 ∷ [])
        start_world)
unfolding exchange
session-rejected_example =
    session-rejected refusing b'h' (codes "ttp://s/") token 1
      (publish (codes "t") json 7 ∷ insert (codes "/r") json 7 ∷ []) start_world refl refl refl
      (is_text→IsText address refl) (is_text→IsText token refl) tt refl
      ((omega arith, omega arith), (tt, tt))
