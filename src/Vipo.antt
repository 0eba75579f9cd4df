-- ===== src/Vipo.antt =====
-- `main` of src/vipo/vipo.c, which publishes one discovery message. The file of the settings, the
-- network and libcurl are parameters; what is printed to stderr is left out, but
-- not that an error message is read up to its terminator.
pub mod Publish
pub mod Main
use vantiq_sdk_micro.Base.{
  ℕ, suc, Bool, true, false, not, ◌||◌, Option, none, some, [], ◌∷◌, Bytes, codes, ◌==◌,
  if◌then◌else◌, c_str, length, is_text,
}
use vantiq_sdk_micro.Memory.{M, pure, fault, ◌>>=◌, ◌>>◌, in_bounds, allocate, free}
use vantiq_sdk_micro.Curl.{Curl}
use vantiq_sdk_micro.Client.{Handle}
use vantiq_sdk_micro.Client.Url.{create_auth_hdr}
use vantiq_sdk_micro.Config.{Vmeconfig, vme_parse_config}
use vantiq_sdk_micro.Dpi.{Socket, fetch_discovery_msg}
use vantiq_sdk_micro.Dpi.Connect.{Network, init_dpi_usock_client, init_dpi_inet_client}
use vantiq_sdk_micro.Api.{vme_init, vme_teardown, vme_free_result}
use vantiq_sdk_micro.Api.Invoke.{vme_publish}

-- a block that is read as a C string without a look whether there is one
pub read_text : Option Bytes → M Bytes
read_text none = λ w. fault
read_text (some block) = do in_bounds (not (is_text block)); pure (c_str block)

-- The loop runs once, since `retries` is 0.
open_socket : Network → Vmeconfig → (port : Option Bytes) → M (Option Socket)
open_socket net config none = init_dpi_usock_client net config.dpi_socket_path
open_socket net config (some port) = init_dpi_inet_client net port

print_error : Option Bytes → M (Unit {0})
unfolding read_text
print_error none = pure tt
print_error (some s) = do t ← read_text (some s); pure tt

abbrev pub discovery_topic : Bytes
discovery_topic = codes "/ChinaUnicom/SmartHome/Discovery"

pub publish_message : Curl → Handle → Option Socket → M Handle
unfolding read_text print_error
publish_message curl vme none = pure vme
publish_message curl vme (some socket) = do
  msg ← fetch_discovery_msg socket
  text ← read_text msg
  (result, vme) ← vme_publish curl vme discovery_topic text (length text)
  print_error result.error_msg
  free
  vme_free_result (some result)
  pure vme

-- A text that `vme_init` reads only behind some of what it does: if it can be read, it makes no
-- difference when, and if it cannot, the rest comes first.
pub read_behind : M (Unit {0}) → Option Bytes → M Bytes
read_behind before none = do before; (λ w. fault)
read_behind before (some block) =
    if is_text block then (do before; (λ w. fault)) else pure (c_str block)

-- What `vc_init` does in front of reading the URL.
make_header : Bytes → M (Unit {0})
make_header token = do allocate; create_auth_hdr token; free

-- The exit status. The number that `vme_parse_config` returns is not looked at.
pub main : Curl → Network → (argc : ℕ) → (file : Option Bytes) → M ℕ
main curl net argc file = if not (argc == 2) then pure 1 else (do
  (config, n) ← vme_parse_config file
  token ← read_behind allocate config.vantiq_token
  url ← read_behind (make_header token) config.vantiq_url
  vme ← vme_init curl url token 1
  socket ← open_socket net config config.dpi_port
  vme ← publish_message curl vme socket
  vme_teardown vme
  pure 0)
