-- ===== src/Tests/Tool.antt =====
-- The command line tool, tried out.
use vantiq_sdk_micro.Client.Session.Login.{Opened, opening}
use vantiq_sdk_micro.Config.RoundTrip.{AllSettings, printed}
use vantiq_sdk_micro.Config.Assigned.{all_assigned}
use vantiq_sdk_micro.Config.Printed.{vme_parse_config-printed}
use vantiq_sdk_micro.Vipo.Main.{HasSettings, Accepts, main-Returns}
use vantiq_sdk_micro.Base.{
  ℕ, pos, ap, ◌∙◌, ◌≡◌, ◌≢◌, refl, true, some, List, [], ◌∷◌, Bytes, codes, arith, is_text→IsText,
  c_str,
}
use vantiq_sdk_micro.Memory.{World, ok, fault}
use vantiq_sdk_micro.Memory.Returns.{Returns}
use vantiq_sdk_micro.Number.{atoi, decimal}
use vantiq_sdk_micro.Curl.{Curl, finished, chunk, post}
use vantiq_sdk_micro.Client.Request.Plan.{sending_plan}
use vantiq_sdk_micro.Client.{Client, vc_is_valid}
use vantiq_sdk_micro.Client.Url.{string_block}
use vantiq_sdk_micro.Client.Callbacks.{equal_nocase}
use vantiq_sdk_micro.Client.Callbacks.Headers.{counted}
use vantiq_sdk_micro.Client.Transfer.Exchange.{exchange}
use vantiq_sdk_micro.Client.Request.Verbs.{IsClient, IsUrl}
use vantiq_sdk_micro.Config.{empty_config, vme_parse_config}
use vantiq_sdk_micro.Dpi.{closed}
use vantiq_sdk_micro.Dpi.Connect.{no_socket, unreachable}
use vantiq_sdk_micro.Dpi.Pieces.{NeverFills-less}
use vantiq_sdk_micro.Api.Invoke.Done.{IsTopic}
use vantiq_sdk_micro.Vipo.{main, discovery_topic, publish_message}
use vantiq_sdk_micro.Vipo.Publish.{IsMessage, publish_message_publishes, publish_message-fault}
use vantiq_sdk_micro.Tests.{server, start_world, client, client-IsClient}
use vantiq_sdk_micro.Tests.Discovery.{device, peer, network, device_any, device_no_mark}

client-valid : vc_is_valid (some client) ≡ true
unfolding vc_is_valid
client-valid = refl

client-IsTopic : IsTopic client discovery_topic
client-IsTopic = record { version = omega arith; fits = omega arith }

device-IsMessage : IsMessage device
device-IsMessage = record {
  text = is_text→IsText device refl;
  any = device_any;
  no_mark = device_no_mark;
  small = omega arith;
  never_fills = NeverFills-less 512 6 (omega arith);
}

abbrev discovery_url : Bytes
discovery_url = codes "http://s/api/v1/resources/topics//ChinaUnicom/SmartHome/Discovery"

discovery_url-IsUrl : IsUrl discovery_url
discovery_url-IsUrl = record { text = is_text→IsText discovery_url refl; small = omega arith }

shown : (n : ℕ) → counted (codes "X-Total-Count: 3") n ≡ some 3
unfolding equal_nocase atoi c_str
shown n = refl

publish_message_publishes_example :
    Returns
      (λ h u.
        (d : Client) × (h ≡ some d)
        × (d.curl.sent
            ≡ sending_plan 3 client.http_hdrs (post 1) 6 discovery_url ∷ client.curl.sent)
        × IsClient d
        × (vc_is_valid (some d) ≡ true)
        × (u ≡ record start_world { app_calls = [] }))
      (publish_message server (some client) (some peer) start_world)
unfolding decimal exchange
publish_message_publishes_example =
    publish_message_publishes server client start_world refl client-valid client-IsClient
      client-IsTopic device device-IsMessage closed discovery_url-IsUrl
      (omega arith, (omega arith, (3, shown 0), (omega arith, tt))) refl refl

-- A server that answers with an error.
abbrev refusing : Curl
refusing = record {
  escape = λ s. some s;
  strerror = λ code. codes "failed";
  global_init = 0;
  easy_init = true;
  perform = λ before now. chunk (codes "no") (λ n. finished 0 401 []);
}

body_any : codes "no" ≢ []
body_any e = cc

publish_message-fault_example :
    publish_message refusing (some client) (some peer) start_world ≡ fault
unfolding decimal exchange
publish_message-fault_example =
    publish_message-fault refusing client start_world refl client-valid client-IsClient
      client-IsTopic device device-IsMessage closed discovery_url-IsUrl (omega arith, tt) refl
      body_any refl

-- A whole run of the tool.
abbrev settings : List (Bytes × Bytes)
settings =
    (codes "VANTIQ_BASEURL", codes "http://s")
    ∷ (codes "VANTIQTOKEN", codes "t0k")
    ∷ (codes "DPIPORT", codes "3490")
    ∷ []

settings-AllSettings : AllSettings settings
settings-AllSettings = (
  record {
    key = refl;
    value = refl;
    key_from = (b'V', codes "ANTIQ_BASEURL", refl, refl);
    value_from = (b'h', codes "ttp://s", refl);
    fits = omega arith;
  },
  (
    record {
      key = refl;
      value = refl;
      key_from = (b'V', codes "ANTIQTOKEN", refl, refl);
      value_from = (b't', codes "0k", refl);
      fits = omega arith;
    },
    (
      record {
        key = refl;
        value = refl;
        key_from = (b'D', codes "PIPORT", refl, refl);
        value_from = (b'3', codes "490", refl);
        fits = omega arith;
      },
      tt,
    ),
  ),
)

parsed :
    (level : ℕ) × (vme_parse_config (some (printed settings)) start_world
      ≡ ok
          ((all_assigned settings (empty_config, 0)).0, pos 3)
          (record start_world { live = 8; level = level }))
parsed = vme_parse_config-printed settings start_world refl settings-AllSettings (omega arith)

abbrev configured : World
configured = record start_world { live = 8; level = parsed.0 }

settings-HasSettings :
    HasSettings
      (all_assigned settings (empty_config, 0)).0
      b'h'
      (codes "ttp://s/")
      (codes "t0k")
      (string_block (codes "3490"))
settings-HasSettings = record {
  url = refl;
  token_text = refl;
  port_text = refl;
  url_IsText = is_text→IsText (codes "http://s/") refl;
  token_IsText = is_text→IsText (codes "t0k") refl;
}

Opened-Accepts :
    (c : Client) (v : World)
    → Opened server
        (codes "http://s/")
        (codes "t0k")
        1
        configured
        (opening server b'h' (codes "ttp://s/") (codes "t0k") 1 configured refl)
        (some c)
        v
    → Accepts server device c v
unfolding exchange decimal
Opened-Accepts c v q =
    let handle : some c ≡ some q.client = q.handle in
    let same : c ≡ q.client = cc in
    let address : c.server_url ≡ codes "http://s" =
      ap (λ (d : Client). d.server_url) same ∙ q.server in
    let version : c.api_version ≡ 1 = ap (λ (d : Client). d.api_version) same ∙ q.version in
    record {
      is_url = rw (address, version) discovery_url-IsUrl;
      served = (omega arith, (omega arith, (3, shown c.result_count), (omega arith, tt)));
      fine = refl;
      low = refl;
    }

main-Returns_example :
    Returns
      (λ r v. (r ≡ 0) × (v.live ≡ 10) × (v.sockets ≡ 1))
      (main server network 2 (some (printed settings)) start_world)
unfolding exchange
main-Returns_example =
    main-Returns server network b'h' (codes "ttp://s/") (codes "t0k") (string_block (codes "3490"))
      device closed (printed settings) (all_assigned settings (empty_config, 0)).0 (pos 3)
      (no_socket ∷ unreachable ∷ []) [] start_world configured refl parsed.1 settings-HasSettings tt
      refl refl refl (omega arith, (omega arith, (3, shown 0), (omega arith, tt))) refl
      device-IsMessage Opened-Accepts
