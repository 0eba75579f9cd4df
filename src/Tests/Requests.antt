-- ===== src/Tests/Requests.antt =====
-- The requests and the entry points, tried out.
use vantiq_sdk_micro.Base.{
  refl, ◌≡◌, true, none, some, List, [], Bytes, codes, arith, is_text→IsText, pos, c_str, length,
}
use vantiq_sdk_micro.Memory.{and_then}
use vantiq_sdk_micro.Memory.Returns.{Returns}
use vantiq_sdk_micro.Number.{atoi, decimal}
use vantiq_sdk_micro.Curl.{Setting, post}
use vantiq_sdk_micro.Client.{Client, Handle, Callback, vc_is_valid}
use vantiq_sdk_micro.Client.Url.Text.{url_text}
use vantiq_sdk_micro.Client.Transfer.{VmeResult}
use vantiq_sdk_micro.Client.Transfer.Exchange.{exchange}
use vantiq_sdk_micro.Client.Callbacks.{equal_nocase}
use vantiq_sdk_micro.Client.Callbacks.Headers.{counted}
use vantiq_sdk_micro.Client.Request.Plan.{sending_plan, get_plan}
use vantiq_sdk_micro.Client.Request.Done.{Done}
use vantiq_sdk_micro.Client.Request.Verbs.{IsUrl}
use vantiq_sdk_micro.Api.{vme_free_result}
use vantiq_sdk_micro.Api.Guard.{DoneOn, vme_free_result-DoneOn}
use vantiq_sdk_micro.Api.Query.{vme_select, vme_select_callback}
use vantiq_sdk_micro.Api.Query.Params.{select_params}
use vantiq_sdk_micro.Api.Query.Done.{with_callback, vme_select-DoneOn, vme_select_callback-DoneOn}
use vantiq_sdk_micro.Api.Modify.{vme_insert}
use vantiq_sdk_micro.Api.Modify.Done.{IsDocument, vme_insert-DoneOn}
use vantiq_sdk_micro.Tests.{server, start_world, client, client-IsClient}

abbrev path : Bytes
path = codes "/r"

abbrev target : Bytes
target = codes "http://s/r"

target-IsUrl : IsUrl target
target-IsUrl = record { text = is_text→IsText target refl; small = omega arith }

count_shown : counted (codes "X-Total-Count: 3") 0 ≡ some 3
unfolding equal_nocase atoi c_str
count_shown = refl

abbrev json : Bytes
json = codes "{\"a\":1}"

json-IsDocument : IsDocument json 7
json-IsDocument = (omega arith, omega arith)

client-valid : vc_is_valid (some client) ≡ true
unfolding vc_is_valid
client-valid = refl

abbrev json_plan : List Setting
json_plan = sending_plan 3 client.http_hdrs (post 1) 7 target

vme_insert-DoneOn_example :
    Returns
      (DoneOn server client start_world json_plan json)
      (vme_insert server (some client) path json 7 start_world)
vme_insert-DoneOn_example =
    vme_insert-DoneOn server client start_world refl client-valid client-IsClient path json 7
      json-IsDocument target-IsUrl (omega arith, (omega arith, (3, count_shown), (omega arith, tt)))

abbrev upsert_target : Bytes
upsert_target = codes "http://s/r?upsert=true"

upsert_target-IsUrl : IsUrl upsert_target
upsert_target-IsUrl = record { text = is_text→IsText upsert_target refl; small = omega arith }

vme_free_result-DoneOn_example :
    Returns
      (λ r u. u ≡ record start_world { live = 5; app_calls = [] })
      (and_then
        (vme_insert server (some client) path json 7 start_world)
        λ r. vme_free_result (some r.0))
unfolding exchange
vme_free_result-DoneOn_example = vme_free_result-DoneOn server vme_insert-DoneOn_example

abbrev select_target : Bytes
select_target = codes "http://s/r?limit=20;where=w"

select_target-IsUrl : IsUrl (
    url_text server client.server_url path
      (select_params none (some (codes "w")) none (pos 0) (pos 20)))
unfolding decimal
select_target-IsUrl = record { text = is_text→IsText select_target refl; small = omega arith }

vme_select-DoneOn_example :
    Returns (DoneOn server client start_world (get_plan 3 client.http_hdrs select_target) []) (
      vme_select server
        (some client)
        path
        none
        (some (codes "w"))
        none
        (pos 0)
        (pos 20)
        start_world)
unfolding decimal
vme_select-DoneOn_example =
    vme_select-DoneOn server client start_world refl client-valid client-IsClient path none
      (some (codes "w")) none (pos 0) (pos 20) (omega arith) (omega arith) select_target-IsUrl
      (omega arith, (omega arith, (3, count_shown), (omega arith, tt)))

abbrev take_all_of : Callback
take_all_of before state contents = length contents

vme_select_callback-DoneOn_example :
    Returns
      (λ (r : VmeResult × Handle) u.
        (d : Client) × (r.1 ≡ some (with_callback none d))
        × Done server
            (with_callback (some take_all_of) client)
            start_world
            (get_plan 3 client.http_hdrs select_target)
            []
            (r.0, d)
            u)
      (vme_select_callback server
        (some client)
        path
        none
        (some (codes "w"))
        none
        (pos 0)
        (pos 20)
        (some take_all_of)
        start_world)
unfolding decimal
vme_select_callback-DoneOn_example =
    vme_select_callback-DoneOn server client start_world refl client-valid client-IsClient path none
      (some (codes "w")) none (pos 0) (pos 20) (some take_all_of) (omega arith) (omega arith)
      select_target-IsUrl (omega arith, (omega arith, (3, count_shown), (omega arith, tt)))
