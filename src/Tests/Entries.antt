-- ===== src/Tests/Entries.antt =====
-- More of the entry points, tried out.
use vantiq_sdk_micro.Base.{
  refl, ◌≡◌, true, some, Option, [], Bytes, codes, arith, is_text→IsText, c_str,
}
use vantiq_sdk_micro.Memory.Returns.{Returns}
use vantiq_sdk_micro.Number.{atoi, decimal}
use vantiq_sdk_micro.Curl.{post}
use vantiq_sdk_micro.Client.{Client, Handle, vc_is_valid}
use vantiq_sdk_micro.Client.Url.Text.{url_text}
use vantiq_sdk_micro.Client.Transfer.{VmeResult}
use vantiq_sdk_micro.Client.Callbacks.{equal_nocase}
use vantiq_sdk_micro.Client.Callbacks.Headers.{counted}
use vantiq_sdk_micro.Client.Request.Plan.{sending_plan, patch_plan}
use vantiq_sdk_micro.Client.Request.Done.{Done}
use vantiq_sdk_micro.Client.Request.Verbs.{IsUrl}
use vantiq_sdk_micro.Api.Guard.{DoneOn}
use vantiq_sdk_micro.Api.Modify.{vme_patch}
use vantiq_sdk_micro.Api.Modify.Delete.{vme_patch-Done}
use vantiq_sdk_micro.Api.Invoke.{vme_publish, vme_execute}
use vantiq_sdk_micro.Api.Invoke.Done.{
  IsTopic, topic_path, procedure_path, vme_publish-DoneOn, vme_execute-DoneOn,
}
use vantiq_sdk_micro.Tests.{server, start_world, client, client-IsClient}

shown : counted (codes "X-Total-Count: 3") 0 ≡ some 3
unfolding equal_nocase atoi c_str
shown = refl

client-valid : vc_is_valid (some client) ≡ true
unfolding vc_is_valid
client-valid = refl

abbrev json : Bytes
json = codes "{\"a\":1}"

client-IsTopic : IsTopic client (codes "t")
client-IsTopic = record { version = omega arith; fits = omega arith }

abbrev topic_target : Bytes
topic_target = codes "http://s/api/v1/resources/topics/t"

topic_target-IsUrl : IsUrl (url_text server client.server_url (topic_path client (codes "t")) [])
unfolding decimal
topic_target-IsUrl = record { text = is_text→IsText topic_target refl; small = omega arith }

vme_publish-DoneOn_example :
    Returns
      (DoneOn server client start_world
        (sending_plan 3 client.http_hdrs (post 1) 7 topic_target)
        json)
      (vme_publish server (some client) (codes "t") json 7 start_world)
unfolding decimal
vme_publish-DoneOn_example =
    vme_publish-DoneOn server client start_world refl client-valid client-IsClient (codes "t") json
      7 (omega arith, omega arith) client-IsTopic topic_target-IsUrl
      (omega arith, (omega arith, (3, shown), (omega arith, tt)))

abbrev procedure_target : Bytes
procedure_target = codes "http://s/api/v1/resources/procedures/p"

procedure_target-IsUrl :
    IsUrl (url_text server client.server_url (procedure_path client (codes "p")) [])
unfolding decimal
procedure_target-IsUrl = record { text = is_text→IsText procedure_target refl; small = omega arith }

vme_execute-DoneOn_example :
    Returns
      (DoneOn server client start_world
        (sending_plan 3 client.http_hdrs (post 1) 7 procedure_target)
        json)
      (vme_execute server (some client) (codes "p") json start_world)
unfolding decimal
vme_execute-DoneOn_example =
    vme_execute-DoneOn server client start_world refl client-valid client-IsClient (codes "p") json
      (omega arith) (omega arith) (omega arith) procedure_target-IsUrl
      (omega arith, (omega arith, (3, shown), (omega arith, tt)))

abbrev where_url : Bytes
where_url = codes "http://s/r?where=w"

where_url-IsUrl : IsUrl where_url
where_url-IsUrl = record { text = is_text→IsText where_url refl; small = omega arith }

abbrev plain_url : Bytes
plain_url = codes "http://s/r"

plain_url-IsUrl : IsUrl plain_url
plain_url-IsUrl = record { text = is_text→IsText plain_url refl; small = omega arith }

vme_patch-Done_example :
    Returns
      (λ (r : Option VmeResult × Handle) u.
        (a : VmeResult) × (d : Client) × (r ≡ (some a, some d))
        × Done server client start_world (patch_plan 3 client.http_hdrs json plain_url) [] (a, d) u)
      (vme_patch server (some client) (codes "/r") json start_world)
vme_patch-Done_example =
    vme_patch-Done server client start_world refl client-valid client-IsClient (codes "/r") json
      plain_url-IsUrl (omega arith, (omega arith, (3, shown), (omega arith, tt)))
