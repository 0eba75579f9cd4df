-- ===== src/Api/Calls.antt =====
-- What an application does with a handle of src/vme/vme.c: calls of the entry points, one after the
-- other, each with `vme_free_result` behind it.
pub mod Sequence
pub mod Session
pub mod Rejected
pub mod Unopened
use vantiq_sdk_micro.Base.{
  ◌^◌, ℕ, ◌<◌, ◌≡◌, true, false, Option, none, some, List, [], ◌∷◌, Bytes, codes, ℤ, pos, length,
  take, size_mod,
}
use vantiq_sdk_micro.Memory.{World, M, pure, ◌>>=◌, ◌>>◌, Granting}
use vantiq_sdk_micro.Memory.Returns.{Returns}
use vantiq_sdk_micro.Buf.Contents.{IsSmall}
use vantiq_sdk_micro.Resource.{rsuri_size}
use vantiq_sdk_micro.Curl.{Setting, Curl, post, put}
use vantiq_sdk_micro.Client.{Client, Handle, vc_is_valid}
use vantiq_sdk_micro.Client.Params.{param}
use vantiq_sdk_micro.Client.Url.Text.{url_text}
use vantiq_sdk_micro.Client.Callbacks.Body.{unsent}
use vantiq_sdk_micro.Client.Transfer.{VmeResult}
use vantiq_sdk_micro.Client.Request.Plan.{get_plan, delete_plan, sending_plan}
use vantiq_sdk_micro.Client.Request.Done.{IsServedBy}
use vantiq_sdk_micro.Client.Request.Verbs.{IsClient, IsUrl}
use vantiq_sdk_micro.Api.{vme_free_result}
use vantiq_sdk_micro.Api.Guard.{DoneOn}
use vantiq_sdk_micro.Api.Query.{vme_select, vme_select_count, vme_select_one}
use vantiq_sdk_micro.Api.Query.Params.{select_params, IsInt}
use vantiq_sdk_micro.Api.Query.Done.{
  vme_select-DoneOn, vme_select_count-DoneOn, vme_select_one-DoneOn,
}
use vantiq_sdk_micro.Api.Modify.{vme_insert, vme_update, vme_upsert, vme_delete, vme_delete_count}
use vantiq_sdk_micro.Api.Modify.Done.{
  IsDocument, vme_insert-DoneOn, vme_update-DoneOn, vme_upsert-DoneOn,
}
use vantiq_sdk_micro.Api.Modify.Delete.{delete_params, vme_delete-DoneOn, vme_delete_count-DoneOn}
use vantiq_sdk_micro.Api.Invoke.{vme_publish, vme_execute, vme_query_source, vme_aggregate}
use vantiq_sdk_micro.Api.Invoke.Done.{
  IsTopic, topic_path, procedure_path, vme_publish-DoneOn, vme_execute-DoneOn,
}
use vantiq_sdk_micro.Api.Invoke.Queries.{
  source_path, aggregate_path, vme_query_source-DoneOn, vme_aggregate-DoneOn,
}

-- A call with its arguments.
pub data Call : Type 0 where
  select : (rs_uri : Bytes) → (prop_specs where' sort_spec : Option Bytes) → (page limit : ℤ) → Call
  select_count : (rs_uri : Bytes) → (prop_specs where' sort_spec : Option Bytes) → Call
  select_one : (rs_uri : Bytes) → (props where' : Option Bytes) → Call
  insert update upsert : (rs_uri json : Bytes) → (size : ℕ) → Call
  delete delete_count : (rs_uri : Bytes) → (where' : Option Bytes) → Call
  publish : (topic json : Bytes) → (size : ℕ) → Call
  execute : (proc_id args_doc : Bytes) → Call
  query_source : (source_id q_params : Bytes) → Call
  aggregate : (first : ℕ) → (rest pipeline : Bytes) → Call

module _ (curl : Curl) where
  abbrev pub call : Call → Handle → M (VmeResult × Handle)
  call (select rs_uri prop_specs where' sort_spec page limit) vme =
      vme_select curl vme rs_uri prop_specs where' sort_spec page limit
  call (select_count rs_uri prop_specs where' sort_spec) vme =
      vme_select_count curl vme rs_uri prop_specs where' sort_spec
  call (select_one rs_uri props where') vme = vme_select_one curl vme rs_uri props where'
  call (insert rs_uri json size) vme = vme_insert curl vme rs_uri json size
  call (update rs_uri json size) vme = vme_update curl vme rs_uri json size
  call (upsert rs_uri json size) vme = vme_upsert curl vme rs_uri json size
  call (delete rs_uri where') vme = vme_delete curl vme rs_uri where'
  call (delete_count rs_uri where') vme = vme_delete_count curl vme rs_uri where'
  call (publish topic json size) vme = vme_publish curl vme topic json size
  call (execute proc_id args_doc) vme = vme_execute curl vme proc_id args_doc
  call (query_source source_id q_params) vme = vme_query_source curl vme source_id q_params
  call (aggregate first rest pipeline) vme = vme_aggregate curl vme (first ∷ rest) pipeline

  -- The calls in order, with each result freed.
  abbrev pub calls : List Call → Handle → M Handle
  calls [] vme = pure vme
  calls (k ∷ ks) vme = do (result, vme) ← call k vme; vme_free_result (some result); calls ks vme

  -- The URL that a call asks for.
  abbrev pub target_of : Call → Client → Bytes
  target_of (select rs_uri prop_specs where' sort_spec page limit) c =
      url_text curl c.server_url rs_uri (select_params prop_specs where' sort_spec page limit)
  target_of (select_count rs_uri prop_specs where' sort_spec) c =
      url_text curl c.server_url rs_uri (
        param (codes "count") (codes "true")
        ∷ select_params prop_specs where' sort_spec (pos 0) (pos 0))
  target_of (select_one rs_uri props where') c =
      url_text curl c.server_url rs_uri (select_params props where' none (pos 0) (pos 1))
  target_of (insert rs_uri json size) c = url_text curl c.server_url rs_uri []
  target_of (update rs_uri json size) c = url_text curl c.server_url rs_uri []
  target_of (upsert rs_uri json size) c =
      url_text curl c.server_url rs_uri (param (codes "upsert") (codes "true") ∷ [])
  target_of (delete rs_uri where') c =
      url_text curl c.server_url rs_uri (delete_params where' false)
  target_of (delete_count rs_uri where') c =
      url_text curl c.server_url rs_uri (delete_params where' true)
  target_of (publish topic json size) c = url_text curl c.server_url (topic_path c topic) []
  target_of (execute proc_id args_doc) c = url_text curl c.server_url (procedure_path c proc_id) []
  target_of (query_source source_id q_params) c =
      url_text curl c.server_url (source_path source_id) []
  target_of (aggregate first rest pipeline) c =
      url_text curl c.server_url (aggregate_path (first ∷ rest))
        (param (codes "pipeline") pipeline ∷ [])

  -- What can be pulled from it.
  abbrev pub message_of : Call → Client → Bytes
  message_of (insert rs_uri json size) c = take size json
  message_of (update rs_uri json size) c = take size json
  message_of (upsert rs_uri json size) c = take size json
  message_of (publish topic json size) c = take size json
  message_of (execute proc_id args_doc) c = args_doc
  message_of (query_source source_id q_params) c = q_params
  message_of _ c = unsent c.send_state

  -- The options that it sets.
  abbrev pub plan_of : Call → Client → World → List Setting
  plan_of k c w = plan k
    where
      sending : Setting → ℕ → List Setting
      sending verb n = sending_plan w.level c.http_hdrs verb n (target_of k c)

      plan : Call → List Setting
      plan (insert rs_uri json size) = sending (post 1) size
      plan (update rs_uri json size) = sending (put 1) size
      plan (upsert rs_uri json size) = sending (post 1) size
      plan (delete rs_uri where') = delete_plan w.level c.http_hdrs (target_of k c)
      plan (delete_count rs_uri where') = delete_plan w.level c.http_hdrs (target_of k c)
      plan (publish topic json size) = sending (post 1) size
      plan (execute proc_id args_doc) = sending (post 1) (length args_doc)
      plan (query_source source_id q_params) = sending (post 1) (length q_params)
      plan _ = get_plan w.level c.http_hdrs (target_of k c)

  -- The arguments keep to the bounds.
  abbrev pub IsCall : Call → Client → Type 0
  IsCall (select rs_uri prop_specs where' sort_spec page limit) c = IsInt page × IsInt limit
  IsCall (select_count rs_uri prop_specs where' sort_spec) c = Unit
  IsCall (select_one rs_uri props where') c = Unit
  IsCall (insert rs_uri json size) c = IsDocument json size
  IsCall (update rs_uri json size) c = IsDocument json size
  IsCall (upsert rs_uri json size) c = IsDocument json size
  IsCall (delete rs_uri where') c = Unit
  IsCall (delete_count rs_uri where') c = Unit
  IsCall (publish topic json size) c = IsDocument json size × IsTopic c topic
  IsCall (execute proc_id args_doc) c =
      (c.api_version < 1000)
      × (rsuri_size (codes "procedures") (some proc_id) none < 2 ^ 31)
      × IsSmall (length args_doc)
  IsCall (query_source source_id q_params) c = IsSmall (length q_params)
  IsCall (aggregate first rest pipeline) c = Unit

  -- The arguments, the URL and the server keep to the bounds.
  pub record Ready (k : Call) (c : Client) (w : World) : Type 0 where
    pub is_call : IsCall k c
    pub is_url : IsUrl (target_of k c)
    pub served : IsServedBy curl c w (plan_of k c w) (message_of k c)

  module _ (c : Client) (w : World) (g : Granting w) (valid : vc_is_valid (some c) ≡ true)
      (v : IsClient c) where
    -- Whatever the call is, it makes its request.
    pub call-DoneOn :
        (k : Call)
        → Ready k c w
        → Returns (DoneOn curl c w (plan_of k c w) (message_of k c)) (call k (some c) w)
    call-DoneOn (select rs_uri prop_specs where' sort_spec page limit) r =
        vme_select-DoneOn curl c w g valid v rs_uri prop_specs where' sort_spec page limit
          r.is_call.0 r.is_call.1 r.is_url r.served
    call-DoneOn (select_count rs_uri prop_specs where' sort_spec) r =
        vme_select_count-DoneOn curl c w g valid v rs_uri prop_specs where' sort_spec r.is_url
          r.served
    call-DoneOn (select_one rs_uri props where') r =
        vme_select_one-DoneOn curl c w g valid v rs_uri props where' r.is_url r.served
    call-DoneOn (insert rs_uri json size) r =
        vme_insert-DoneOn curl c w g valid v rs_uri json size r.is_call r.is_url r.served
    call-DoneOn (update rs_uri json size) r =
        vme_update-DoneOn curl c w g valid v rs_uri json size r.is_call r.is_url r.served
    call-DoneOn (upsert rs_uri json size) r =
        vme_upsert-DoneOn curl c w g valid v rs_uri json size r.is_call r.is_url r.served
    call-DoneOn (delete rs_uri where') r =
        vme_delete-DoneOn curl c w g valid v rs_uri where' r.is_url r.served
    call-DoneOn (delete_count rs_uri where') r =
        vme_delete_count-DoneOn curl c w g valid v rs_uri where' r.is_url r.served
    call-DoneOn (publish topic json size) r =
        vme_publish-DoneOn curl c w g valid v topic json size r.is_call.0 r.is_call.1 r.is_url
          r.served
    call-DoneOn (execute proc_id args_doc) r =
        let (version, fits, small) = r.is_call in
        vme_execute-DoneOn curl c w g valid v proc_id args_doc version fits small r.is_url r.served
    call-DoneOn (query_source source_id q_params) r =
        vme_query_source-DoneOn curl c w g valid v source_id q_params r.is_call r.is_url r.served
    call-DoneOn (aggregate first rest pipeline) r =
        vme_aggregate-DoneOn curl c w g valid v first rest pipeline r.is_url r.served
