-- ===== src/Api/Invoke.antt =====
-- The entry points of src/vme/vme.c that name a system resource: paths, topics, procedures,
-- sources and aggregates.
pub mod Invalid
pub mod Done
pub mod Queries
use vantiq_sdk_micro.Base.{
  ℕ, ◌+◌, Bool, true, false, Option, none, some, List, [], ◌++◌, Bytes, codes, length, ◌==◌,
  if◌then◌else◌, snprintf,
}
use vantiq_sdk_micro.Memory.{M, pure, fault, ◌>>=◌, ◌>>◌, allocate, free}
use vantiq_sdk_micro.Buf.{ensure_size, concat, dealloc}
use vantiq_sdk_micro.Resource.{index, topics, procedures, custom, mapto_rsname, build_rsuri}
use vantiq_sdk_micro.Curl.{Curl}
use vantiq_sdk_micro.Client.{Client, Handle, vc_from_vme}
use vantiq_sdk_micro.Client.Params.{build_param, free_params}
use vantiq_sdk_micro.Client.Url.{strcpy_at}
use vantiq_sdk_micro.Client.Transfer.{VmeResult}
use vantiq_sdk_micro.Client.Request.{vc_post, vc_aggregate, vc_execute, vc_query}
use vantiq_sdk_micro.Client.Session.{last_char}
use vantiq_sdk_micro.Api.{with_client, guarded}

-- NULL on an invalid handle.
rsuri_on : Handle → (type : ℕ) → (name id : Option Bytes) → M (Option Bytes)
rsuri_on none type name id = pure none
rsuri_on (some c) type name id = do
  ns ← mapto_rsname type
  path ← build_rsuri c.api_version (some ns) name id
  pure (some path)

pub vme_build_system_rsuri : Handle → (type : ℕ) → (name id : Option Bytes) → M (Option Bytes)
unfolding rsuri_on
vme_build_system_rsuri vme type name id = rsuri_on (vc_from_vme vme) type name id

pub vme_build_custom_rsuri : Handle → (name id : Option Bytes) → M (Option Bytes)
unfolding rsuri_on
vme_build_custom_rsuri vme name id = rsuri_on (vc_from_vme vme) (index custom) name id

-- a text that the code takes not to be NULL
not_null : Option Bytes → M Bytes
not_null none = λ w. fault
not_null (some s) = pure s

-- The URI of an aggregate; `strcat` writes behind what `strcpy` wrote.
aggregate_uri : Bytes → M Bytes
aggregate_uri rs_uri = do
  let size = length rs_uri + (length (codes "/aggregate") + 1)
  allocate
  strcpy_at size 0 rs_uri
  last ← last_char rs_uri
  let suffix = if last == b'/' then codes "aggregate" else codes "/aggregate"
  strcpy_at size (length rs_uri) suffix
  pure (rs_uri ++ suffix)

module _ (curl : Curl) where
  -- The message is put into its buffer before the handle is looked at.
  pub vme_publish : Handle → (topic json : Bytes) → (size : ℕ) → M (VmeResult × Handle)
  unfolding not_null
  vme_publish vme topic json size = do
    msg ← ensure_size none size
    msg ← concat msg json size
    with_client vme λ c. do
      uri ← vme_build_system_rsuri vme (index topics) (some topic) none
      rs_uri ← not_null uri
      (r, c) ← vc_post curl c rs_uri msg []
      free
      msg ← dealloc msg
      pure (r, c)

  pub vme_execute : Handle → (proc_id args_doc : Bytes) → M (VmeResult × Handle)
  unfolding not_null
  vme_execute vme proc_id args_doc = with_client vme λ c. do
    uri ← vme_build_system_rsuri vme (index procedures) (some proc_id) none
    rs_uri ← not_null uri
    (r, c) ← vc_execute curl c rs_uri args_doc
    free
    pure (r, c)

  pub vme_query_source : Handle → (source_id q_params : Bytes) → M (VmeResult × Handle)
  vme_query_source vme source_id q_params = with_client vme λ c. do
    let len = length (codes "/sources/query/") + 1 + length source_id
    allocate
    let (_, source_uri) = snprintf len (codes "/sources/" ++ (source_id ++ codes "/query"))
    (r, c) ← vc_query curl c source_uri q_params
    free
    pure (r, c)

  pub vme_aggregate : Handle → (rs_uri pipeline : Bytes) → M (VmeResult × Handle)
  unfolding aggregate_uri
  vme_aggregate vme rs_uri pipeline = with_client vme λ c. do
    agg_uri ← aggregate_uri rs_uri
    params ← build_param [] (codes "pipeline") pipeline
    (r, c) ← vc_aggregate curl c agg_uri params
    free_params params
    free
    pure (r, c)
