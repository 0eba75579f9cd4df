-- ===== src/Api/Query.antt =====
-- The selects of src/vme/vme.c.
pub mod Params
pub mod Done
pub mod Invalid
use vantiq_sdk_micro.Base.{
  ℕ, Option, none, some, List, [], Bytes, codes, ℤ, pos, pos_part, length, ltb, if◌then◌else◌,
}
use vantiq_sdk_micro.Memory.{M, pure, ◌>>=◌, ◌>>◌, in_bounds}
use vantiq_sdk_micro.Number.{decimal}
use vantiq_sdk_micro.Curl.{Curl}
use vantiq_sdk_micro.Client.{Callback, Handle}
use vantiq_sdk_micro.Client.Params.{Param, build_param, free_params}
use vantiq_sdk_micro.Client.Transfer.{VmeResult}
use vantiq_sdk_micro.Client.Request.{vc_get}
use vantiq_sdk_micro.Api.{with_client, guarded}

add_given : List Param → (key : Bytes) → Option Bytes → M (List Param)
add_given params key none = pure params
add_given params key (some value) = build_param params key value

-- `sprintf` to a buffer of 32 bytes, for a number above 0
add_positive : List Param → (key : Bytes) → ℤ → M (List Param)
add_positive params key n =
    let text = decimal (pos_part n) in
    if ltb 0 (pos_part n)
    then (do in_bounds (ltb (length text) 32); build_param params key text)
    else pure params

pub build_select_params :
    (prop_specs where' sort_spec : Option Bytes) → (page limit : ℤ) → M (List Param)
unfolding add_given add_positive
build_select_params prop_specs where' sort_spec page limit = do
  params ← add_given [] (codes "props") prop_specs
  params ← add_given params (codes "where") where'
  params ← add_given params (codes "sort") sort_spec
  params ← add_positive params (codes "page") page
  add_positive params (codes "limit") limit

abbrev pub set_recv_callback : Option Callback → Handle → Handle
set_recv_callback f none = none
set_recv_callback f (some c) = some (record c { recv_callback = f })

module _ (curl : Curl) where
  -- `_select`
  select_with : Handle → Bytes → List Param → M (VmeResult × Handle)
  select_with vme rs_uri params = with_client vme λ c. vc_get curl c rs_uri params

  pub vme_select :
      Handle
      → (rs_uri : Bytes) (prop_specs where' sort_spec : Option Bytes) (page limit : ℤ)
      → M (VmeResult × Handle)
  unfolding select_with
  vme_select vme rs_uri prop_specs where' sort_spec page limit = do
    params ← build_select_params prop_specs where' sort_spec page limit
    (r, vme) ← select_with vme rs_uri params
    free_params params
    pure (r, vme)

  pub vme_select_one :
      Handle → (rs_uri : Bytes) (props where' : Option Bytes) → M (VmeResult × Handle)
  vme_select_one vme rs_uri props where' = vme_select vme rs_uri props where' none (pos 0) (pos 1)

  pub vme_select_count :
      Handle
      → (rs_uri : Bytes) (prop_specs where' sort_spec : Option Bytes) → M (VmeResult × Handle)
  unfolding select_with
  vme_select_count vme rs_uri prop_specs where' sort_spec = guarded vme do
    params ← build_select_params prop_specs where' sort_spec (pos 0) (pos 0)
    params ← build_param params (codes "count") (codes "true")
    (r, vme) ← select_with vme rs_uri params
    free_params params
    pure (r, vme)

  -- The callback is the client's for the time of this call.
  pub vme_select_callback :
      Handle
      → (rs_uri : Bytes) (prop_specs where' sort_spec : Option Bytes) (page limit : ℤ)
      → Option Callback
      → M (VmeResult × Handle)
  vme_select_callback vme rs_uri prop_specs where' sort_spec page limit callback = guarded vme do
    let vme = set_recv_callback callback vme
    (r, vme) ← vme_select vme rs_uri prop_specs where' sort_spec page limit
    pure (r, set_recv_callback none vme)
