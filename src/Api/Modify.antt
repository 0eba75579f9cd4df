-- ===== src/Api/Modify.antt =====
-- The entry points of src/vme/vme.c that change a resource.
pub mod Done
pub mod Delete
pub mod Invalid
use vantiq_sdk_micro.Base.{
  ℕ, Bool, true, false, Option, none, some, List, [], Bytes, codes, if◌then◌else◌,
}
use vantiq_sdk_micro.Memory.{M, pure, ◌>>=◌, ◌>>◌}
use vantiq_sdk_micro.Buf.{ensure_size, concat, dealloc}
use vantiq_sdk_micro.Curl.{Curl}
use vantiq_sdk_micro.Client.{Client, Handle, vc_from_vme}
use vantiq_sdk_micro.Client.Params.{Param, build_param, free_params}
use vantiq_sdk_micro.Client.Transfer.{VmeResult}
use vantiq_sdk_micro.Client.Request.{vc_delete, vc_post, vc_put, vc_patch}
use vantiq_sdk_micro.Api.{with_client}

add_where : List Param → Option Bytes → M (List Param)
add_where params none = pure params
add_where params (some value) = build_param params (codes "where") value

patch_on : Curl → Handle → Handle → Bytes → Bytes → M (Option VmeResult × Handle)
patch_on curl vme none rs_uri json = pure (none, vme)
patch_on curl vme (some c) rs_uri json = do
  (r, c) ← vc_patch curl c rs_uri json
  pure (some r, some c)

-- `json` is the block that the pointer leads to, and `size` how much of it is sent.
module _ (curl : Curl) where
  -- `_delete`
  delete_with :
      Handle → (rs_uri : Bytes) → (where' : Option Bytes) → (count : Bool) → M (VmeResult × Handle)
  unfolding add_where
  delete_with vme rs_uri where' count = with_client vme λ c. do
    params ← add_where [] where'
    params ← (if count then build_param params (codes "count") (codes "true") else pure params)
    (r, c) ← vc_delete curl c rs_uri params
    free_params params
    pure (r, c)

  pub vme_delete_count :
      Handle → (rs_uri : Bytes) → (where' : Option Bytes) → M (VmeResult × Handle)
  unfolding delete_with
  vme_delete_count vme rs_uri where' = delete_with vme rs_uri where' true

  pub vme_delete : Handle → (rs_uri : Bytes) → (where' : Option Bytes) → M (VmeResult × Handle)
  unfolding delete_with
  vme_delete vme rs_uri where' = delete_with vme rs_uri where' false

  -- `_insert`
  insert_with : Handle → (rs_uri json : Bytes) → (size : ℕ) → List Param → M (VmeResult × Handle)
  insert_with vme rs_uri json size params = with_client vme λ c. do
    msg ← ensure_size none size
    msg ← concat msg json size
    (r, c) ← vc_post curl c rs_uri msg params
    msg ← dealloc msg
    pure (r, c)

  pub vme_insert : Handle → (rs_uri json : Bytes) → (size : ℕ) → M (VmeResult × Handle)
  unfolding insert_with
  vme_insert vme rs_uri json size = insert_with vme rs_uri json size []

  pub vme_update : Handle → (rs_uri json : Bytes) → (size : ℕ) → M (VmeResult × Handle)
  vme_update vme rs_uri json size = with_client vme λ c. do
    msg ← ensure_size none size
    msg ← concat msg json size
    (r, c) ← vc_put curl c rs_uri msg []
    msg ← dealloc msg
    pure (r, c)

  pub vme_upsert : Handle → (rs_uri json : Bytes) → (size : ℕ) → M (VmeResult × Handle)
  vme_upsert vme rs_uri json size = with_client vme λ c. do
    msg ← ensure_size none size
    msg ← concat msg json size
    params ← build_param [] (codes "upsert") (codes "true")
    (r, c) ← vc_post curl c rs_uri msg params
    free_params params
    msg ← dealloc msg
    pure (r, c)

  -- NULL on an invalid handle.
  pub vme_patch : Handle → (rs_uri json : Bytes) → M (Option VmeResult × Handle)
  unfolding patch_on
  vme_patch vme rs_uri json = patch_on curl vme (vc_from_vme vme) rs_uri json
