-- ===== src/Api/Query/Invalid.antt =====
-- The selects of src/vme/vme.c on a handle that is NULL or not that of a client.
use vantiq_sdk_micro.Base.{
  suc, ◌+◌, ◌*◌, ◌≡◌, refl, false, Option, none, Bytes, ℤ, pos, arith, length,
}
use vantiq_sdk_micro.Memory.{World, at_live, Granting}
use vantiq_sdk_micro.Curl.{Curl}
use vantiq_sdk_micro.Client.{Handle, vc_is_valid}
use vantiq_sdk_micro.Client.Params.{free_params_lem}
use vantiq_sdk_micro.Api.Guard.{rejected, with_client-rejected, guarded-rejected}
use vantiq_sdk_micro.Api.Query.{select_with, vme_select, vme_select_count, vme_select_one}
use vantiq_sdk_micro.Api.Query.Params.{select_params, IsInt, build_select_params_lem}

module _ (curl : Curl) (vme : Handle) (w : World) (g : Granting w)
    (e : vc_is_valid vme ≡ false) where
  -- On a handle that is NULL or has another magic number, with every allocation granted and page
  -- and limit of 32 bits, vme_select returns the error result, leaves the handle as it is, and
  -- gives its parameters back.
  pub vme_select-rejected :
      (rs_uri : Bytes) (prop_specs where' sort_spec : Option Bytes) (page limit : ℤ)
      → IsInt page
      → IsInt limit
      → vme_select curl vme rs_uri prop_specs where' sort_spec page limit w ≡ rejected vme w
  unfolding vme_select select_with
  vme_select-rejected rs_uri prop_specs where' sort_spec page limit p l =
      let ps = select_params prop_specs where' sort_spec page limit in
      let n = 3 * length ps + w.live in
      rw
        (
          build_select_params_lem w g prop_specs where' sort_spec page limit p l,
          with_client-rejected vme (at_live w n) g e _,
          free_params_lem ps (suc (suc w.live)) (at_live w (suc (suc n))) (omega arith),
        )
        refl

  pub vme_select_count-rejected :
      (rs_uri : Bytes) (prop_specs where' sort_spec : Option Bytes)
      → vme_select_count curl vme rs_uri prop_specs where' sort_spec w ≡ rejected vme w
  unfolding vme_select_count
  vme_select_count-rejected rs_uri prop_specs where' sort_spec = guarded-rejected vme w g e _

  pub vme_select_one-rejected :
      (rs_uri : Bytes) (props where' : Option Bytes)
      → vme_select_one curl vme rs_uri props where' w ≡ rejected vme w
  unfolding vme_select_one
  vme_select_one-rejected rs_uri props where' =
      vme_select-rejected rs_uri props where' none (pos 0) (pos 1) (omega arith) (omega arith)
