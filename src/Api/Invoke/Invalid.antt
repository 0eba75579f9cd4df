-- ===== src/Api/Invoke/Invalid.antt =====
-- The entry points of src/vme/vme.c that name a system resource, on a handle that is NULL or not
-- that of a client.
use vantiq_sdk_micro.Base.{ℕ, suc, ◌≡◌, refl, false, Option, none, Bytes}
use vantiq_sdk_micro.Memory.{World, at_live, ok, Granting}
use vantiq_sdk_micro.Memory.Returns.{Returns, returns}
use vantiq_sdk_micro.Curl.{Curl}
use vantiq_sdk_micro.Client.{Handle, vc_is_valid}
use vantiq_sdk_micro.Api.Guard.{rejection, rejected, with_client-rejected, vc_from_vme-invalid}
use vantiq_sdk_micro.Api.Modify.Done.{IsDocument, document-bind}
use vantiq_sdk_micro.Api.Invoke.{
  rsuri_on, vme_build_system_rsuri, vme_build_custom_rsuri, vme_publish, vme_execute,
  vme_query_source, vme_aggregate,
}

module _ (curl : Curl) (vme : Handle) (w : World) (g : Granting w)
    (e : vc_is_valid vme ≡ false) where
  -- On a handle that is NULL or has another magic number, with every allocation granted,
  -- vme_execute, vme_query_source and vme_aggregate return the error result, and nothing is
  -- allocated but its two blocks.
  pub invoke-rejected :
      (name document : Bytes)
      → (vme_execute curl vme name document w ≡ rejected vme w)
        × (vme_query_source curl vme name document w ≡ rejected vme w)
        × (vme_aggregate curl vme name document w ≡ rejected vme w)
  unfolding vme_execute vme_query_source vme_aggregate
  invoke-rejected name document = let r = with_client-rejected vme w g e in (r _, r _, r _)

  -- On a handle that is NULL or has another magic number, with every allocation granted and a
  -- document inside its block, vme_publish returns the error result and leaves two blocks more
  -- than those of the result: its message buffer is not given back.
  pub vme_publish-rejected :
      (topic json : Bytes) (size : ℕ)
      → IsDocument json size
      → Returns
          (λ r u. (r ≡ (rejection, vme)) × (u ≡ at_live w (suc (suc (suc (suc w.live))))))
          (vme_publish curl vme topic json size w)
  unfolding vme_publish
  vme_publish-rejected topic json size doc = document-bind json size w _ g doc λ b h.
      rw (with_client-rejected vme (at_live w (suc (suc w.live))) g e _) (returns (refl, refl))

module _ (vme : Handle) (w : World) (g : Granting w) (e : vc_is_valid vme ≡ false) where
  pub rsuri-rejected :
      (type : ℕ) (name id : Option Bytes)
      → (vme_build_system_rsuri vme type name id w ≡ ok none w)
        × (vme_build_custom_rsuri vme name id w ≡ ok none w)
  unfolding vme_build_system_rsuri vme_build_custom_rsuri rsuri_on
  rsuri-rejected type name id =
      let none_from = vc_from_vme-invalid vme e in (rw none_from refl, rw none_from refl)
