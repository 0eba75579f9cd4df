-- ===== src/Api/Modify/Invalid.antt =====
-- The entry points of src/vme/vme.c that change a resource, on a handle that is NULL or not that of
-- a client.
use vantiq_sdk_micro.Base.{ℕ, ◌≡◌, refl, false, Option, none, Bytes}
use vantiq_sdk_micro.Memory.{World, ok, Granting}
use vantiq_sdk_micro.Curl.{Curl}
use vantiq_sdk_micro.Client.{Handle, vc_is_valid}
use vantiq_sdk_micro.Api.Guard.{rejected, with_client-rejected, vc_from_vme-invalid}
use vantiq_sdk_micro.Api.Modify.{
  delete_with, vme_delete, vme_delete_count, insert_with, vme_insert, vme_update, vme_upsert,
  patch_on, vme_patch,
}

module _ (curl : Curl) (vme : Handle) (w : World) (g : Granting w)
    (e : vc_is_valid vme ≡ false) where
  -- On a handle that is NULL or has another magic number, with every allocation granted,
  -- vme_insert, vme_update, vme_upsert, vme_delete and vme_delete_count return the error result
  -- and vme_patch returns NULL; the handle stays as it is and nothing is allocated but the two
  -- blocks of the error result.
  pub change-rejected :
      (rs_uri json : Bytes) (size : ℕ) (where' : Option Bytes)
      → (vme_insert curl vme rs_uri json size w ≡ rejected vme w)
        × (vme_update curl vme rs_uri json size w ≡ rejected vme w)
        × (vme_upsert curl vme rs_uri json size w ≡ rejected vme w)
        × (vme_delete curl vme rs_uri where' w ≡ rejected vme w)
        × (vme_delete_count curl vme rs_uri where' w ≡ rejected vme w)
        × (vme_patch curl vme rs_uri json w ≡ ok (none, vme) w)
  unfolding vme_insert vme_update vme_upsert vme_delete vme_delete_count vme_patch insert_with
      delete_with patch_on
  change-rejected rs_uri json size where' =
      let r = with_client-rejected vme w g e in
      (r _, r _, r _, r _, r _, rw (vc_from_vme-invalid vme e) refl)
