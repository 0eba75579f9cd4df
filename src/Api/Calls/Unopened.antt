-- ===== src/Api/Calls/Unopened.antt =====
-- A session of src/vme/vme.c whose login is refused.
use vantiq_sdk_micro.Base.{
  ℕ, ◌+◌, ◌≡◌, refl, ap, ◌∙◌, false, true, not, ◌&&◌, none, some, List, [], ◌∷◌, Bytes, IsText,
  ◌==◌, if◌then◌else◌, arith,
}
use vantiq_sdk_micro.Memory.{World, at_live, Granting}
use vantiq_sdk_micro.Memory.Returns.{Returns, returns, bind}
use vantiq_sdk_micro.Curl.{Curl, curle_ok}
use vantiq_sdk_micro.Client.{vc_is_valid}
use vantiq_sdk_micro.Client.Request.Done.{IsServedBy}
use vantiq_sdk_micro.Client.Session.Login.{first_client, first_plan, opening}
use vantiq_sdk_micro.Api.Lifetime.{vme_init-Opened, vme_teardown-rejected}
use vantiq_sdk_micro.Api.Calls.{Call}
use vantiq_sdk_micro.Api.Calls.Rejected.{all_kept, AllHaveArguments, calls-rejected}
use vantiq_sdk_micro.Api.Calls.Session.{session}

none-invalid : vc_is_valid none ≡ false
unfolding vc_is_valid
none-invalid = refl

module _ (curl : Curl) (x : ℕ) (s token : Bytes) (version : ℕ) (ks : List Call) (w : World)
    (g : Granting w) where
  -- If libcurl starts up, every allocation is granted, the server's URL is not empty and both
  -- texts are C strings, the server keeps to the bounds, the login is refused, which is that
  -- libcurl's code is not CURLE_OK and the status is not 200, and page, limit and documents keep
  -- to the bounds, then a session of vme_init, any calls of twelve of the entry points, each
  -- with vme_free_result behind it, and vme_teardown returns all the same, and of it there are
  -- left the four blocks of the client that vme_init has dropped, and two for each publication.
  pub session-rejected :
      (curl.global_init == curle_ok) ≡ true
      → curl.easy_init ≡ true
      → IsText (x ∷ s)
      → IsText token
      → IsServedBy curl
          (first_client curl (x ∷ s) token version)
          w
          (first_plan curl w (x ∷ s) token)
          []
      → let e = opening curl x s token version w g in
        not (e.code == curle_ok) && not (e.status == 200) ≡ true
        → AllHaveArguments ks
        → Returns
            (λ r u. u ≡ record w { live = all_kept ks + (4 + w.live); app_calls = e.last.calls })
            (session curl (x ∷ s) token version ks w)
  session-rejected global easy t k served refused arguments =
      bind (vme_init-Opened curl x s token version w g global easy t k served) λ h u q.
        let e = opening curl x s token version w g in
        let handle : h ≡ none = q.handle ∙ ap (λ r. if r then none else some q.client) refused in
        let g' : Granting u = ap (λ (v : World). v.ration) q.world ∙ g in
        let n = all_kept ks + u.live in
        let live : n ≡ all_kept ks + (4 + w.live) =
          omega (arith, ap (λ (v : World). v.live) q.world) in
        rw
          (
            handle,
            calls-rejected curl none none-invalid ks u g' arguments,
            vme_teardown-rejected none (at_live u n) none-invalid,
          )
          (returns (
            ap (at_live u) live
            ∙ ap (λ (v : World). at_live v (all_kept ks + (4 + w.live))) q.world))
