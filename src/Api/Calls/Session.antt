-- ===== src/Api/Calls/Session.antt =====
-- A whole session of src/vme/vme.c: `vme_init`, calls with their results freed, and `vme_teardown`.
use mathlib.Core.Path.{subst}
use vantiq_sdk_micro.Base.{
  ℕ, suc, ◌+◌, ◌≤◌, ◌≡◌, ap, ◌∙◌, true, false, not, ◌&&◌, none, some, List, [], ◌∷◌, Bytes, arith,
  length, IsText, ◌==◌, if◌then◌else◌,
}
use vantiq_sdk_micro.Memory.{World, at_live, M, ◌>>=◌, Granting}
use vantiq_sdk_micro.Memory.Returns.{Returns, returns, bind}
use vantiq_sdk_micro.Curl.{Curl, curle_ok}
use vantiq_sdk_micro.Client.{Client}
use vantiq_sdk_micro.Client.Request.Done.{IsServedBy}
use vantiq_sdk_micro.Client.Session.Login.{
  first_client, first_plan, Opened, opening, vc_init-Opened,
}
use vantiq_sdk_micro.Api.{vme_init, vme_teardown}
use vantiq_sdk_micro.Api.Lifetime.{vme_teardown_lem}
use vantiq_sdk_micro.Api.Calls.{Call, calls}
use vantiq_sdk_micro.Api.Calls.Sequence.{Bounded, calls-Followed}

module _ (curl : Curl) where
  abbrev pub session : (server_url token : Bytes) → (version : ℕ) → List Call → M (Unit {0})
  session server_url token version ks = do
    vme ← vme_init curl server_url token version
    vme ← calls curl ks vme
    vme_teardown vme

  module _ (x : ℕ) (s token : Bytes) (version : ℕ) (ks : List Call) (w : World)
      (g : Granting w) where
    -- If libcurl starts up, every allocation is granted, the server's URL is not empty and both
    -- texts are C strings, the server keeps to the bounds, the login is not refused, and each
    -- call keeps to the bounds whatever the calls before have left, then a session of vme_init,
    -- any calls of twelve of the entry points, each with vme_free_result behind it, and
    -- vme_teardown runs to its end, and of all its blocks there are left the server's URL and at
    -- most one for each call.
    pub session-Returns :
        (curl.global_init == curle_ok) ≡ true
        → curl.easy_init ≡ true
        → IsText (x ∷ s)
        → IsText token
        → IsServedBy curl
            (first_client curl (x ∷ s) token version)
            w
            (first_plan curl w (x ∷ s) token)
            []
        → let e = opening curl x s token version w g in
          not (e.code == curle_ok) && not (e.status == 200) ≡ false
          → ((c : Client) (u : World)
              → Opened curl (x ∷ s) token version w e (some c) u
              → Bounded curl ks c u)
          → Returns
              (λ r u.
                (n : ℕ) × (n ≤ length ks)
                × (u ≡ record w { live = suc (n + w.live); app_calls = u.app_calls }))
              (session (x ∷ s) token version ks w)
    unfolding vme_init
    session-Returns global easy t k served accepted bounded =
        bind (vc_init-Opened curl x s token version w g global easy t k served) λ h u q.
          let handle : h ≡ some q.client =
            q.handle ∙ ap (λ r. if r then none else some q.client) accepted in
          let e = opening curl x s token version w g in
          let q' = subst (λ h'. Opened curl (x ∷ s) token version w e h' u) handle q in
          let g' : Granting u = ap (λ (v : World). v.ration) q.world ∙ g in
          rw handle (
            bind (calls-Followed curl ks q.client u g' q.valid q.is_client (bounded q.client u q'))
              λ h' v f.
                let n = f.lost_blocks in
                let live : v.live ≡ suc (suc (suc (suc (n + w.live)))) =
                  omega (
                    arith,
                    ap (λ (y : World). y.live) f.world,
                    ap (λ (y : World). y.live) q.world,
                  ) in
                rw
                  (
                    f.handle,
                    vme_teardown_lem f.client (suc (n + w.live)) v f.valid f.is_client.buffer live,
                  )
                  (returns (
                    n,
                    f.at_most,
                    ap (λ (y : World). at_live y (suc (n + w.live))) f.world
                        ∙ ap
                            (λ (y : World). record y {
                              live = suc (n + w.live);
                              app_calls = v.app_calls;
                            })
                            q.world,
                  )))
