-- ===== src/Api/Lifetime.antt =====
-- A session of src/vme/vme.c from `vme_init` to `vme_teardown`: the blocks that are left of it.
use vantiq_sdk_micro.Base.{
  ℕ, suc, Bool, ◌≡◌, refl, ap, true, false, not, ◌&&◌, none, some, [], ◌∷◌, Bytes, IsText, ◌==◌,
  if◌then◌else◌,
}
use vantiq_sdk_micro.Memory.{World, at_live, ok, ◌>>=◌, Granting}
use vantiq_sdk_micro.Memory.Returns.{Returns, returns, bind}
use vantiq_sdk_micro.Buf.Growth.{IsBuf}
use vantiq_sdk_micro.Curl.{Curl, curle_ok}
use vantiq_sdk_micro.Client.{Client, Handle, vc_is_valid, vc_from_vme}
use vantiq_sdk_micro.Client.Transfer.Exchange.{Ending}
use vantiq_sdk_micro.Client.Request.Done.{IsServedBy, ending}
use vantiq_sdk_micro.Client.Session.Login.{
  vc_teardown_lem, first_client, first_plan, Opened, vc_init-Opened,
}
use vantiq_sdk_micro.Api.{
  vme_init, vme_teardown, teardown_client, vme_callback_state, set_callback_state,
}
use vantiq_sdk_micro.Api.Guard.{vc_from_vme-valid, vc_from_vme-invalid}

pub vme_teardown_lem :
    (c : Client) (n : ℕ) (w : World)
    → vc_is_valid (some c) ≡ true
    → IsBuf c.recv_buf
    → w.live ≡ suc (suc (suc n))
    → vme_teardown (some c) w ≡ ok tt (at_live w n)
unfolding vme_teardown teardown_client
vme_teardown_lem c n w e v live = rw (vc_from_vme-valid c e) (vc_teardown_lem c n w v live)

-- The blocks that a session leaves: the client with its URL and its buffer if there is no handle, and
-- the URL otherwise.
abbrev pub left_behind : Ending → ℕ → ℕ
left_behind e n =
    if not (e.code == curle_ok) && not (e.status == 200) then suc (suc (suc (suc n))) else suc n

teardown_if :
    (c : Client) (refused : Bool) (n : ℕ) (w : World)
    → vc_is_valid (some c) ≡ true
    → IsBuf c.recv_buf
    → w.live ≡ suc (suc (suc (suc n)))
    → vme_teardown (if refused then none else some c) w
      ≡ ok tt (at_live w (if refused then suc (suc (suc (suc n))) else suc n))
unfolding vme_teardown teardown_client vc_from_vme vc_is_valid
teardown_if c true n w e v live = ap (λ k. ok tt (at_live w k)) live
teardown_if c false n w e v live = vme_teardown_lem c (suc n) w e v live

module _ (curl : Curl) (x : ℕ) (s token : Bytes) (version : ℕ) (w : World) (g : Granting w) where
  abbrev opened : Ending
  opened =
      ending curl (first_client curl (x ∷ s) token version) w (first_plan curl w (x ∷ s) token) []

  -- `vme_init` is `vc_init`.
  pub vme_init-Opened :
      (curl.global_init == curle_ok) ≡ true
      → curl.easy_init ≡ true
      → IsText (x ∷ s)
      → IsText token
      → IsServedBy curl
          (first_client curl (x ∷ s) token version)
          w
          (first_plan curl w (x ∷ s) token)
          []
      → Returns (Opened curl (x ∷ s) token version w opened) (vme_init curl (x ∷ s) token version w)
  unfolding vme_init
  vme_init-Opened = vc_init-Opened curl x s token version w g

  -- If libcurl starts up, every allocation is granted, the server's URL is not empty and both
  -- texts are C strings, and the server keeps to the bounds, then vme_init and vme_teardown of
  -- its handle return, and of the session one block is left, the server's URL; if there was no
  -- handle, all four are left.
  pub vme_init-vme_teardown :
      (curl.global_init == curle_ok) ≡ true
      → curl.easy_init ≡ true
      → IsText (x ∷ s)
      → IsText token
      → IsServedBy curl
          (first_client curl (x ∷ s) token version)
          w
          (first_plan curl w (x ∷ s) token)
          []
      → Returns
          (λ r u. u ≡ record w { live = left_behind opened w.live; app_calls = opened.last.calls })
          ((vme_init curl (x ∷ s) token version >>= vme_teardown) w)
  unfolding vme_init
  vme_init-vme_teardown global easy t k served =
      bind (vme_init-Opened global easy t k served) λ h u q.
        let refused = not (opened.code == curle_ok) && not (opened.status == 200) in
        let live = ap (λ (v : World). v.live) q.world in
        rw (q.handle, teardown_if q.client refused w.live u q.valid q.is_client.buffer live)
          (returns (ap (λ (v : World). at_live v (left_behind opened w.live)) q.world))

-- On an invalid handle these two do nothing.
pub vme_teardown-rejected :
    (vme : Handle) (w : World) → vc_is_valid vme ≡ false → vme_teardown vme w ≡ ok tt w
unfolding vme_teardown teardown_client
vme_teardown-rejected vme w e = rw (vc_from_vme-invalid vme e) refl

pub vme_callback_state-rejected :
    (vme : Handle) (state : ℕ) (w : World)
    → vc_is_valid vme ≡ false
    → vme_callback_state vme state w ≡ ok vme w
unfolding vme_callback_state set_callback_state
vme_callback_state-rejected vme state w e = rw (vc_from_vme-invalid vme e) refl
