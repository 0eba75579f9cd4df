-- ===== src/Api/Query/Done.antt =====
-- The selects of src/vme/vme.c from the caller's side.
use vantiq_sdk_micro.Base.{
  ◌+◌, ◌*◌, ◌≡◌, refl, ap, ◌∙◌, true, Option, none, some, List, ◌∷◌, Bytes, codes, ℤ, pos, arith,
  length,
}
use vantiq_sdk_micro.Memory.{World, at_live, pure, ◌>>=◌, ◌>>◌, Granting}
use vantiq_sdk_micro.Memory.Returns.{Returns, returns, bind, mono}
use vantiq_sdk_micro.Curl.{Setting, Curl}
use vantiq_sdk_micro.Client.{Client, Handle, Callback, vc_is_valid}
use vantiq_sdk_micro.Client.Params.{Param, param, free_params, free_params_lem}
use vantiq_sdk_micro.Client.Url.Text.{url_text}
use vantiq_sdk_micro.Client.Callbacks.Body.{unsent}
use vantiq_sdk_micro.Client.Transfer.{VmeResult}
use vantiq_sdk_micro.Client.Request.Plan.{get_plan}
use vantiq_sdk_micro.Client.Request.Answer.{answer_blocks}
use vantiq_sdk_micro.Client.Request.Done.{Done-less, IsServedBy, Done, ending}
use vantiq_sdk_micro.Client.Request.Verbs.{IsClient, IsUrl, vc_get-Done}
use vantiq_sdk_micro.Api.Guard.{DoneOn, with_client-Returns, guarded-valid}
use vantiq_sdk_micro.Api.Query.{
  select_with, vme_select, vme_select_one, vme_select_count, vme_select_callback, set_recv_callback,
}
use vantiq_sdk_micro.Api.Query.Params.{
  select_params, IsInt, build_param-behind, build_select_params_lem,
}

-- what a select with these parameters asks for
abbrev pub select_plan : Curl → Client → World → (rs_uri : Bytes) → List Param → List Setting
select_plan curl c w rs_uri params =
    get_plan w.level c.http_hdrs (url_text curl c.server_url rs_uri params)

module _ (curl : Curl) (c : Client) (w : World) (g : Granting w)
    (valid : vc_is_valid (some c) ≡ true) (v : IsClient c) (rs_uri : Bytes) where
  -- `_select` and `free_params` behind it, with the parameters allocated
  select_with-DoneOn :
      (params : List Param)
      → IsUrl (url_text curl c.server_url rs_uri params)
      → IsServedBy curl c w (select_plan curl c w rs_uri params) (unsent c.send_state)
      → Returns (DoneOn curl c w (select_plan curl c w rs_uri params) (unsent c.send_state)) (
          (select_with curl (some c) rs_uri params >>= λ x. free_params params >> pure (x.0, x.1))
            (at_live w (3 * length params + w.live)))
  unfolding select_with
  select_with-DoneOn params u s =
      let ss = select_plan curl c w rs_uri params in
      let n = 3 * length params + w.live in
      let message = unsent c.send_state in
      let asked : Returns (DoneOn curl c (at_live w n) ss message)
          (select_with curl (some c) rs_uri params (at_live w n)) =
        with_client-Returns c (at_live w n) _ valid (
          mono (vc_get-Done curl c (at_live w n) g v rs_uri params u s)
            λ r w' q. record { client = r.1; handle = refl; done = q }) in
      bind asked λ r w' q.
        let (live, less) = Done-less curl c w n q.done in
        let e = ending curl c w ss message in
        rw
          (free_params_lem params (answer_blocks curl e.code e.last.body + w.live) w'
            (live ∙ omega arith))
          (returns (record { client = q.client; handle = q.handle; done = less }))

  -- On a valid handle whose buffers are in order, with every allocation granted, page and limit
  -- of 32 bits, and a URL and a server that keep to the bounds, vme_select returns: the server
  -- is asked with GET for the URL with the parameters limit, page, sort, where and props that
  -- are given, in that order; the answer is that of the abstract exchange, and the parameters
  -- are freed.
  pub vme_select-DoneOn :
      (prop_specs where' sort_spec : Option Bytes) (page limit : ℤ)
      → IsInt page
      → IsInt limit
      → let params = select_params prop_specs where' sort_spec page limit in
        IsUrl (url_text curl c.server_url rs_uri params)
        → IsServedBy curl c w (select_plan curl c w rs_uri params) (unsent c.send_state)
        → Returns
            (DoneOn curl c w (select_plan curl c w rs_uri params) (unsent c.send_state))
            (vme_select curl (some c) rs_uri prop_specs where' sort_spec page limit w)
  unfolding vme_select
  vme_select-DoneOn prop_specs where' sort_spec page limit p l u s =
      rw (build_select_params_lem w g prop_specs where' sort_spec page limit p l)
        (select_with-DoneOn (select_params prop_specs where' sort_spec page limit) u s)

  pub vme_select_count-DoneOn :
      (prop_specs where' sort_spec : Option Bytes)
      → let params =
          param (codes "count") (codes "true")
          ∷ select_params prop_specs where' sort_spec (pos 0) (pos 0) in
        IsUrl (url_text curl c.server_url rs_uri params)
        → IsServedBy curl c w (select_plan curl c w rs_uri params) (unsent c.send_state)
        → Returns
            (DoneOn curl c w (select_plan curl c w rs_uri params) (unsent c.send_state))
            (vme_select_count curl (some c) rs_uri prop_specs where' sort_spec w)
  unfolding vme_select_count
  vme_select_count-DoneOn prop_specs where' sort_spec u s =
      let ps = select_params prop_specs where' sort_spec (pos 0) (pos 0) in
      let params = param (codes "count") (codes "true") ∷ ps in
      rw
        (
          guarded-valid c w _ valid,
          build_select_params_lem w g prop_specs where' sort_spec (pos 0) (pos 0) (omega arith)
              (omega arith),
          build_param-behind w g ps (codes "count") (codes "true"),
        )
        (select_with-DoneOn params u s)

  pub vme_select_one-DoneOn :
      (props where' : Option Bytes)
      → let params = select_params props where' none (pos 0) (pos 1) in
        IsUrl (url_text curl c.server_url rs_uri params)
        → IsServedBy curl c w (select_plan curl c w rs_uri params) (unsent c.send_state)
        → Returns
            (DoneOn curl c w (select_plan curl c w rs_uri params) (unsent c.send_state))
            (vme_select_one curl (some c) rs_uri props where' w)
  unfolding vme_select_one
  vme_select_one-DoneOn props where' u s =
      vme_select-DoneOn props where' none (pos 0) (pos 1) (omega arith) (omega arith) u s

-- A client with another receive callback.
abbrev pub with_callback : Option Callback → Client → Client
with_callback f c = record c { recv_callback = f }

module _ (curl : Curl) (c : Client) (w : World) (g : Granting w)
    (valid : vc_is_valid (some c) ≡ true) (v : IsClient c) (rs_uri : Bytes) where
  -- On a valid handle whose buffers are in order, with every allocation granted, page and limit
  -- of 32 bits, and a URL and a server that keep to the bounds, vme_select_callback makes the
  -- request of vme_select with the callback in place, so that the body goes to the application,
  -- and the handle leads to a client without a callback afterwards.
  pub vme_select_callback-DoneOn :
      (prop_specs where' sort_spec : Option Bytes) (page limit : ℤ) (f : Option Callback)
      → IsInt page
      → IsInt limit
      → let params = select_params prop_specs where' sort_spec page limit in
        let ss = select_plan curl c w rs_uri params in
        let called = with_callback f c in
        IsUrl (url_text curl c.server_url rs_uri params)
        → IsServedBy curl called w ss (unsent c.send_state)
        → Returns
            (λ (r : VmeResult × Handle) u.
              (d : Client) × (r.1 ≡ some (with_callback none d))
              × Done curl called w ss (unsent c.send_state) (r.0, d) u)
            (vme_select_callback curl (some c) rs_uri prop_specs where' sort_spec page limit f w)
  unfolding vme_select_callback vc_is_valid
  vme_select_callback-DoneOn prop_specs where' sort_spec page limit f p l u s =
      rw (guarded-valid c w _ valid) (
        bind
          (vme_select-DoneOn curl (with_callback f c) w g valid
            (record { buffer = v.buffer; in_block = v.in_block }) rs_uri prop_specs where' sort_spec
            page limit p l u s)
          λ r u' q. returns (q.client, ap (set_recv_callback none) q.handle, q.done))
