-- ===== src/Api/Modify/Delete.antt =====
-- `vme_delete`, `vme_delete_count` and `vme_patch` of src/vme/vme.c from the caller's side.
use vantiq_sdk_micro.Base.{
  ◌+◌, ◌*◌, ◌≡◌, refl, ap, ◌∙◌, Bool, true, false, Option, none, some, List, [], ◌∷◌, Bytes, codes,
  arith, length, if◌then◌else◌,
}
use vantiq_sdk_micro.Memory.{World, at_live, ok, pure, Granting}
use vantiq_sdk_micro.Memory.Returns.{Returns, returns, bind}
use vantiq_sdk_micro.Curl.{Curl}
use vantiq_sdk_micro.Client.{Client, Handle, vc_is_valid}
use vantiq_sdk_micro.Client.Params.{Param, param, build_param, free_params_lem}
use vantiq_sdk_micro.Client.Url.Text.{url_text}
use vantiq_sdk_micro.Client.Callbacks.Body.{unsent}
use vantiq_sdk_micro.Client.Transfer.{VmeResult}
use vantiq_sdk_micro.Client.Request.Plan.{delete_plan, patch_plan}
use vantiq_sdk_micro.Client.Request.Answer.{answer_blocks}
use vantiq_sdk_micro.Client.Request.Done.{Done-less, IsServedBy, Done, ending}
use vantiq_sdk_micro.Client.Request.Verbs.{IsClient, IsUrl, vc_delete-Done}
use vantiq_sdk_micro.Client.Request.Documents.{vc_patch-Done}
use vantiq_sdk_micro.Api.Guard.{DoneOn, with_client-Returns, vc_from_vme-valid}
use vantiq_sdk_micro.Api.Query.Params.{given, behind, build_param-behind}
use vantiq_sdk_micro.Api.Modify.{
  add_where, delete_with, vme_delete, vme_delete_count, patch_on, vme_patch,
}

-- The condition, and the wish for a count in front of it.
abbrev pub delete_params : Option Bytes → (count : Bool) → List Param
delete_params where' true = param (codes "count") (codes "true") ∷ given (codes "where") where' []
delete_params where' false = given (codes "where") where' []

module _ (curl : Curl) (c : Client) (w : World) (g : Granting w)
    (valid : vc_is_valid (some c) ≡ true) (v : IsClient c) (rs_uri : Bytes) where
  abbrev pub delete_url : List Param → Bytes
  delete_url params = url_text curl c.server_url rs_uri params

  add_where_lem :
      (where' : Option Bytes)
      → let ps = given (codes "where") where' [] in add_where [] where' w ≡ ok ps (behind w g ps)
  unfolding add_where
  add_where_lem none = ap (λ n. ok [] (at_live w n)) (omega arith)
  add_where_lem (some value) =
      let start : w ≡ behind w g [] = ap (at_live w) (omega arith) in
      ap (build_param [] (codes "where") value) start
      ∙ build_param-behind w g [] (codes "where") value

  add_count_lem :
      (ps : List Param) (where' : Option Bytes) (count : Bool)
      → ps ≡ given (codes "where") where' []
      → (if count then build_param ps (codes "count") (codes "true") else pure ps) (behind w g ps)
        ≡ ok (delete_params where' count) (behind w g (delete_params where' count))
  add_count_lem ps where' true e = rw e (build_param-behind w g _ (codes "count") (codes "true"))
  add_count_lem ps where' false e = rw e refl

  delete_with-DoneOn :
      (where' : Option Bytes) (count : Bool)
      → let params = delete_params where' count in
        let ss = delete_plan w.level c.http_hdrs (delete_url params) in
        IsUrl (delete_url params)
        → IsServedBy curl c w ss (unsent c.send_state)
        → Returns
            (DoneOn curl c w ss (unsent c.send_state))
            (delete_with curl (some c) rs_uri where' count w)
  unfolding delete_with
  delete_with-DoneOn where' count u s =
      let params = delete_params where' count in
      let ss = delete_plan w.level c.http_hdrs (delete_url params) in
      let n = 3 * length params + w.live in
      let message = unsent c.send_state in
      with_client-Returns c w _ valid (
        rw (add_where_lem where', add_count_lem (given (codes "where") where' []) where' count refl)
          (bind (vc_delete-Done curl c (at_live w n) g v rs_uri params u s) λ r w' q.
            let (live, less) = Done-less curl c w n q in
            let e = ending curl c w ss message in
            rw
              (free_params_lem params (answer_blocks curl e.code e.last.body + w.live) w'
                (live ∙ omega arith))
              (returns (record { client = r.1; handle = refl; done = less }))))

  -- On a valid handle whose buffers are in order, with every allocation granted, and a URL and a
  -- server that keep to the bounds, vme_delete returns: the server is asked with DELETE for the
  -- URL with the condition that is given, the answer is that of the abstract exchange, and the
  -- parameters are freed.
  pub vme_delete-DoneOn :
      (where' : Option Bytes)
      → let params = delete_params where' false in
        let ss = delete_plan w.level c.http_hdrs (delete_url params) in
        IsUrl (delete_url params)
        → IsServedBy curl c w ss (unsent c.send_state)
        → Returns
            (DoneOn curl c w ss (unsent c.send_state))
            (vme_delete curl (some c) rs_uri where' w)
  unfolding vme_delete
  vme_delete-DoneOn where' u s = delete_with-DoneOn where' false u s

  pub vme_delete_count-DoneOn :
      (where' : Option Bytes)
      → let params = delete_params where' true in
        let ss = delete_plan w.level c.http_hdrs (delete_url params) in
        IsUrl (delete_url params)
        → IsServedBy curl c w ss (unsent c.send_state)
        → Returns
            (DoneOn curl c w ss (unsent c.send_state))
            (vme_delete_count curl (some c) rs_uri where' w)
  unfolding vme_delete_count
  vme_delete_count-DoneOn where' u s = delete_with-DoneOn where' true u s

  -- On a valid handle whose buffers are in order, with every allocation granted, and a URL and a
  -- server that keep to the bounds, vme_patch returns a result: the server is asked with PATCH
  -- and the document as the fields of the request, the answer is that of the abstract exchange,
  -- and no block is allocated but those of the result, and one that is lost if libcurl's code is
  -- not CURLE_OK, the status is at least 400 and the body is not empty.
  pub vme_patch-Done :
      (json : Bytes)
      → IsUrl (delete_url [])
      → let ss = patch_plan w.level c.http_hdrs json (delete_url []) in
        IsServedBy curl c w ss (unsent c.send_state)
        → Returns
            (λ (r : Option VmeResult × Handle) u.
              (a : VmeResult) × (d : Client) × (r ≡ (some a, some d))
              × Done curl c w ss (unsent c.send_state) (a, d) u)
            (vme_patch curl (some c) rs_uri json w)
  unfolding vme_patch patch_on
  vme_patch-Done json u s =
      rw (vc_from_vme-valid c valid)
        (bind (vc_patch-Done curl c w g v rs_uri json u s) λ r w' q. returns (r.0, r.1, refl, q))
