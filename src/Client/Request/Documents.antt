-- ===== src/Client/Request/Documents.antt =====
-- The requests of src/vme/vantiq_client.c that are given a document as a C string: `vc_patch`,
-- `vc_execute` and `vc_query`.
use mathlib.Core.Path.{subst₂}
use vantiq_sdk_micro.Base.{
  suc, ◌+◌, refl, ap, ◌∙◌, sym, none, [], ◌∷◌, ◌++◌, append_assoc, Bytes, arith, codes, length,
  c_str-terminated,
}
use vantiq_sdk_micro.Memory.{World, M, at_live, Granting, pure, ◌>>=◌}
use vantiq_sdk_micro.Memory.Returns.{Returns, returns, bind, mono}
use vantiq_sdk_micro.Buf.{ensure_size, dealloc}
use vantiq_sdk_micro.Buf.Growth.{length-contents, ensure_size-Allocated}
use vantiq_sdk_micro.Buf.Contents.{IsSmall, Left-bind, Allocated-bind, concat_str-Left, dealloc_lem}
use vantiq_sdk_micro.Curl.{Curl, url, post, custom_request, post_fields, error_buffer}
use vantiq_sdk_micro.Client.{Client, common_settings, set_option, common_curl_setup}
use vantiq_sdk_micro.Client.Url.{concat_str}
use vantiq_sdk_micro.Client.Transfer.{VmeResult}
use vantiq_sdk_micro.Client.Request.Answer.{answer_blocks}
use vantiq_sdk_micro.Client.Url.Text.{url_text, create_url_lem}
use vantiq_sdk_micro.Client.Callbacks.Body.{unsent}
use vantiq_sdk_micro.Client.Request.{put_or_post, vc_patch, vc_execute, vc_query}
use vantiq_sdk_micro.Client.Request.Plan.{
  at_settings, common_curl_setup_lem, sending_plan, patch_plan,
}
use vantiq_sdk_micro.Client.Request.Done.{
  Done-less, ending, IsServedBy, Done, Done-from, finish_request-Done,
}
use vantiq_sdk_micro.Client.Request.Verbs.{IsClient, IsUrl, emptied, put_or_post-Done}

module _ (curl : Curl) (c : Client) (w : World) (g : Granting w) (v : IsClient c)
    (rs_uri : Bytes) where
  abbrev plain_url : Bytes
  plain_url = url_text curl c.server_url rs_uri []

  pub vc_patch-Done :
      (json : Bytes)
      → IsUrl plain_url
      → let ss = patch_plan w.level c.http_hdrs json plain_url in
        IsServedBy curl c w ss (unsent c.send_state)
        → Returns (Done curl c w ss (unsent c.send_state)) (vc_patch curl c rs_uri json w)
  unfolding vc_patch
  vc_patch-Done json u s =
      let pre = common_settings w.level c.http_hdrs in
      let verb = custom_request (codes "PATCH") in
      let body = post_fields json in
      let b = record c.recv_buf { len = 0 } in
      rw
        (
          common_curl_setup_lem c w,
          create_url_lem curl c.server_url rs_uri [] w g u.small,
          c_str-terminated [] u.text,
          append_assoc pre (verb ∷ []) (body ∷ []),
          append_assoc pre (verb ∷ body ∷ []) (url plain_url ∷ []),
          append_assoc pre (verb ∷ body ∷ url plain_url ∷ []) (error_buffer ∷ []),
        )
        (mono
          (finish_request-Done curl (record c { recv_buf = b }) w
            (pre ++ verb ∷ body ∷ url plain_url ∷ error_buffer ∷ []) (unsent c.send_state) g
            (emptied v.buffer) refl v.in_block s)
          λ r w' d. Done-from curl b c.send_state d)

  -- A document is put into a buffer of its own, posted, and the buffer is given back.
  posted : Bytes → M (VmeResult × Client)
  posted doc = do
    msg ← ensure_size none (length doc)
    msg ← concat_str msg doc
    c ← common_curl_setup c
    (r, c) ← put_or_post curl (set_option (post 1) c) rs_uri msg []
    msg ← dealloc msg
    pure (r, c)

  posted-Done :
      (doc : Bytes)
      → IsUrl plain_url
      → IsSmall (length doc)
      → let ss = sending_plan w.level c.http_hdrs (post 1) (length doc) plain_url in
        IsServedBy curl c w ss doc → Returns (Done curl c w ss doc) (posted doc w)
  unfolding posted
  posted-Done doc u small s =
      let w₂ = at_live w (suc (suc w.live)) in
      let ss = sending_plan w.level c.http_hdrs (post 1) (length doc) plain_url in
      Allocated-bind _ (ensure_size-Allocated (length doc) w g (omega arith)) λ m e.
        Left-bind _ (concat_str-Left doc w₂ g e (omega arith)) λ b h.
          rw (common_curl_setup_lem c w₂) (
            bind
              (subst₂
                (λ n t.
                  IsServedBy curl c w (sending_plan w.level c.http_hdrs (post 1) n plain_url) t
                  → Returns
                      (Done curl c w₂ (sending_plan w.level c.http_hdrs (post 1) n plain_url) t)
                      (put_or_post curl
                        (at_settings (common_settings w.level c.http_hdrs ++ post 1 ∷ []) c) rs_uri
                        b [] w₂))
                (sym (length-contents h.is_buf) ∙ ap length h.bytes) h.bytes
                (put_or_post-Done curl c w₂ g v rs_uri [] (common_settings w.level c.http_hdrs)
                  (post 1) b h.is_buf u)
                s)
              λ r w' q.
                let (live, less) = Done-less curl c w (suc (suc w.live)) q in
                let e = ending curl c w ss doc in
                rw
                  (dealloc_lem (answer_blocks curl e.code e.last.body + w.live) w' h.is_buf
                    (live ∙ omega arith))
                  (returns less))

  pub vc_execute-Done :
      (args_doc : Bytes)
      → IsUrl plain_url
      → IsSmall (length args_doc)
      → let ss = sending_plan w.level c.http_hdrs (post 1) (length args_doc) plain_url in
        IsServedBy curl c w ss args_doc
        → Returns (Done curl c w ss args_doc) (vc_execute curl c rs_uri args_doc w)
  unfolding vc_execute posted
  vc_execute-Done args_doc u small s = posted-Done args_doc u small s

  -- For a client that is in order, with every allocation granted, and a document, a URL and a
  -- server that keep to the bounds, vc_query returns: the server is asked with POST and can pull
  -- just the bytes of the document, the answer is that of the abstract exchange, and the
  -- document's buffer is given back.
  pub vc_query-Done :
      (q_params : Bytes)
      → IsUrl plain_url
      → IsSmall (length q_params)
      → let ss = sending_plan w.level c.http_hdrs (post 1) (length q_params) plain_url in
        IsServedBy curl c w ss q_params
        → Returns (Done curl c w ss q_params) (vc_query curl c rs_uri q_params w)
  unfolding vc_query posted
  vc_query-Done q_params u small s = posted-Done q_params u small s
