-- ===== src/Api/Modify/Done.antt =====
-- The entry points of src/vme/vme.c that send a document, from the caller's side: what is asked of
-- the server, what is answered, and that no buffer is left behind.
use mathlib.Core.Path.{subst₂}
use vantiq_sdk_micro.Base.{
  ℕ, suc, ◌+◌, ◌≤◌, ◌≡◌, refl, ap, ◌∙◌, sym, true, none, some, List, [], ◌∷◌, Bytes, codes, arith,
  length, take, length-take,
}
use vantiq_sdk_micro.Memory.{World, at_live, M, Run, pure, ◌>>=◌, Granting, and_then}
use vantiq_sdk_micro.Memory.Returns.{Returns, returns, bind}
use vantiq_sdk_micro.Buf.{Vmebuf, ensure_size, concat, dealloc}
use vantiq_sdk_micro.Buf.Growth.{IsBuf, Holds, contents, length-contents, ensure_size-Allocated}
use vantiq_sdk_micro.Buf.Contents.{IsSmall, Left-bind, Allocated-bind, concat-Left, dealloc_lem}
use vantiq_sdk_micro.Curl.{Setting, Curl, post, put}
use vantiq_sdk_micro.Client.{Client, vc_is_valid}
use vantiq_sdk_micro.Client.Params.{Param, param, build_param_lem, free_params_lem}
use vantiq_sdk_micro.Client.Url.Text.{url_text}
use vantiq_sdk_micro.Client.Transfer.{VmeResult}
use vantiq_sdk_micro.Client.Request.Plan.{sending_plan}
use vantiq_sdk_micro.Client.Request.Answer.{answer_blocks}
use vantiq_sdk_micro.Client.Request.Done.{Done-less, IsServedBy, Done, ending}
use vantiq_sdk_micro.Client.Request.Verbs.{IsClient, IsUrl, vc_post-Done, vc_put-Done}
use vantiq_sdk_micro.Api.Guard.{DoneOn, with_client-Returns}
use vantiq_sdk_micro.Api.Modify.{insert_with, vme_insert, vme_update, vme_upsert}

-- A document of `size` bytes to be sent, which the caller's block holds.
abbrev pub IsDocument : (json : Bytes) → (size : ℕ) → Type 0
IsDocument json size = (size ≤ length json) × IsSmall size

-- `vmebuf_ensure_size(NULL, size)` and `vmebuf_concat`: a new buffer with the document.
pub document-bind :
    {A : Type 0} {Q : A → World → Type 0} (json : Bytes) (size : ℕ) (w : World) (k : Vmebuf → M A)
    → Granting w
    → IsDocument json size
    → ((b : Vmebuf) → Holds (take size json) b → Returns Q (k b (at_live w (suc (suc w.live)))))
    → Returns Q ((ensure_size none size >>= λ m. concat m json size >>= k) w)
document-bind json size w k g (enough, small) next =
    Allocated-bind (λ m. concat m json size >>= k) (ensure_size-Allocated size w g (omega arith))
      λ b h.
        Left-bind k
          (concat-Left json size (at_live w (suc (suc w.live))) g h enough
            (omega (arith, length-contents h.is_buf, ap length h.bytes)))
          next

module _ (curl : Curl) (c : Client) (w : World) where
  -- The buffer of the document is given back behind the request.
  dealloc-Done :
      {b : Vmebuf} {ss : List Setting} {message : Bytes} {r : Run (VmeResult × Client)}
      → IsBuf b
      → Returns (Done curl c (at_live w (suc (suc w.live))) ss message) r
      → Returns
          (λ (x : VmeResult × Client) u. DoneOn curl c w ss message (x.0, some x.1) u)
          (and_then r λ x. dealloc b >>= λ _. pure (x.0, x.1))
  dealloc-Done {b} {ss} {message} m h = bind h λ r w' q.
      let (live, less) = Done-less curl c w (suc (suc w.live)) q in
      let e = ending curl c w ss message in
      rw (dealloc_lem (answer_blocks curl e.code e.last.body + w.live) w' m (live ∙ omega arith))
        (returns (record { client = r.1; handle = refl; done = less }))

  -- A buffer that holds the document sends just it.
  pub as_document :
      (json : Bytes) (size : ℕ) {b : Vmebuf} {r : Run (VmeResult × Client)}
      (plan : ℕ → List Setting) (w' : World)
      → IsDocument json size
      → Holds (take size json) b
      → (IsServedBy curl c w (plan b.len) (contents b)
          → Returns (Done curl c w' (plan b.len) (contents b)) r)
      → IsServedBy curl c w (plan size) (take size json)
      → Returns (Done curl c w' (plan size) (take size json)) r
  as_document json size {b} {r} plan w' doc h =
      let len : b.len ≡ size =
        sym (length-contents h.is_buf)
        ∙ ap length h.bytes
        ∙ omega (arith, length-take size json, doc.0) in
      subst₂ (λ n m. IsServedBy curl c w (plan n) m → Returns (Done curl c w' (plan n) m) r) len
        h.bytes

  module _ (g : Granting w) (valid : vc_is_valid (some c) ≡ true) (v : IsClient c)
      (rs_uri json : Bytes) (size : ℕ) (doc : IsDocument json size) where
    abbrev document : Bytes
    document = take size json

    -- `_insert`, with the parameters of the caller
    insert_with-Done :
        (params : List Param)
        → let target = url_text curl c.server_url rs_uri params in
          let ss = sending_plan w.level c.http_hdrs (post 1) size target in
          IsUrl target
          → IsServedBy curl c w ss document
          → Returns
              (DoneOn curl c w ss document)
              (insert_with curl (some c) rs_uri json size params w)
    unfolding insert_with
    insert_with-Done params u s =
        let w₂ = at_live w (suc (suc w.live)) in
        let target = url_text curl c.server_url rs_uri params in
        with_client-Returns c w _ valid (
          document-bind json size w _ g doc λ b h. dealloc-Done h.is_buf (
            as_document json size (λ n. sending_plan w.level c.http_hdrs (post 1) n target) w₂ doc h
              (vc_post-Done curl c w₂ g v rs_uri params b h.is_buf u) s))

    -- On a valid handle whose buffers are in order, with every allocation granted, a document
    -- inside its block, and a URL and a server that keep to the bounds, vme_insert returns: the
    -- server is asked with POST for the resource's URL, the length announced is that of the
    -- document and the bytes that can be pulled are the document; the answer is that of the
    -- abstract exchange, the client is as before but for its buffers, its reset count and its
    -- record of requests, and no block is allocated but those of the result, and one that is
    -- lost if libcurl's code is not CURLE_OK, the status is at least 400 and the body is not
    -- empty.
    pub vme_insert-DoneOn :
        let target = url_text curl c.server_url rs_uri [] in
        let ss = sending_plan w.level c.http_hdrs (post 1) size target in
        IsUrl target
        → IsServedBy curl c w ss document
        → Returns (DoneOn curl c w ss document) (vme_insert curl (some c) rs_uri json size w)
    unfolding vme_insert
    vme_insert-DoneOn u s = insert_with-Done [] u s

    -- On a valid handle whose buffers are in order, with every allocation granted, a document
    -- inside its block, and a URL and a server that keep to the bounds, vme_update returns: the
    -- document is sent with PUT, the answer is that of the abstract exchange, and no block is
    -- allocated but those of the result.
    pub vme_update-DoneOn :
        let target = url_text curl c.server_url rs_uri [] in
        let ss = sending_plan w.level c.http_hdrs (put 1) size target in
        IsUrl target
        → IsServedBy curl c w ss document
        → Returns (DoneOn curl c w ss document) (vme_update curl (some c) rs_uri json size w)
    unfolding vme_update
    vme_update-DoneOn u s =
        let w₂ = at_live w (suc (suc w.live)) in
        let target = url_text curl c.server_url rs_uri [] in
        with_client-Returns c w _ valid (
          document-bind json size w _ g doc λ b h. dealloc-Done h.is_buf (
            as_document json size (λ n. sending_plan w.level c.http_hdrs (put 1) n target) w₂ doc h
              (vc_put-Done curl c w₂ g v rs_uri [] b h.is_buf u) s))

    -- On a valid handle whose buffers are in order, with every allocation granted, a document
    -- inside its block, and a URL and a server that keep to the bounds, vme_upsert makes the
    -- request of vme_insert with the parameter upsert=true in the URL, and gives the parameter
    -- and the buffer back.
    pub vme_upsert-DoneOn :
        let target =
          url_text curl c.server_url rs_uri (param (codes "upsert") (codes "true") ∷ []) in
        let ss = sending_plan w.level c.http_hdrs (post 1) size target in
        IsUrl target
        → IsServedBy curl c w ss document
        → Returns (DoneOn curl c w ss document) (vme_upsert curl (some c) rs_uri json size w)
    unfolding vme_upsert
    vme_upsert-DoneOn u s =
        let params = param (codes "upsert") (codes "true") ∷ [] in
        let w₂ = at_live w (suc (suc w.live)) in
        let n = suc (suc w.live) + 3 in
        let target = url_text curl c.server_url rs_uri params in
        let plan : ℕ → List Setting = λ k. sending_plan w.level c.http_hdrs (post 1) k target in
        with_client-Returns c w _ valid (
          document-bind json size w _ g doc λ b h.
            rw (build_param_lem [] (codes "upsert") (codes "true") w₂ g) (
              bind
                (as_document json size plan (at_live w n) doc h
                  (vc_post-Done curl c (at_live w n) g v rs_uri params b h.is_buf u) s)
                λ r w' q.
                  let (live, less) = Done-less curl c w n q in
                  let e = ending curl c w (plan size) document in
                  let k = answer_blocks curl e.code e.last.body + w.live in
                  rw
                    (
                      free_params_lem params (suc (suc k)) w' (live ∙ omega arith),
                      dealloc_lem k (at_live w' (suc (suc k))) h.is_buf refl,
                    )
                    (returns (record { client = r.1; handle = refl; done = less }))))
