-- ===== src/Api/Invoke/Done.antt =====
-- `vme_publish` and `vme_execute` of src/vme/vme.c from the caller's side.
use vantiq_sdk_micro.Base.{
  ◌^◌, ℕ, suc, ◌+◌, ◌<◌, ◌≡◌, refl, ◌∙◌, true, none, some, List, [], ◌∷◌, Bytes, codes, arith,
  length, take,
}
use vantiq_sdk_micro.Memory.{World, at_live, ok, Granting, free_lem}
use vantiq_sdk_micro.Memory.Returns.{Returns, returns, bind}
use vantiq_sdk_micro.Buf.Contents.{IsSmall, dealloc_lem}
use vantiq_sdk_micro.Resource.{index, topics, procedures, rsuri_size}
use vantiq_sdk_micro.Resource.Path.{resource_path, build_rsuri_lem}
use vantiq_sdk_micro.Resource.Types.{mapto_rsname-topics, mapto_rsname-procedures}
use vantiq_sdk_micro.Curl.{Setting, Curl, post}
use vantiq_sdk_micro.Client.{Client, vc_is_valid}
use vantiq_sdk_micro.Client.Url.Text.{url_text}
use vantiq_sdk_micro.Client.Request.Plan.{sending_plan}
use vantiq_sdk_micro.Client.Request.Answer.{answer_blocks}
use vantiq_sdk_micro.Client.Request.Done.{Done-less, IsServedBy, ending}
use vantiq_sdk_micro.Client.Request.Verbs.{IsClient, IsUrl, vc_post-Done}
use vantiq_sdk_micro.Client.Request.Documents.{vc_execute-Done}
use vantiq_sdk_micro.Api.Guard.{DoneOn, with_client-Returns, vc_from_vme-valid}
use vantiq_sdk_micro.Api.Modify.Done.{IsDocument, document-bind, as_document}
use vantiq_sdk_micro.Api.Invoke.{
  rsuri_on, vme_build_system_rsuri, not_null, vme_publish, vme_execute,
}

-- The path of a topic.
abbrev pub topic_path : Client → (topic : Bytes) → Bytes
topic_path c topic = resource_path c.api_version (codes "topics") (topic ∷ [])

-- The version has at most three digits, and the path a size that can be handled.
pub record IsTopic (c : Client) (topic : Bytes) : Type 0 where
  pub version : c.api_version < 1000
  pub fits : rsuri_size (codes "topics") (some topic) none < 2 ^ 31

topic_rsuri_lem :
    (c : Client) (topic : Bytes) (w : World)
    → Granting w
    → vc_is_valid (some c) ≡ true
    → IsTopic c topic
    → vme_build_system_rsuri (some c) (index topics) (some topic) none w
      ≡ ok (some (topic_path c topic)) (at_live w (suc w.live))
unfolding vme_build_system_rsuri rsuri_on
topic_rsuri_lem c topic w g valid t =
    rw
      (
        vc_from_vme-valid c valid,
        mapto_rsname-topics w,
        build_rsuri_lem c.api_version (codes "topics") (some topic) none w g t.version refl t.fits,
      )
      refl

module _ (curl : Curl) (c : Client) (w : World) (g : Granting w)
    (valid : vc_is_valid (some c) ≡ true) (v : IsClient c) (topic json : Bytes) (size : ℕ)
    (doc : IsDocument json size) (t : IsTopic c topic) where
  -- On a valid handle whose buffers are in order and whose version has at most three digits,
  -- with every allocation granted, a document inside its block, and a path, a URL and a server
  -- that keep to the bounds, vme_publish returns: the document is sent with POST to the path of
  -- the topic, the answer is that of the abstract exchange, and the buffer and the path are
  -- given back.
  pub vme_publish-DoneOn :
      let target = url_text curl c.server_url (topic_path c topic) [] in
      let ss = sending_plan w.level c.http_hdrs (post 1) size target in
      IsUrl target
      → IsServedBy curl c w ss (take size json)
      → Returns (DoneOn curl c w ss (take size json)) (vme_publish curl (some c) topic json size w)
  unfolding vme_publish not_null
  vme_publish-DoneOn u s =
      let uri = topic_path c topic in
      let w₂ = at_live w (suc (suc w.live)) in
      let n = suc (suc (suc w.live)) in
      let plan : ℕ → List Setting =
        λ k. sending_plan w.level c.http_hdrs (post 1) k (url_text curl c.server_url uri []) in
      document-bind json size w _ g doc λ b h. with_client-Returns c w₂ _ valid (
        rw (topic_rsuri_lem c topic w₂ g valid t) (
          bind
            (as_document curl c w json size plan (at_live w n) doc h
              (vc_post-Done curl c (at_live w n) g v uri [] b h.is_buf u) s)
            λ r w' q.
              let (live, less) = Done-less curl c w n q in
              let e = ending curl c w (plan size) (take size json) in
              let k = answer_blocks curl e.code e.last.body + w.live in
              rw
                (
                  free_lem (suc (suc k)) w' (live ∙ omega arith),
                  dealloc_lem k (at_live w' (suc (suc k))) h.is_buf refl,
                )
                (returns (record { client = r.1; handle = refl; done = less }))))

-- The path of a procedure.
abbrev pub procedure_path : Client → (proc_id : Bytes) → Bytes
procedure_path c proc_id = resource_path c.api_version (codes "procedures") (proc_id ∷ [])

procedure_rsuri_lem :
    (c : Client) (proc_id : Bytes) (w : World)
    → Granting w
    → vc_is_valid (some c) ≡ true
    → c.api_version < 1000
    → rsuri_size (codes "procedures") (some proc_id) none < 2 ^ 31
    → vme_build_system_rsuri (some c) (index procedures) (some proc_id) none w
      ≡ ok (some (procedure_path c proc_id)) (at_live w (suc w.live))
unfolding vme_build_system_rsuri rsuri_on
procedure_rsuri_lem c proc_id w g valid version fits =
    rw
      (
        vc_from_vme-valid c valid,
        mapto_rsname-procedures w,
        build_rsuri_lem c.api_version (codes "procedures") (some proc_id) none w g version refl
            fits,
      )
      refl

module _ (curl : Curl) (c : Client) (w : World) (g : Granting w)
    (valid : vc_is_valid (some c) ≡ true) (v : IsClient c) (proc_id args_doc : Bytes) where
  -- On a valid handle whose buffers are in order and whose version has at most three digits,
  -- with every allocation granted, and a path, a document, a URL and a server that keep to the
  -- bounds, vme_execute returns: the document is sent with POST to the path of the procedure,
  -- the answer is that of the abstract exchange, and no block is allocated but those of the
  -- result, and one that is lost if libcurl's code is not CURLE_OK, the status is at least 400
  -- and the body is not empty.
  pub vme_execute-DoneOn :
      c.api_version < 1000
      → rsuri_size (codes "procedures") (some proc_id) none < 2 ^ 31
      → IsSmall (length args_doc)
      → let target = url_text curl c.server_url (procedure_path c proc_id) [] in
        let ss = sending_plan w.level c.http_hdrs (post 1) (length args_doc) target in
        IsUrl target
        → IsServedBy curl c w ss args_doc
        → Returns (DoneOn curl c w ss args_doc) (vme_execute curl (some c) proc_id args_doc w)
  unfolding vme_execute not_null
  vme_execute-DoneOn version fits small u s =
      let uri = procedure_path c proc_id in
      let n = suc w.live in
      let ss =
        sending_plan w.level c.http_hdrs (post 1) (length args_doc)
          (url_text curl c.server_url uri []) in
      with_client-Returns c w _ valid (
        rw (procedure_rsuri_lem c proc_id w g valid version fits) (
          bind (vc_execute-Done curl c (at_live w n) g v uri args_doc u small s) λ r w' q.
            let (live, less) = Done-less curl c w n q in
            let e = ending curl c w ss args_doc in
            rw (free_lem (answer_blocks curl e.code e.last.body + w.live) w' (live ∙ omega arith))
              (returns (record { client = r.1; handle = refl; done = less }))))
