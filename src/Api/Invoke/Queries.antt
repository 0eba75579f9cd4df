-- ===== src/Api/Invoke/Queries.antt =====
-- `vme_aggregate` and `vme_query_source` of src/vme/vme.c from the caller's side.
use vantiq_sdk_micro.Base.{
  ℕ, suc, ◌+◌, ◌-◌, ◌≤◌, ◌≡◌, refl, ◌∙◌, true, inl, inr, Bool-cases, some, [], ◌∷◌, ◌++◌, Bytes,
  codes, arith, length, length-append, take_all, ends_in, le→leb, if◌then◌else◌,
}
use vantiq_sdk_micro.Memory.{World, at_live, ok, Granting, allocate_granted, free_lem}
use vantiq_sdk_micro.Memory.Returns.{Returns, returns, bind}
use vantiq_sdk_micro.Buf.Contents.{IsSmall}
use vantiq_sdk_micro.Curl.{Curl, post}
use vantiq_sdk_micro.Client.{Client, vc_is_valid}
use vantiq_sdk_micro.Client.Params.{param, build_param_lem, free_params_lem}
use vantiq_sdk_micro.Client.Url.Text.{url_text}
use vantiq_sdk_micro.Client.Callbacks.Body.{unsent}
use vantiq_sdk_micro.Client.Session.Last.{last_char_lem}
use vantiq_sdk_micro.Client.Request.Plan.{get_plan, sending_plan}
use vantiq_sdk_micro.Client.Request.Answer.{answer_blocks}
use vantiq_sdk_micro.Client.Request.Done.{Done-less, IsServedBy, ending}
use vantiq_sdk_micro.Client.Request.Verbs.{IsClient, IsUrl, vc_aggregate-Done}
use vantiq_sdk_micro.Client.Request.Documents.{vc_query-Done}
use vantiq_sdk_micro.Api.Guard.{DoneOn, with_client-Returns}
use vantiq_sdk_micro.Api.Invoke.{aggregate_uri, vme_query_source, vme_aggregate}

-- The path of a source's query.
abbrev pub source_path : (source_id : Bytes) → Bytes
source_path source_id = codes "/sources/" ++ (source_id ++ codes "/query")

-- The path of an aggregate: one slash behind the resource's path, which may end in it.
abbrev pub aggregate_path : (rs_uri : Bytes) → Bytes
aggregate_path rs_uri =
    rs_uri ++ (if ends_in b'/' rs_uri then codes "aggregate" else codes "/aggregate")

module _ (curl : Curl) (c : Client) (w : World) (g : Granting w)
    (valid : vc_is_valid (some c) ≡ true) (v : IsClient c) where
  -- On a valid handle whose buffers are in order, with every allocation granted, and a document, a URL
  -- and a server that keep to the bounds, vme_query_source returns: the document is sent with POST to
  -- the whole path /sources/<id>/query, which is not cut off, the answer is that of the abstract
  -- exchange, and no block is allocated but those of the result.
  pub vme_query_source-DoneOn :
      (source_id q_params : Bytes)
      → IsSmall (length q_params)
      → let target = url_text curl c.server_url (source_path source_id) [] in
        let ss = sending_plan w.level c.http_hdrs (post 1) (length q_params) target in
        IsUrl target
        → IsServedBy curl c w ss q_params
        → Returns
            (DoneOn curl c w ss q_params)
            (vme_query_source curl (some c) source_id q_params w)
  unfolding vme_query_source
  vme_query_source-DoneOn source_id q_params small u s =
      let uri = source_path source_id in
      let n = suc w.live in
      let ss =
        sending_plan w.level c.http_hdrs (post 1) (length q_params)
          (url_text curl c.server_url uri []) in
      let room : length uri ≤ 16 + length source_id - 1 =
        omega (arith, length-append source_id (codes "/query")) in
      with_client-Returns c w _ valid (
        rw (allocate_granted w g, take_all (16 + length source_id - 1) uri room)
          (bind (vc_query-Done curl c (at_live w n) g v uri q_params u small s) λ r w' q.
            let (live, less) = Done-less curl c w n q in
            let e = ending curl c w ss q_params in
            rw (free_lem (answer_blocks curl e.code e.last.body + w.live) w' (live ∙ omega arith))
              (returns (record { client = r.1; handle = refl; done = less }))))

  aggregate_uri_lem :
      (x : ℕ) (s : Bytes)
      → aggregate_uri (x ∷ s) w ≡ ok (aggregate_path (x ∷ s)) (at_live w (suc w.live))
  unfolding aggregate_uri
  aggregate_uri_lem x s =
      let (d, e, last) = last_char_lem x s (at_live w (suc w.live)) in
      let room = le→leb (0 + length (x ∷ s) + 1) (length (x ∷ s) + 11) (omega arith) in
      elim (Bool-cases (ends_in b'/' (x ∷ s))) [
        | inl slash ↦
            rw
              (
                allocate_granted w g,
                room,
                e,
                last ∙ slash,
                slash,
                le→leb (length (x ∷ s) + 9 + 1) (length (x ∷ s) + 11) (omega arith),
              )
              refl
        | inr other ↦
            rw
              (
                allocate_granted w g,
                room,
                e,
                last ∙ other,
                other,
                le→leb (length (x ∷ s) + 10 + 1) (length (x ∷ s) + 11) (omega arith),
              )
              refl
      ]

  -- On a valid handle whose buffers are in order, with every allocation granted, and a URL and a
  -- server that keep to the bounds, vme_aggregate on a path that is not empty returns: the server is
  -- asked with GET for the path with /aggregate behind it and just one slash between the two, if the
  -- path does not end in two, and the parameter pipeline; the answer is that of the abstract exchange,
  -- the path is built inside its block, and no block is allocated but those of the result.
  pub vme_aggregate-DoneOn :
      (x : ℕ) (s pipeline : Bytes)
      → let target =
          url_text curl c.server_url
            (aggregate_path (x ∷ s))
            (param (codes "pipeline") pipeline ∷ []) in
        let ss = get_plan w.level c.http_hdrs target in
        IsUrl target
        → IsServedBy curl c w ss (unsent c.send_state)
        → Returns
            (DoneOn curl c w ss (unsent c.send_state))
            (vme_aggregate curl (some c) (x ∷ s) pipeline w)
  unfolding vme_aggregate
  vme_aggregate-DoneOn x s pipeline u served =
      let uri = aggregate_path (x ∷ s) in
      let params = param (codes "pipeline") pipeline ∷ [] in
      let ss = get_plan w.level c.http_hdrs (url_text curl c.server_url uri params) in
      let message = unsent c.send_state in
      let w₁ = at_live w (suc w.live) in
      let n = suc w.live + 3 in
      with_client-Returns c w _ valid (
        rw (aggregate_uri_lem x s, build_param_lem [] (codes "pipeline") pipeline w₁ g)
          (bind (vc_aggregate-Done curl c (at_live w n) g v uri params u served) λ r w' q.
            let (live, less) = Done-less curl c w n q in
            let e = ending curl c w ss message in
            let k = answer_blocks curl e.code e.last.body + w.live in
            rw
              (
                free_params_lem params (suc k) w' (live ∙ omega arith),
                free_lem k (at_live w' (suc k)) refl,
              )
              (returns (record { client = r.1; handle = refl; done = less }))))
