-- ===== src/Api/Calls/Rejected.antt =====
-- Sequences of calls of src/vme/vme.c on a handle that is NULL or not that of a client.
use vantiq_sdk_micro.Base.{ℕ, suc, ◌+◌, ◌≡◌, ap, ◌∙◌, false, none, List, [], ◌∷◌, arith}
use vantiq_sdk_micro.Memory.{World, at_live, ok, Granting}
use vantiq_sdk_micro.Memory.Returns.{mono, just, eq_of_Returns}
use vantiq_sdk_micro.Curl.{Curl}
use vantiq_sdk_micro.Client.{Handle, vc_is_valid}
use vantiq_sdk_micro.Api.Guard.{rejection, rejected, vme_free_result_lem}
use vantiq_sdk_micro.Api.Query.Params.{IsInt}
use vantiq_sdk_micro.Api.Query.Invalid.{
  vme_select-rejected, vme_select_count-rejected, vme_select_one-rejected,
}
use vantiq_sdk_micro.Api.Modify.Done.{IsDocument}
use vantiq_sdk_micro.Api.Modify.Invalid.{change-rejected}
use vantiq_sdk_micro.Api.Invoke.Invalid.{invoke-rejected, vme_publish-rejected}
use vantiq_sdk_micro.Api.Calls.{
  Call, select, select_count, select_one, insert, update, upsert, delete, delete_count, publish,
  execute, query_source, aggregate, call, calls,
}

-- The blocks that a call keeps: the message buffer of a publication.
abbrev pub kept : Call → ℕ
kept (publish topic json size) = 2
kept _ = 0

abbrev pub all_kept : List Call → ℕ
all_kept [] = 0
all_kept (k ∷ ks) = kept k + all_kept ks

-- What is read before the handle is looked at keeps to the bounds.
abbrev HasArguments : Call → Type 0
HasArguments (select rs_uri prop_specs where' sort_spec page limit) = IsInt page × IsInt limit
HasArguments (publish topic json size) = IsDocument json size
HasArguments _ = Unit

abbrev pub AllHaveArguments : List Call → Type 0
AllHaveArguments [] = Unit
AllHaveArguments (k ∷ ks) = HasArguments k × AllHaveArguments ks

module _ (curl : Curl) (vme : Handle) (e : vc_is_valid vme ≡ false) where
  plain : (w : World) → rejected vme w ≡ ok (rejection, vme) (at_live w (suc (suc (0 + w.live))))
  plain w = ap (λ n. ok (rejection, vme) (at_live w n)) (omega arith)

  call-rejected :
      (k : Call) (w : World)
      → Granting w
      → HasArguments k
      → call curl k vme w ≡ ok (rejection, vme) (at_live w (suc (suc (kept k + w.live))))
  call-rejected (select rs_uri prop_specs where' sort_spec page limit) w g (p, l) =
      vme_select-rejected curl vme w g e rs_uri prop_specs where' sort_spec page limit p l ∙ plain w
  call-rejected (select_count rs_uri prop_specs where' sort_spec) w g h =
      vme_select_count-rejected curl vme w g e rs_uri prop_specs where' sort_spec ∙ plain w
  call-rejected (select_one rs_uri props where') w g h =
      vme_select_one-rejected curl vme w g e rs_uri props where' ∙ plain w
  call-rejected (insert rs_uri json size) w g h =
      (change-rejected curl vme w g e rs_uri json size none).0 ∙ plain w
  call-rejected (update rs_uri json size) w g h =
      (change-rejected curl vme w g e rs_uri json size none).1 ∙ plain w
  call-rejected (upsert rs_uri json size) w g h =
      (change-rejected curl vme w g e rs_uri json size none).2 ∙ plain w
  call-rejected (delete rs_uri where') w g h =
      (change-rejected curl vme w g e rs_uri [] 0 where').3 ∙ plain w
  call-rejected (delete_count rs_uri where') w g h =
      (change-rejected curl vme w g e rs_uri [] 0 where').4 ∙ plain w
  call-rejected (publish topic json size) w g h = eq_of_Returns (
      mono (vme_publish-rejected curl vme w g e topic json size h)
        λ a u q. just q.0 (q.1 ∙ ap (at_live w) (omega arith)))
  call-rejected (execute proc_id args_doc) w g h =
      (invoke-rejected curl vme w g e proc_id args_doc).0 ∙ plain w
  call-rejected (query_source source_id q_params) w g h =
      (invoke-rejected curl vme w g e source_id q_params).1 ∙ plain w
  call-rejected (aggregate first rest pipeline) w g h =
      (invoke-rejected curl vme w g e (first ∷ rest) pipeline).2 ∙ plain w

  -- On a handle that is NULL or has another magic number, with every allocation granted, and
  -- page, limit and documents that keep to the bounds, any sequence of calls of twelve of the
  -- entry points, each with vme_free_result behind it, returns with the handle as it was, and
  -- leaves no block but two for each publication, whose message buffer is not given back.
  pub calls-rejected :
      (ks : List Call) (w : World)
      → Granting w
      → AllHaveArguments ks
      → calls curl ks vme w ≡ ok vme (at_live w (all_kept ks + w.live))
  calls-rejected [] w g h = ap (λ n. ok vme (at_live w n)) (omega arith)
  calls-rejected (k ∷ ks) w g (h, hs) =
      let n = kept k + w.live in
      rw
        (
          call-rejected k w g h,
          vme_free_result_lem rejection n (at_live w (suc (suc n))) (omega arith),
          calls-rejected ks (at_live w n) g hs,
        )
        (ap (λ m. ok vme (at_live w m)) (omega arith))
