-- ===== src/Api/Guard.antt =====
-- The guards of the entry points of src/vme/vme.c, and `vme_free_result` after a request.
use vantiq_sdk_micro.Base.{
  ℕ, suc, ◌+◌, ◌≡◌, refl, ap, ◌∙◌, true, false, not, ◌&&◌, inl, inr, Bool-cases, Option, none, some,
  List, [], ◌∷◌, Bytes, arith, leb, ◌==◌, if◌then◌else◌,
}
use vantiq_sdk_micro.Memory.{
  World, at_live, M, Run, ok, and_then, Granting, allocate_granted, free_lem,
}
use vantiq_sdk_micro.Memory.Returns.{Returns, returns, bind}
use vantiq_sdk_micro.Curl.{Setting, Curl, curle_ok, has_error_buffer}
use vantiq_sdk_micro.Client.{Client, Handle, vc_is_valid, vc_from_vme}
use vantiq_sdk_micro.Client.Url.{string_block}
use vantiq_sdk_micro.Client.Transfer.{VmeResult, no_result, error_text}
use vantiq_sdk_micro.Client.Request.Answer.{answer, answer_blocks}
use vantiq_sdk_micro.Client.Request.Done.{Done, ending, answer_to}
use vantiq_sdk_micro.Api.{
  vme_error_result, invalid_handle, on_client, with_client, guard_on, guarded, free_block,
  vme_free_result,
}

pub vc_from_vme-valid : (c : Client) → vc_is_valid (some c) ≡ true → vc_from_vme (some c) ≡ some c
unfolding vc_from_vme
vc_from_vme-valid c e = rw e

pub vc_from_vme-invalid : (vme : Handle) → vc_is_valid vme ≡ false → vc_from_vme vme ≡ none
unfolding vc_from_vme
vc_from_vme-invalid vme e = rw e

-- what an invalid handle is answered with
abbrev pub rejection : VmeResult
rejection = record no_result { error_msg = some (string_block invalid_handle) }

abbrev pub rejected : Handle → World → Run (VmeResult × Handle)
rejected vme w = ok (rejection, vme) (at_live w (suc (suc w.live)))

vme_error_result_lem :
    (msg : Bytes) (w : World)
    → Granting w
    → vme_error_result msg w
      ≡ ok (record no_result { error_msg = some (string_block msg) }) (at_live w (suc (suc w.live)))
unfolding vme_error_result
vme_error_result_lem msg w g =
    rw (allocate_granted w g, allocate_granted (at_live w (suc w.live)) g)

module _ (vme : Handle) (w : World) (g : Granting w) (e : vc_is_valid vme ≡ false) where
  pub with_client-rejected :
      (f : Client → M (VmeResult × Client)) → with_client vme f w ≡ rejected vme w
  unfolding with_client on_client
  with_client-rejected f = rw (vc_from_vme-invalid vme e, vme_error_result_lem invalid_handle w g)

  pub guarded-rejected : (body : M (VmeResult × Handle)) → guarded vme body w ≡ rejected vme w
  unfolding guarded guard_on
  guarded-rejected body = rw (vc_from_vme-invalid vme e, vme_error_result_lem invalid_handle w g)

-- With a valid handle the body runs, and the handle leads to what it leaves of the client.
pub with_client-Returns :
    {Q : VmeResult × Handle → World → Type 0} (c : Client) (w : World)
    (f : Client → M (VmeResult × Client))
    → vc_is_valid (some c) ≡ true
    → Returns (λ (r : VmeResult × Client) v. Q (r.0, some r.1) v) (f c w)
    → Returns Q (with_client (some c) f w)
unfolding with_client on_client
with_client-Returns c w f e h = rw (vc_from_vme-valid c e) (bind h λ r v q. returns q)

pub guarded-valid :
    (c : Client) (w : World) (body : M (VmeResult × Handle))
    → vc_is_valid (some c) ≡ true
    → guarded (some c) body w ≡ body w
unfolding guarded guard_on
guarded-valid c w body e = rw (vc_from_vme-valid c e)

-- The request is done and the handle leads to the client that it left.
pub record DoneOn (curl : Curl) (c : Client) (w : World) (ss : List Setting) (message : Bytes)
    (r : VmeResult × Handle) (w' : World) : Type 0 where
  pub client : Client
  pub handle : r.1 ≡ some client
  pub done : Done curl c w ss message (r.0, client) w'

-- `vme_free_result` after a request.
abbrev pub blocks_of : Option Bytes → ℕ
blocks_of none = 0
blocks_of (some s) = 1

free_block_lem :
    (o : Option Bytes) (n : ℕ) (w : World)
    → w.live ≡ blocks_of o + n
    → free_block o w ≡ ok tt (at_live w n)
unfolding free_block
free_block_lem none n w e = ap (λ k. ok tt (at_live w k)) (e ∙ omega arith)
free_block_lem (some s) n w e = free_lem n w (e ∙ omega arith)

pub vme_free_result_lem :
    (r : VmeResult) (n : ℕ) (w : World)
    → w.live ≡ suc (blocks_of r.json_data + (blocks_of r.error_msg + n))
    → vme_free_result (some r) w ≡ ok tt (at_live w n)
unfolding vme_free_result
vme_free_result_lem r n w e =
    let m = suc n in
    let k = blocks_of r.error_msg + m in
    rw
      (
        free_block_lem r.json_data k w (omega arith),
        free_block_lem r.error_msg m (at_live w k) refl,
        free_lem n (at_live w m) refl,
      )
      refl

module _ (curl : Curl) where
  -- The explanation of a failed transfer is lost when an error response has a body.
  abbrev pub lost : (code status : ℕ) → (body : Bytes) → ℕ
  lost code status [] = 0
  lost code status (b ∷ bs) = if not (code == curle_ok) && leb 400 status then 1 else 0

  answer_blocks_lem :
      (code status count : ℕ) (message body : Bytes)
      → let r = answer curl code status count message body in
        answer_blocks curl code body
        ≡ suc (blocks_of r.json_data + (blocks_of r.error_msg + lost code status body))
  answer_blocks_lem code status count message [] = elim (Bool-cases (code == curle_ok)) [
    | inl fine ↦ rw fine refl
    | inr bad ↦ rw bad refl
  ]
  answer_blocks_lem code status count message (b ∷ bs) = elim (Bool-cases (code == curle_ok)) [
    | inl fine ↦ elim (Bool-cases (leb 400 status)) [
      | inl high ↦ rw (fine, high) refl
      | inr low ↦ rw (fine, low) refl
    ]
    | inr bad ↦ elim (Bool-cases (leb 400 status)) [
      | inl high ↦ rw (bad, high) refl
      | inr low ↦ rw (bad, low) refl
    ]
  ]

  -- After a request and `vme_free_result` no block is left that was not there before, but the one
  -- that is lost.
  pub free-Done :
      {c d : Client} {w w' : World} {ss : List Setting} {message : Bytes} {r : VmeResult}
      → Done curl c w ss message (r, d) w'
      → let e = ending curl c w ss message in
        vme_free_result (some r) w' ≡ ok tt (at_live w' (lost e.code e.status e.last.body + w.live))
  free-Done {c} {d} {w} {w'} {ss} {message} {r} q =
      let e = ending curl c w ss message in
      let a = answer_to curl ss e in
      let text = error_text (has_error_buffer ss) e.message in
      let n = lost e.code e.status e.last.body + w.live in
      let live : w'.live ≡ answer_blocks curl e.code e.last.body + w.live =
        ap (λ (u : World). u.live) q.world in
      let same : r ≡ a = q.result in
      let total = answer_blocks_lem e.code e.status e.last.count text e.last.body in
      ap (λ x. vme_free_result (some x) w') same
      ∙ vme_free_result_lem a n w' (live ∙ ap (λ k. k + w.live) total ∙ omega arith)

  -- If a call of an entry point made its request, then vme_free_result on its result returns and
  -- leaves as many live blocks as there were before the call, and one more if libcurl's code is
  -- not CURLE_OK, the status is at least 400 and the body is not empty: the explanation of the
  -- failure is lost then.
  pub vme_free_result-DoneOn :
      {c : Client} {w : World} {ss : List Setting} {message : Bytes}
      {run : Run (VmeResult × Handle)}
      → Returns (DoneOn curl c w ss message) run
      → let e = ending curl c w ss message in
        Returns
          (λ r u. u ≡ record w {
            live = lost e.code e.status e.last.body + w.live;
            app_calls = e.last.calls;
          })
          (and_then run λ r. vme_free_result (some r.0))
  vme_free_result-DoneOn {c} {w} {ss} {message} h = bind h λ r u q.
      let e = ending curl c w ss message in
      rw (free-Done q.done) (
        returns
          (ap (λ (v : World). at_live v (lost e.code e.status e.last.body + w.live)) q.done.world))
