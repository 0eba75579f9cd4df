-- ===== src/Client/Request/Answer.antt =====
-- What `prepare_result` of src/vme/vantiq_client.c makes of the end of a transfer.
use mathlib.Core.Path.{ap₂}
use vantiq_sdk_micro.Base.{
  ℕ, suc, ◌+◌, ◌≡◌, refl, ap, ◌∙◌, sym, inl, inr, Option, none, some, [], ◌∷◌, Bytes, arith, length,
  ltb, leb, ◌==◌, if◌then◌else◌, Bool-cases, lt→ltb, le→ltb,
}
use vantiq_sdk_micro.Memory.{World, at_live, ok, Granting, allocate_granted, cells_of}
use vantiq_sdk_micro.Buf.{Vmebuf}
use vantiq_sdk_micro.Buf.Growth.{Holds, length-contents}
use vantiq_sdk_micro.Buf.Contents.{read_block_lem}
use vantiq_sdk_micro.Curl.{Curl, curle_ok}
use vantiq_sdk_micro.Client.{Client}
use vantiq_sdk_micro.Client.Url.{string_block}
use vantiq_sdk_micro.Client.Transfer.{
  VmeResult, no_result, protocol_error, response, prepare_result,
}

module _ (curl : Curl) where
  -- A failed transfer is explained by the error buffer, or else by libcurl's text for its code.
  abbrev pub explained : (code : ℕ) → Bytes → Bytes
  explained code message = if ltb 0 (length message) then message else curl.strerror code

  abbrev failed : (code : ℕ) → Bytes → Option Bytes
  failed code message =
      if code == curle_ok then none else some (string_block (explained code message))

  -- The result of a transfer. A body of a response from 400 on is the error message, and takes the
  -- place of any other; a body of another response is the data.
  abbrev pub answer : (code status count : ℕ) → (message body : Bytes) → VmeResult
  answer code status count message [] = record no_result {
    count = count;
    error_msg = failed code message;
  }
  answer code status count message (b ∷ bs) =
      if leb 400 status
      then record {
        size = length (b ∷ bs);
        count = count;
        json_data = none;
        error_msg = some (b ∷ bs);
      }
      else record {
        size = length (b ∷ bs);
        count = count;
        json_data = some (b ∷ bs);
        error_msg = failed code message;
      }

  abbrev if_failed : ℕ → ℕ
  if_failed code = if code == curle_ok then 0 else 1

  abbrev if_any : Bytes → ℕ
  if_any [] = 0
  if_any (b ∷ bs) = 1

  -- The blocks that are allocated on the way to a result.
  abbrev pub answer_blocks : (code : ℕ) → (body : Bytes) → ℕ
  answer_blocks code body = suc (if_failed code + if_any body)

  protocol_error_lem :
      (code : ℕ) (message : Bytes) (w : World)
      → Granting w
      → protocol_error curl code message no_result w
        ≡ ok
            (record no_result { error_msg = failed code message })
            (at_live w (if_failed code + w.live))
  unfolding protocol_error
  protocol_error_lem code message w g = elim (Bool-cases (code == curle_ok)) [
    | inl fine ↦ rw fine (ap (λ n. ok no_result (at_live w n)) (omega arith))
    | inr bad ↦
        rw (bad, allocate_granted w g)
          (ap
            (λ n.
              ok (record no_result { error_msg = some (string_block (explained code message)) })
                (at_live w n))
            (omega arith))
  ]

  response_body :
      (b : Vmebuf) (x : ℕ) (body : Bytes) (code status : ℕ) (message : Bytes) (w : World)
      → Granting w
      → Holds (x ∷ body) b
      → response status b (record no_result { error_msg = failed code message }) w
        ≡ ok (answer code status 0 message (x ∷ body)) (at_live w (suc w.live))
  unfolding response
  response_body b x body code status message w g h =
      let v = h.is_buf in
      let used : b.len ≡ length (x ∷ body) = sym (length-contents v) ∙ ap length h.bytes in
      rw
        (
          lt→ltb 0 b.len (omega arith),
          allocate_granted w g,
          read_block_lem (cells_of b.cells) b.len (at_live w (suc w.live))
              (omega (arith, v.sized, v.within)),
          h.bytes,
          used,
        )
        (elim (Bool-cases (leb 400 status)) [ inl high ↦ rw high | inr low ↦ rw low ])

  response_lem :
      {b : Vmebuf} (body : Bytes) (code status : ℕ) (message : Bytes) (w : World)
      → Granting w
      → Holds body b
      → response status b (record no_result { error_msg = failed code message }) w
        ≡ ok (answer code status 0 message body) (at_live w (if_any body + w.live))
  unfolding response
  response_lem {b} [] code status message w g h =
      let empty : b.len ≡ 0 = sym (length-contents h.is_buf) ∙ ap length h.bytes in
      rw (le→ltb 0 b.len (omega arith)) (
        ap (λ n. ok (record no_result { error_msg = failed code message }) (at_live w n))
          (omega arith))
  response_lem {b} (x ∷ body) code status message w g h =
      response_body b x body code status message w g h
      ∙ ap (λ n. ok (answer code status 0 message (x ∷ body)) (at_live w n)) (omega arith)

  answer-count :
      (code status count : ℕ) (message body : Bytes)
      → record (answer code status 0 message body) { count = count }
        ≡ answer code status count message body
  answer-count code status count message [] = refl
  answer-count code status count message (x ∷ body) = elim (Bool-cases (leb 400 status)) [
    | inl high ↦ rw high
    | inr low ↦ rw low
  ]

  -- If every allocation is granted and the receive buffer holds the body, prepare_result returns
  -- the result that the code, the status, the count and the body call for on every branch,
  -- resets the client's count, and allocates the result and one block for each text that it
  -- makes.
  pub prepare_result_lem :
      (code : ℕ) (message body : Bytes) (c : Client) (w : World)
      → Granting w
      → Holds body c.recv_buf
      → prepare_result curl code message c w
        ≡ ok
            (
              answer code c.curl.response_code c.result_count message body,
              record c { result_count = 0 },
            )
            (at_live w (answer_blocks code body + w.live))
  unfolding prepare_result
  prepare_result_lem code message body c w g h =
      let w₁ = at_live w (suc w.live) in
      rw
        (
          allocate_granted w g,
          protocol_error_lem code message w₁ g,
          response_lem body code c.curl.response_code message
              (at_live w (if_failed code + suc w.live)) g h,
        )
        (ap₂ (λ r n. ok (r, record c { result_count = 0 }) (at_live w n))
          (answer-count code c.curl.response_code c.result_count message body) (omega arith))
