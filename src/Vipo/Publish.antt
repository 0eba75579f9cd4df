-- ===== src/Vipo/Publish.antt =====
-- What `main` of src/vipo/vipo.c makes of a discovery message: it is published, and its answer is
-- looked at.
use mathlib.Core.Path.{subst}
use vantiq_sdk_micro.Base.{
  ℕ, suc, ◌+◌, ◌^◌, ◌<◌, ◌≡◌, ◌≢◌, refl, ap, ◌∙◌, true, false, Option, none, some, List, [], ◌∷◌,
  ◌++◌, Bytes, arith, length, take, take_all, leb, ◌==◌, c_str-terminated, IsText, is_text,
}
use vantiq_sdk_micro.Memory.{
  World, at_live, M, Run, ok, fault, pure, free, ◌>>◌, and_then, Granting, free_lem,
}
use vantiq_sdk_micro.Memory.Returns.{Returns, returns, bind, mono, just, eq_of_Returns}
use vantiq_sdk_micro.Curl.{Setting, Curl, post, curle_ok, has_error_buffer}
use vantiq_sdk_micro.Client.{Client, Handle, vc_magic, vc_is_valid}
use vantiq_sdk_micro.Client.Url.Text.{url_text}
use vantiq_sdk_micro.Client.Transfer.{VmeResult, error_text}
use vantiq_sdk_micro.Client.Request.Plan.{sending_plan}
use vantiq_sdk_micro.Client.Request.Answer.{answer, answer_blocks}
use vantiq_sdk_micro.Client.Request.Done.{Done-less, IsServedBy, ending}
use vantiq_sdk_micro.Client.Request.Verbs.{IsClient, IsUrl}
use vantiq_sdk_micro.Dpi.{Inbox, piece, ready, prot_eot}
use vantiq_sdk_micro.Dpi.Pieces.{NeverFills}
use vantiq_sdk_micro.Dpi.Message.{acknowledging, fetch_discovery_msg_whole}
use vantiq_sdk_micro.Api.{vme_free_result}
use vantiq_sdk_micro.Api.Invoke.{vme_publish}
use vantiq_sdk_micro.Api.Guard.{DoneOn, lost, free-Done}
use vantiq_sdk_micro.Api.Invoke.Done.{IsTopic, topic_path, vme_publish-DoneOn}
use vantiq_sdk_micro.Vipo.{read_text, read_behind, print_error, discovery_topic, publish_message}

-- A block that ends in its terminator is read up to it.
not_text : (s : Bytes) → is_text (s ++ 0 ∷ []) ≡ false
not_text [] = refl
not_text (c ∷ s) = ground (arith, not_text s)

pub read_text_lem : (s : Bytes) (w : World) → IsText s → read_text (some (s ++ 0 ∷ [])) w ≡ ok s w
unfolding read_text
read_text_lem s w t = rw (not_text s, c_str-terminated [] t) refl

pub read_behind_lem :
    (before : M (Unit {0})) (s : Bytes) (w : World)
    → IsText s
    → read_behind before (some (s ++ 0 ∷ [])) w ≡ ok s w
unfolding read_behind
read_behind_lem before s w h = rw (not_text s, c_str-terminated [] h) refl

-- A message that can be published: it is a C string that arrives as a whole.
pub record IsMessage (p : Bytes) : Type 0 where
  pub text : IsText p
  pub any : p ≢ []
  pub no_mark : take 3 p ≢ prot_eot
  pub small : length p < 2 ^ 61
  pub never_fills : NeverFills 512 (length p)

print_error-none : (o : Option Bytes) (w : World) → o ≡ none → print_error o w ≡ ok tt w
unfolding print_error
print_error-none o w e = rw e refl

-- A call that faults behind one that returns.
fault_behind :
    {A B : Type 0} {P : A → World → Type 0} {r : Run A} {k : A → M B}
    → Returns P r
    → ((a : A) (w : World) → P a w → k a w ≡ fault)
    → and_then r k ≡ fault
fault_behind (returns q) h = h _ _ q

module _ (curl : Curl) (code status count : ℕ) (message : Bytes) where
  answer_fine :
      (body : Bytes)
      → (code == curle_ok) ≡ true
      → leb 400 status ≡ false
      → (answer curl code status count message body).error_msg ≡ none
  answer_fine [] fine low = rw fine refl
  answer_fine (b ∷ bs) fine low = rw (low, fine) refl

  lost_fine : (body : Bytes) → (code == curle_ok) ≡ true → lost curl code status body ≡ 0
  lost_fine [] fine = refl
  lost_fine (b ∷ bs) fine = rw fine refl

  answer_high :
      (body : Bytes)
      → body ≢ []
      → leb 400 status ≡ true
      → (answer curl code status count message body).error_msg ≡ some body
  answer_high [] any high = absurd (any refl)
  answer_high (b ∷ bs) any high = rw high refl

-- What is asked for with a message: POST to the path of the topic.
abbrev pub topic_url : Curl → Client → Bytes
topic_url curl c = url_text curl c.server_url (topic_path c discovery_topic) []

abbrev pub topic_plan : Curl → Client → World → (p : Bytes) → List Setting
topic_plan curl c w p = sending_plan w.level c.http_hdrs (post 1) (length p) (topic_url curl c)

module _ (curl : Curl) (c : Client) (w : World) (g : Granting w)
    (valid : vc_is_valid (some c) ≡ true) (v : IsClient c) (t : IsTopic c discovery_topic)
    (p : Bytes) (m : IsMessage p) (next : Inbox) where
  -- the rest of the call, behind `vme_publish`
  look_at : VmeResult × Handle → M Handle
  look_at r = do print_error r.0.error_msg; free; vme_free_result (some r.0); pure r.1

  still_valid : (d : Client) → d.magic ≡ c.magic → vc_is_valid (some d) ≡ true
  unfolding vc_is_valid
  still_valid d e = ap (λ n. n == vc_magic) e ∙ valid

  -- The message is published as it has arrived.
  publish_message_lem :
      publish_message curl (some c) (some (acknowledging ready (piece p next))) w
      ≡ and_then
          (vme_publish curl (some c) discovery_topic p (length p) (at_live w (suc w.live)))
          look_at
  unfolding publish_message look_at
  publish_message_lem =
      let fetched = eq_of_Returns (
        mono (fetch_discovery_msg_whole w g p next m.any m.no_mark m.small m.never_fills)
          λ a u q. just q.0 q.1) in
      rw (fetched, read_text_lem p (at_live w (suc w.live)) m.text) refl

  vme_publish_message :
      IsUrl (topic_url curl c)
      → IsServedBy curl c w (topic_plan curl c w p) p
      → Returns
          (DoneOn curl c (at_live w (suc w.live)) (topic_plan curl c w p) p)
          (vme_publish curl (some c) discovery_topic p (length p) (at_live w (suc w.live)))
  vme_publish_message u s =
      let w₁ = at_live w (suc w.live) in
      let whole : take (length p) p ≡ p = take_all (length p) p (omega arith) in
      subst
        (λ b.
          IsServedBy curl c w (topic_plan curl c w p) b
          → Returns (DoneOn curl c w₁ (topic_plan curl c w p) b)
              (vme_publish curl (some c) discovery_topic p (length p) w₁))
        whole
        (vme_publish-DoneOn curl c w₁ g valid v discovery_topic p (length p)
          (omega arith, omega (arith, m.small)) t u)
        s

  -- With every allocation granted, on a valid handle whose buffers are in order, if a message
  -- that is a C string arrives as a whole, the transfer succeeds with a status below 400, and
  -- the path, the URL and the server keep to the bounds, then the tool makes just one request,
  -- with POST to the path of the topic, that can pull the bytes of the message, gives back the
  -- message and the result, and no block is left; the handle leads to a valid client with its
  -- buffers in order.
  pub publish_message_publishes :
      IsUrl (topic_url curl c)
      → IsServedBy curl c w (topic_plan curl c w p) p
      → let e = ending curl c w (topic_plan curl c w p) p in
        (e.code == curle_ok) ≡ true
        → leb 400 e.status ≡ false
        → Returns
            (λ h u.
              (d : Client) × (h ≡ some d)
              × (d.curl.sent ≡ (topic_plan curl c w p) ∷ c.curl.sent)
              × IsClient d
              × (vc_is_valid (some d) ≡ true)
              × (u ≡ record w { app_calls = e.last.calls }))
            (publish_message curl (some c) (some (acknowledging ready (piece p next))) w)
  unfolding look_at
  publish_message_publishes u s fine low = rw publish_message_lem (
      bind (vme_publish_message u s) λ r w' q.
        let e = ending curl c w (topic_plan curl c w p) p in
        let text = error_text (has_error_buffer (topic_plan curl c w p)) e.message in
        let silent : r.0.error_msg ≡ none =
          ap (λ (x : VmeResult). x.error_msg) q.done.result
          ∙ answer_fine curl e.code e.status e.last.count text e.last.body fine low in
        let (live, less) = Done-less curl c w (suc w.live) q.done in
        let n = answer_blocks curl e.code e.last.body + w.live in
        let none_lost = lost_fine curl e.code e.status e.last.count text e.last.body fine in
        rw
          (
            print_error-none r.0.error_msg w' silent,
            free_lem n w' (live ∙ omega arith),
            free-Done curl less,
            none_lost,
          )
          (returns (
            q.client,
            q.handle,
            ap (λ (x : Client). x.curl.sent) q.done.client,
            record { buffer = q.done.buffer.is_buf; in_block = q.done.in_block },
            still_valid q.client (ap (λ (x : Client). x.magic) q.done.client),
            ap (λ (x : World). at_live x (0 + w.live)) q.done.world
                ∙ ap (λ k. record w { live = k; app_calls = e.last.calls }) (omega arith),
          )))

  -- If a message is published as above, but is answered with a status of at least 400 and a body
  -- that is not empty and has no NUL, as a text has none, then the tool reads behind the block
  -- of the error message.
  pub publish_message-fault :
      IsUrl (topic_url curl c)
      → IsServedBy curl c w (topic_plan curl c w p) p
      → let e = ending curl c w (topic_plan curl c w p) p in
        leb 400 e.status ≡ true
        → e.last.body ≢ []
        → is_text e.last.body ≡ true
        → publish_message curl (some c) (some (acknowledging ready (piece p next))) w ≡ fault
  unfolding look_at print_error read_text
  publish_message-fault u s high any text =
      publish_message_lem
      ∙ fault_behind (vme_publish_message u s) λ r w' q.
        let e = ending curl c w (topic_plan curl c w p) p in
        let message = error_text (has_error_buffer (topic_plan curl c w p)) e.message in
        let body : r.0.error_msg ≡ some e.last.body =
          ap (λ (x : VmeResult). x.error_msg) q.done.result
          ∙ answer_high curl e.code e.status e.last.count message e.last.body any high in
        rw (body, text) refl
