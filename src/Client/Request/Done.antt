-- ===== src/Client/Request/Done.antt =====
-- A request of src/vme/vantiq_client.c from `curl_easy_perform` to its end, against the abstract
-- exchange.
use vantiq_sdk_micro.Base.{
  ℕ, suc, ◌+◌, ◌≤◌, ◌≡◌, refl, ap, ◌∙◌, List, [], ◌∷◌, Bytes, arith, length,
}
use vantiq_sdk_micro.Memory.{World, at_live, M, pure, ◌>>=◌, ◌>>◌, Granting, free, free_lem}
use vantiq_sdk_micro.Memory.Returns.{Returns, returns, bind}
use vantiq_sdk_micro.Buf.{Vmebuf}
use vantiq_sdk_micro.Buf.Growth.{Holds}
use vantiq_sdk_micro.Curl.{Setting, Curl, reset, has_error_buffer}
use vantiq_sdk_micro.Client.{Client, SendState}
use vantiq_sdk_micro.Client.Callbacks.Body.{unsent}
use vantiq_sdk_micro.Client.Transfer.{VmeResult, Outcome, error_text, perform, prepare_result}
use vantiq_sdk_micro.Client.Transfer.Exchange.{Exchange, Ending, exchange, IsServed}
use vantiq_sdk_micro.Client.Transfer.Refines.{Refined, run_transfer-Refined}
use vantiq_sdk_micro.Client.Request.{finish_request}
use vantiq_sdk_micro.Client.Request.Answer.{answer, answer_blocks, prepare_result_lem}
use vantiq_sdk_micro.Client.Request.Plan.{at_settings}

-- Before the transfer: nothing is received, and `message` is to be sent.
abbrev pub start : Client → World → (message : Bytes) → Exchange
start c w message = record {
  count = c.result_count;
  body = [];
  to_send = message;
  calls = w.app_calls;
}

module _ (curl : Curl) where
  -- The transfer that libcurl makes of the settings, in the abstract.
  abbrev pub ending : Client → World → List Setting → (message : Bytes) → Ending
  ending c w ss message =
      exchange c.recv_callback c.callback_state (curl.perform c.curl.sent ss) (start c w message)

  abbrev pub IsServedBy : Client → World → List Setting → (message : Bytes) → Type 0
  IsServedBy c w ss message =
      IsServed c.recv_callback c.callback_state (curl.perform c.curl.sent ss) (start c w message)

  -- The answer to a request: what of the error buffer's text is seen depends on the settings.
  abbrev pub answer_to : List Setting → Ending → VmeResult
  answer_to ss e =
      answer curl e.code e.status e.last.count (error_text (has_error_buffer ss) e.message)
        e.last.body

  -- A request of the client `c` that was made with the settings `ss`, started in the world `w`.
  -- The transfer is recorded, the options are reset, the count is handed over, the body is in the
  -- buffer, and all else of the client is as it was.
  pub record Done (c : Client) (w : World) (ss : List Setting) (message : Bytes)
      (r : VmeResult × Client) (w' : World) : Type 0 where
    pub result : r.0 ≡ answer_to ss (ending c w ss message)
    pub client : r.1 ≡ record c {
      result_count = 0;
      recv_buf = r.1.recv_buf;
      send_state = r.1.send_state;
      curl = record {
        settings = [];
        response_code = (ending c w ss message).status;
        sent = ss ∷ c.curl.sent;
      };
    }
    pub buffer : Holds (ending c w ss message).last.body r.1.recv_buf
    pub in_block : r.1.send_state.sizeleft ≤ length r.1.send_state.readptr
    pub world : w' ≡ record w {
      live =
          answer_blocks curl (ending c w ss message).code (ending c w ss message).last.body
          + w.live;
      app_calls = (ending c w ss message).last.calls;
    }

  -- The client as `curl_easy_perform` finds it.
  abbrev pub asked : Client → List Setting → Client
  asked c ss = record c { curl = record c.curl { settings = ss; sent = ss ∷ c.curl.sent } }

  pub perform-Refined :
      (c : Client) (w : World) (ss : List Setting) (message : Bytes)
      → Granting w
      → Holds [] c.recv_buf
      → unsent c.send_state ≡ message
      → c.send_state.sizeleft ≤ length c.send_state.readptr
      → IsServedBy c w ss message
      → Returns
          (λ (r : Outcome × Client) v.
            Refined
              (asked c ss)
              w
              (record (ending c w ss message) {
                message = error_text (has_error_buffer ss) (ending c w ss message).message;
              })
              r
              v)
          (perform curl (at_settings ss c) w)
  unfolding perform
  perform-Refined c w ss message g h u k s =
      bind
        (run_transfer-Refined (asked c ss) w g c.recv_callback (curl.perform c.curl.sent ss)
          (start c w message) (asked c ss) w refl
          (record { holds = h; counts = refl; sends = u; in_block = k; frame = refl; world = refl })
          s)
        λ r w' q. returns (record {
          code = q.code;
          message = ap (error_text (has_error_buffer ss)) q.message;
          status = q.status;
          reflects = q.reflects;
        })

  -- the end of `finish_request`, behind the transfer
  finish : Outcome × Client → M (VmeResult × Client)
  finish r = do
    (a, c) ← prepare_result curl r.0.code r.0.message r.1
    free
    pure (a, record c { curl = reset c.curl })

  module _ (c : Client) (w : World) (ss : List Setting) (message : Bytes) where
    e : Ending
    e = ending c w ss message

    finish-Done :
        (r : Outcome × Client) (v : World)
        → Granting w
        → Refined
            (asked c ss)
            (at_live w (suc w.live))
            (record e { message = error_text (has_error_buffer ss) e.message })
            r
            v
        → Returns (Done c w ss message) (finish r v)
    unfolding finish e
    finish-Done r v g q =
        let body = e.last.body in
        let g' : Granting v = ap (λ (u : World). u.ration) q.reflects.world ∙ g in
        let live : v.live ≡ suc w.live = ap (λ (u : World). u.live) q.reflects.world in
        let n = answer_blocks curl r.0.code body + w.live in
        rw
          (
            prepare_result_lem curl r.0.code r.0.message body r.1 v g' q.reflects.holds,
            free_lem n (at_live v (answer_blocks curl r.0.code body + v.live)) (omega arith),
          )
          (returns (record {
            result =
                λ i. answer curl (q.code i) (q.status i) (q.reflects.counts i) (q.message i) body;
            client =
                ap (λ (d : Client). record d { result_count = 0; curl = reset d.curl })
                  q.reflects.frame
                ∙ ap
                    (λ s. record c {
                      result_count = 0;
                      recv_buf = r.1.recv_buf;
                      send_state = r.1.send_state;
                      curl = record { settings = []; response_code = s; sent = ss ∷ c.curl.sent };
                    })
                    q.status;
            buffer = q.reflects.holds;
            in_block = q.reflects.in_block;
            world =
                ap (λ (u : World). record u { live = n }) q.reflects.world
                ∙ ap
                    (λ k. record w {
                      live = answer_blocks curl k body + w.live;
                      app_calls = e.last.calls;
                    })
                    q.code;
          }))

  -- A request with the URL's block allocated, from the call of libcurl on.
  pub finish_request-Done :
      (c : Client) (w : World) (ss : List Setting) (message : Bytes)
      → Granting w
      → Holds [] c.recv_buf
      → unsent c.send_state ≡ message
      → c.send_state.sizeleft ≤ length c.send_state.readptr
      → IsServedBy c w ss message
      → Returns
          (Done c w ss message)
          (finish_request curl (at_settings ss c) (at_live w (suc w.live)))
  unfolding finish_request finish e exchange
  finish_request-Done c w ss message g h u k s =
      bind (perform-Refined c (at_live w (suc w.live)) ss message g h u k s)
        λ r v q. finish-Done c w ss message r v g q

  -- What a request is does not depend on the buffers that it starts with.
  pub Done-from :
      {c : Client} {w w' : World} {ss : List Setting} {message : Bytes} {r : VmeResult × Client}
      (b : Vmebuf) (s : SendState)
      → Done (record c { recv_buf = b; send_state = s }) w ss message r w'
      → Done c w ss message r w'
  Done-from b s d = record {
    result = d.result;
    client = d.client;
    buffer = d.buffer;
    in_block = d.in_block;
    world = d.world;
  }

  -- A request that was started behind `n` blocks is the same request with those given back.
  pub Done-less :
      (c : Client) (w : World) (n : ℕ) {ss : List Setting} {message : Bytes}
      {r : VmeResult × Client} {w' : World}
      → Done c (at_live w n) ss message r w'
      → let e = ending c w ss message in
        let blocks = answer_blocks curl e.code e.last.body in
        (w'.live ≡ blocks + n) × Done c w ss message r (at_live w' (blocks + w.live))
  Done-less c w n {ss} {message} q =
      let e' = ending c w ss message in
      let blocks = answer_blocks curl e'.code e'.last.body in
      (
        ap (λ (u : World). u.live) q.world,
        record {
          result = q.result;
          client = q.client;
          buffer = q.buffer;
          in_block = q.in_block;
          world = ap (λ u. at_live u (blocks + w.live)) q.world;
        },
      )
