-- ===== src/Client/Request/Verbs.antt =====
-- The requests of src/vme/vantiq_client.c, each with the settings that it makes and the answer that
-- it gives.
use vantiq_sdk_micro.Base.{
  ◌≤◌, refl, List, [], ◌∷◌, ◌++◌, append_assoc, Bytes, arith, codes, length, IsText,
  c_str-terminated,
}
use vantiq_sdk_micro.Memory.{World, Granting, cells_of}
use vantiq_sdk_micro.Memory.Returns.{Returns, mono}
use vantiq_sdk_micro.Buf.{Vmebuf}
use vantiq_sdk_micro.Buf.Growth.{IsBuf, Holds, contents}
use vantiq_sdk_micro.Buf.Contents.{IsSmall}
use vantiq_sdk_micro.Curl.{
  Setting, Curl, url, http_get, put, post, custom_request, post_field_size, error_buffer,
}
use vantiq_sdk_micro.Client.{Client, SendState, common_settings}
use vantiq_sdk_micro.Client.Params.{Param}
use vantiq_sdk_micro.Client.Url.Text.{url_text, create_url_lem}
use vantiq_sdk_micro.Client.Callbacks.Body.{unsent}
use vantiq_sdk_micro.Client.Request.{
  get_or_delete, put_or_post, vc_get, vc_aggregate, vc_delete, vc_put, vc_post,
}
use vantiq_sdk_micro.Client.Request.Plan.{
  at_settings, common_curl_setup_lem, get_plan, delete_plan, sending_plan,
}
use vantiq_sdk_micro.Client.Request.Done.{IsServedBy, Done, Done-from, finish_request-Done}

-- A client whose buffers are in order.
pub record IsClient (c : Client) : Type 0 where
  pub buffer : IsBuf c.recv_buf
  pub in_block : c.send_state.sizeleft ≤ length c.send_state.readptr

-- The URL is a C string of a size that can be handled.
pub record IsUrl (target : Bytes) : Type 0 where
  pub text : IsText target
  pub small : IsSmall (length target)

pub emptied : {b : Vmebuf} → IsBuf b → Holds [] (record b { len = 0 })
emptied v = record {
  is_buf = record { sized = v.sized; within = omega arith; least = v.least; fits = v.fits };
  bytes = refl;
}

module _ (curl : Curl) (c : Client) (w : World) (g : Granting w) (v : IsClient c) (rs_uri : Bytes)
    (params : List Param) where
  abbrev target : Bytes
  target = url_text curl c.server_url rs_uri params

  get_or_delete-Done :
      (pre : List Setting) (verb : Setting)
      → IsUrl target
      → let ss = pre ++ verb ∷ url target ∷ [] in
        IsServedBy curl c w ss (unsent c.send_state)
        → Returns
            (Done curl c w ss (unsent c.send_state))
            (get_or_delete curl (at_settings (pre ++ verb ∷ []) c) rs_uri params w)
  unfolding get_or_delete
  get_or_delete-Done pre verb u s =
      rw
        (
          create_url_lem curl c.server_url rs_uri params w g u.small,
          c_str-terminated [] u.text,
          append_assoc pre (verb ∷ []) (url target ∷ []),
        )
        (mono
          (finish_request-Done curl (record c { recv_buf = record c.recv_buf { len = 0 } }) w
            (pre ++ verb ∷ url target ∷ []) (unsent c.send_state) g (emptied v.buffer) refl
            v.in_block s)
          λ r w' d. Done-from curl (record c.recv_buf { len = 0 }) c.send_state d)

  -- `_putorpost` sends what is in the buffer `msg`.
  pub put_or_post-Done :
      (pre : List Setting) (verb : Setting) (msg : Vmebuf)
      → IsBuf msg
      → IsUrl target
      → let ss = pre ++ verb ∷ url target ∷ post_field_size msg.len ∷ error_buffer ∷ [] in
        IsServedBy curl c w ss (contents msg)
        → Returns
            (Done curl c w ss (contents msg))
            (put_or_post curl (at_settings (pre ++ verb ∷ []) c) rs_uri msg params w)
  unfolding put_or_post
  put_or_post-Done pre verb msg m u s =
      let sending : SendState = record { readptr = cells_of msg.cells; sizeleft = msg.len } in
      rw
        (
          create_url_lem curl c.server_url rs_uri params w g u.small,
          c_str-terminated [] u.text,
          append_assoc pre (verb ∷ []) (url target ∷ []),
          append_assoc pre (verb ∷ url target ∷ []) (post_field_size msg.len ∷ []),
          append_assoc pre (verb ∷ url target ∷ post_field_size msg.len ∷ []) (error_buffer ∷ []),
        )
        (mono
          (finish_request-Done curl
            (record c { recv_buf = record c.recv_buf { len = 0 }; send_state = sending }) w
            (pre ++ verb ∷ url target ∷ post_field_size msg.len ∷ error_buffer ∷ []) (contents msg)
            g (emptied v.buffer) refl (omega (arith, m.sized, m.within)) s)
          λ r w' d. Done-from curl (record c.recv_buf { len = 0 }) sending d)

  -- For a client that is in order, with every allocation granted, and a URL and a server that
  -- keep to the bounds, vc_get returns: the server is asked with GET for the URL of the resource
  -- and the parameters, the answer is that of the abstract exchange with no error buffer, the
  -- options are reset, and no block is allocated but those of the result.
  pub vc_get-Done :
      let ss = get_plan w.level c.http_hdrs target in
      IsUrl target
      → IsServedBy curl c w ss (unsent c.send_state)
      → Returns (Done curl c w ss (unsent c.send_state)) (vc_get curl c rs_uri params w)
  unfolding vc_get
  vc_get-Done u s =
      rw (common_curl_setup_lem c w)
        (get_or_delete-Done (common_settings w.level c.http_hdrs) (http_get 1) u s)

  pub vc_aggregate-Done :
      let ss = get_plan w.level c.http_hdrs target in
      IsUrl target
      → IsServedBy curl c w ss (unsent c.send_state)
      → Returns (Done curl c w ss (unsent c.send_state)) (vc_aggregate curl c rs_uri params w)
  unfolding vc_aggregate
  vc_aggregate-Done u s =
      rw (common_curl_setup_lem c w)
        (get_or_delete-Done (common_settings w.level c.http_hdrs) (http_get 1) u s)

  pub vc_delete-Done :
      let ss = delete_plan w.level c.http_hdrs target in
      IsUrl target
      → IsServedBy curl c w ss (unsent c.send_state)
      → Returns (Done curl c w ss (unsent c.send_state)) (vc_delete curl c rs_uri params w)
  unfolding vc_delete
  vc_delete-Done u s = rw (common_curl_setup_lem c w) (
      get_or_delete-Done (common_settings w.level c.http_hdrs) (custom_request (codes "DELETE")) u
        s)

  -- For a client and a message buffer that are in order, with every allocation granted, and a
  -- URL and a server that keep to the bounds, vc_post returns: the server is asked with POST and
  -- the message's length, it can pull just the bytes of the message, the answer is that of the
  -- abstract exchange, the options are reset, and no block is allocated but those of the result.
  pub vc_post-Done :
      (msg : Vmebuf)
      → IsBuf msg
      → IsUrl target
      → let ss = sending_plan w.level c.http_hdrs (post 1) msg.len target in
        IsServedBy curl c w ss (contents msg)
        → Returns (Done curl c w ss (contents msg)) (vc_post curl c rs_uri msg params w)
  unfolding vc_post
  vc_post-Done msg m u s =
      rw (common_curl_setup_lem c w)
        (put_or_post-Done (common_settings w.level c.http_hdrs) (post 1) msg m u s)

  pub vc_put-Done :
      (msg : Vmebuf)
      → IsBuf msg
      → IsUrl target
      → let ss = sending_plan w.level c.http_hdrs (put 1) msg.len target in
        IsServedBy curl c w ss (contents msg)
        → Returns (Done curl c w ss (contents msg)) (vc_put curl c rs_uri msg params w)
  unfolding vc_put
  vc_put-Done msg m u s =
      rw (common_curl_setup_lem c w)
        (put_or_post-Done (common_settings w.level c.http_hdrs) (put 1) msg m u s)
