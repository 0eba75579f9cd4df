-- ===== src/Client/Request.antt =====
-- The requests of src/vme/vantiq_client.c: one function for each HTTP verb, and the two that they
-- share. Each takes the client and returns it beside the result.
pub mod Plan
pub mod Answer
pub mod Done
pub mod Verbs
pub mod Documents
use vantiq_sdk_micro.Base.{ℕ, List, [], ◌∷◌, Option, some, none, Bytes, codes, length, c_str}
use vantiq_sdk_micro.Memory.{M, pure, ◌>>=◌, ◌>>◌, free, cells_of}
use vantiq_sdk_micro.Buf.{Vmebuf, ensure_size, concat, truncate, dealloc}
use vantiq_sdk_micro.Curl.{
  Setting, url, http_get, put, post, custom_request, post_fields, post_field_size, error_buffer,
  Curl, reset,
}
use vantiq_sdk_micro.Client.{Client, SendState, set_option, common_curl_setup}
use vantiq_sdk_micro.Client.Params.{Param}
use vantiq_sdk_micro.Client.Url.{create_url, concat_str}
use vantiq_sdk_micro.Client.Transfer.{perform, VmeResult, prepare_result}

abbrev pub empty_recv_buf : Client → M Client
empty_recv_buf c = do b ← truncate c.recv_buf; pure (record c { recv_buf = b })

module _ (curl : Curl) where
  -- From `curl_easy_perform` to the end of a request: the URL's block is freed.
  pub finish_request : Client → M (VmeResult × Client)
  finish_request c = do
    (out, c) ← perform curl c
    (r, c) ← prepare_result curl out.code out.message c
    free
    pure (r, record c { curl = reset c.curl })

  -- `_putorpost`
  pub put_or_post : Client → Bytes → Vmebuf → List Param → M (VmeResult × Client)
  unfolding finish_request
  put_or_post c rs_uri msg params = do
    topic_url ← create_url curl c.server_url rs_uri params
    let c = set_option (url (c_str topic_url)) c
    let sending : SendState = record { readptr = cells_of msg.cells; sizeleft = msg.len }
    c ← empty_recv_buf (record c { send_state = sending })
    let c = set_option (post_field_size c.send_state.sizeleft) c
    finish_request (set_option error_buffer c)

  -- `_getordelete`. It hands `prepare_result` a buffer of which libcurl was not told.
  pub get_or_delete : Client → Bytes → List Param → M (VmeResult × Client)
  unfolding finish_request
  get_or_delete c rs_uri params = do
    request_url ← create_url curl c.server_url rs_uri params
    let c = set_option (url (c_str request_url)) c
    finish_request (record c { recv_buf = record c.recv_buf { len = 0 } })

  pub vc_put : Client → Bytes → Vmebuf → List Param → M (VmeResult × Client)
  unfolding put_or_post
  vc_put c rs_uri msg params = do
    c ← common_curl_setup c
    put_or_post (set_option (put 1) c) rs_uri msg params

  pub vc_post : Client → Bytes → Vmebuf → List Param → M (VmeResult × Client)
  unfolding put_or_post
  vc_post c rs_uri msg params = do
    c ← common_curl_setup c
    put_or_post (set_option (post 1) c) rs_uri msg params

  pub vc_get : Client → Bytes → List Param → M (VmeResult × Client)
  unfolding get_or_delete
  vc_get c rs_uri params = do
    c ← common_curl_setup c
    get_or_delete (set_option (http_get 1) c) rs_uri params

  pub vc_delete : Client → Bytes → List Param → M (VmeResult × Client)
  unfolding get_or_delete
  vc_delete c rs_uri params = do
    c ← common_curl_setup c
    get_or_delete (set_option (custom_request (codes "DELETE")) c) rs_uri params

  pub vc_patch : Client → Bytes → (json : Bytes) → M (VmeResult × Client)
  unfolding finish_request
  vc_patch c rs_uri json = do
    c ← common_curl_setup c
    let c = set_option (post_fields json) (set_option (custom_request (codes "PATCH")) c)
    topic_url ← create_url curl c.server_url rs_uri []
    c ← empty_recv_buf (set_option (url (c_str topic_url)) c)
    finish_request (set_option error_buffer c)

  pub vc_aggregate : Client → Bytes → List Param → M (VmeResult × Client)
  unfolding get_or_delete
  vc_aggregate c rs_uri params = do
    c ← common_curl_setup c
    get_or_delete (set_option (http_get 1) c) rs_uri params

  -- `vc_execute` and `vc_query` post a document from a buffer of their own.
  pub vc_execute : Client → Bytes → (args_doc : Bytes) → M (VmeResult × Client)
  unfolding put_or_post
  vc_execute c rs_uri args_doc = do
    msg ← ensure_size none (length args_doc)
    msg ← concat_str msg args_doc
    c ← common_curl_setup c
    (r, c) ← put_or_post (set_option (post 1) c) rs_uri msg []
    msg ← dealloc msg
    pure (r, c)

  pub vc_query : Client → Bytes → (q_params : Bytes) → M (VmeResult × Client)
  unfolding put_or_post
  vc_query c rs_uri q_params = do
    msg ← ensure_size none (length q_params)
    msg ← concat_str msg q_params
    c ← common_curl_setup c
    (r, c) ← put_or_post (set_option (post 1) c) rs_uri msg []
    msg ← dealloc msg
    pure (r, c)
