-- ===== src/Client/Session/Login.antt =====
-- `vc_init` and `vc_teardown` of src/vme/vantiq_client.c: when a handle is given out, what it holds,
-- and which blocks are kept.
use mathlib.Core.Path.{ap₂}
use vantiq_sdk_micro.Base.{
  ℕ, suc, ◌+◌, ◌-◌, ◌≤◌, ◌≡◌, refl, ap, ◌∙◌, true, not, ◌&&◌, inl, inr, Bool-cases, none, some,
  List, [], ◌∷◌, ◌++◌, append_assoc, Bytes, arith, length, length-append, take_all, IsText,
  IsText-append, is_text→IsText, c_str-terminated, ◌==◌, if◌then◌else◌, ends_in,
}
use vantiq_sdk_micro.Memory.{World, at_live, ok, Granting, allocate_granted, free_lem}
use vantiq_sdk_micro.Memory.Returns.{Returns, returns, bind}
use vantiq_sdk_micro.Buf.{Vmebuf}
use vantiq_sdk_micro.Buf.Growth.{IsBuf, Holds, ensure_size-Allocated}
use vantiq_sdk_micro.Buf.Contents.{Allocated-bind, dealloc_lem}
use vantiq_sdk_micro.Curl.{Setting, url, http_get, Curl, curle_ok, reset}
use vantiq_sdk_micro.Client.{Client, SendState, Handle, vc_magic, vc_is_valid, common_settings}
use vantiq_sdk_micro.Client.Url.{auth_hdr_key}
use vantiq_sdk_micro.Client.Url.Text.{create_auth_hdr_lem}
use vantiq_sdk_micro.Client.Callbacks.Body.{unsent}
use vantiq_sdk_micro.Client.Transfer.{Outcome}
use vantiq_sdk_micro.Client.Transfer.Exchange.{Ending}
use vantiq_sdk_micro.Client.Request.Plan.{common_curl_setup_lem}
use vantiq_sdk_micro.Client.Request.Done.{IsServedBy, ending, perform-Refined}
use vantiq_sdk_micro.Client.Request.Verbs.{IsClient}
use vantiq_sdk_micro.Client.Session.{
  auth_url_path, json_contenttype, no_expect, new_client, last_char, init_of, trim_url,
  authenticate, connect, vc_init, vc_teardown,
}

-- the server's URL that a client keeps
abbrev pub without_slash : Bytes → Bytes
without_slash s = if ends_in b'/' s then init_of s else s

IsText-init_of : {s : Bytes} → IsText s → IsText (init_of s)
IsText-init_of IsText.nil = IsText.nil
IsText-init_of (IsText.cons h IsText.nil) = IsText.nil
IsText-init_of (IsText.cons h (IsText.cons k t)) = IsText.cons h (IsText-init_of (IsText.cons k t))

last_char_lem :
    (x : ℕ) (s : Bytes) (w : World)
    → (d : ℕ) × (last_char (x ∷ s) w ≡ ok d w) × ((d == b'/') ≡ ends_in b'/' (x ∷ s))
unfolding last_char
last_char_lem x [] w = (x, refl, refl)
last_char_lem x (y ∷ s) w = last_char_lem y s w

trim_url_lem :
    (x : ℕ) (s : Bytes) (w : World)
    → Granting w
    → IsText (x ∷ s)
    → trim_url (x ∷ s) w ≡ ok (without_slash (x ∷ s)) (at_live w (suc w.live))
unfolding trim_url
trim_url_lem x s w g t =
    let (d, last, slash) = last_char_lem x s w in
    elim (Bool-cases (ends_in b'/' (x ∷ s))) [
      | inl found ↦
          rw
            (
              last,
              slash ∙ found,
              found,
              allocate_granted w g,
              c_str-terminated [] (IsText-init_of t),
            )
            refl
      | inr other ↦
          rw (last, slash ∙ other, other, allocate_granted w g, c_str-terminated [] t) refl
    ]

-- The options of the request to the server.
abbrev pub login_plan : (level : ℕ) → (hdrs : List Bytes) → (server_url : Bytes) → List Setting
login_plan level hdrs server_url =
    common_settings level hdrs ++ url (server_url ++ auth_url_path) ∷ http_get 1 ∷ []

module _ (curl : Curl) where
  -- What the request to the server leaves of the client `c` and the world.
  record Authenticated (c : Client) (w : World) (ss : List Setting) (r : Outcome × Client)
      (w' : World) : Type 0 where
    code : r.0.code ≡ (ending curl c w ss []).code
    client : r.1 ≡ record c {
      result_count = (ending curl c w ss []).last.count;
      http_hdrs = c.http_hdrs ++ json_contenttype ∷ no_expect ∷ [];
      recv_buf = r.1.recv_buf;
      send_state = r.1.send_state;
      curl = record {
        settings = [];
        response_code = (ending curl c w ss []).status;
        sent = ss ∷ c.curl.sent;
      };
    }
    buffer : Holds (ending curl c w ss []).last.body r.1.recv_buf
    in_block : r.1.send_state.sizeleft ≤ length r.1.send_state.readptr
    world : w' ≡ record w { app_calls = (ending curl c w ss []).last.calls }

  authenticate-Authenticated :
      (c : Client) (w : World)
      → Granting w
      → Holds [] c.recv_buf
      → c.send_state ≡ record { readptr = []; sizeleft = 0 }
      → let ss = login_plan w.level c.http_hdrs c.server_url in
        IsServedBy curl c w ss [] → Returns (Authenticated c w ss) (authenticate curl c w)
  unfolding authenticate
  authenticate-Authenticated c w g h sending s =
      let w₁ = at_live w (suc w.live) in
      let target = c.server_url ++ auth_url_path in
      let ss = login_plan w.level c.http_hdrs c.server_url in
      let n : length target ≤ length c.server_url + (length auth_url_path + 1) - 1 =
        omega (arith, length-append c.server_url auth_url_path) in
      rw
        (
          common_curl_setup_lem c w,
          allocate_granted w g,
          take_all (length c.server_url + (length auth_url_path + 1) - 1) target n,
          append_assoc (common_settings w.level c.http_hdrs) (url target ∷ []) (http_get 1 ∷ []),
        )
        (bind
          (perform-Refined curl c w₁ ss [] g h (ap unsent sending)
            (omega (arith, ap (λ (d : SendState). d.sizeleft) sending)) s)
          λ r v q. rw (free_lem w.live v (ap (λ (u : World). u.live) q.reflects.world)) (
            returns (record {
              code = q.code;
              client =
                  ap
                    (λ (d : Client). record d {
                      http_hdrs = d.http_hdrs ++ json_contenttype ∷ no_expect ∷ [];
                      curl = reset d.curl;
                    })
                    q.reflects.frame
                  ∙ ap₂
                      (λ k t. record c {
                        result_count = k;
                        http_hdrs = c.http_hdrs ++ json_contenttype ∷ no_expect ∷ [];
                        recv_buf = r.1.recv_buf;
                        send_state = r.1.send_state;
                        curl = record { settings = []; response_code = t; sent = ss ∷ c.curl.sent };
                      })
                      q.reflects.counts q.status;
              buffer = q.reflects.holds;
              in_block = q.reflects.in_block;
              world = ap (λ (u : World). record u { live = w.live }) q.reflects.world;
            })))

  -- The client before the request to the server, but for its receive buffer.
  abbrev pub first_client : (server_url token : Bytes) → (api_version : ℕ) → Client
  first_client server_url token version = record (new_client version) {
    server_url = without_slash server_url;
    http_hdrs = (auth_hdr_key ++ token) ∷ [];
  }

  abbrev pub first_plan : World → (server_url token : Bytes) → List Setting
  first_plan w server_url token =
      login_plan w.level ((auth_hdr_key ++ token) ∷ []) (without_slash server_url)

  -- The handle of a client that has been made and has asked the server, and the world behind it.
  -- There is none if libcurl failed and the status is not 200.
  pub record Opened (server_url token : Bytes) (api_version : ℕ) (w : World) (e : Ending)
      (h : Handle) (w' : World) : Type 0 where
    pub client : Client
    pub handle :
        h ≡ (if not (e.code == curle_ok) && not (e.status == 200) then none else some client)
    pub valid : vc_is_valid (some client) ≡ true
    pub is_client : IsClient client
    pub server : client.server_url ≡ without_slash server_url
    pub version : client.api_version ≡ api_version
    pub headers : client.http_hdrs ≡ (auth_hdr_key ++ token) ∷ json_contenttype ∷ no_expect ∷ []
    pub asked : client.curl.sent ≡ first_plan w server_url token ∷ []
    pub body : Holds e.last.body client.recv_buf
    pub world : w' ≡ record w { live = suc (suc (suc (suc w.live))); app_calls = e.last.calls }

  module _ (x : ℕ) (s token : Bytes) (version : ℕ) (w : World) (g : Granting w) where
    abbrev pub opening : Ending
    opening = ending curl (first_client (x ∷ s) token version) w (first_plan w (x ∷ s) token) []

    connect-Opened :
        (b : Vmebuf)
        → (curl.global_init == curle_ok) ≡ true
        → curl.easy_init ≡ true
        → Holds [] b
        → IsServedBy curl (first_client (x ∷ s) token version) w (first_plan w (x ∷ s) token) []
        → Returns (Opened (x ∷ s) token version w opening) (
            connect curl
              (record (first_client (x ∷ s) token version) { recv_buf = b })
              (at_live w (suc (suc (suc (suc w.live))))))
    unfolding connect vc_is_valid
    connect-Opened b global easy h served =
        let c = record (first_client (x ∷ s) token version) { recv_buf = b } in
        simp (global, easy)
          (bind
            (authenticate-Authenticated c (at_live w (suc (suc (suc (suc w.live))))) g h refl
              served)
            λ r v q. returns (record {
              client = r.1;
              handle = λ i.
                  if not (q.code i == curle_ok) && not ((q.client i).curl.response_code == 200)
                  then none
                  else some r.1;
              valid = ap (λ (d : Client). d.magic == vc_magic) q.client;
              is_client = record { buffer = q.buffer.is_buf; in_block = q.in_block };
              server = ap (λ (d : Client). d.server_url) q.client;
              version = ap (λ (d : Client). d.api_version) q.client;
              headers = ap (λ (d : Client). d.http_hdrs) q.client;
              asked = ap (λ (d : Client). d.curl.sent) q.client;
              body = q.buffer;
              world = q.world;
            }))

    -- If libcurl starts up, every allocation is granted, the server's URL is not empty and both
    -- texts are C strings, and the server keeps to the bounds, then vc_init returns; there is no
    -- handle exactly if libcurl's code is not CURLE_OK and the status is not 200; otherwise the
    -- handle leads to a valid client with its buffers in order, the URL without a trailing
    -- slash, the headers for authorization, content type and Expect, the API version, one
    -- request made, to /authenticate, and the body of its reply in the buffer. In both cases
    -- four more blocks are allocated than before.
    pub vc_init-Opened :
        (curl.global_init == curle_ok) ≡ true
        → curl.easy_init ≡ true
        → IsText (x ∷ s)
        → IsText token
        → IsServedBy curl (first_client (x ∷ s) token version) w (first_plan w (x ∷ s) token) []
        → Returns (Opened (x ∷ s) token version w opening) (vc_init curl (x ∷ s) token version w)
    unfolding vc_init
    vc_init-Opened global easy t k served =
        let n = w.live in
        let w₁ = at_live w (suc n) in
        let hdr = IsText-append (is_text→IsText auth_hdr_key refl) k in
        rw
          (
            allocate_granted w g,
            create_auth_hdr_lem token w₁ g,
            c_str-terminated [] hdr,
            free_lem (suc n) (at_live w (suc (suc n))) refl,
            trim_url_lem x s w₁ g t,
          )
          (Allocated-bind _ (ensure_size-Allocated 0 (at_live w (suc (suc n))) g (omega arith))
            λ b h. connect-Opened b global easy h served)

-- `vc_teardown` frees the buffer and the struct: three blocks of the four that `vc_init` leaves.
pub vc_teardown_lem :
    (c : Client) (n : ℕ) (w : World)
    → IsBuf c.recv_buf
    → w.live ≡ suc (suc (suc n))
    → vc_teardown c w ≡ ok tt (at_live w n)
unfolding vc_teardown
vc_teardown_lem c n w v live =
    rw (dealloc_lem (suc n) w v live, free_lem n (at_live w (suc n)) refl) refl
