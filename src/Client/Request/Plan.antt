-- ===== src/Client/Request/Plan.antt =====
-- What each request of src/vme/vantiq_client.c asks of libcurl: the options that are set when the
-- transfer is performed, in order.
use vantiq_sdk_micro.Base.{
  ℕ, ◌≡◌, ap, ◌∙◌, List, [], ◌∷◌, ◌++◌, append_assoc, append-nil, Bytes, codes,
}
use vantiq_sdk_micro.Memory.{World, ok}
use vantiq_sdk_micro.Curl.{
  Setting, reset, url, http_get, custom_request, post_fields, post_field_size, error_buffer,
}
use vantiq_sdk_micro.Client.{Client, set_option, set_options, common_settings, common_curl_setup}

-- The client with these settings for its next transfer.
abbrev pub at_settings : List Setting → Client → Client
at_settings ss c = record c { curl = record c.curl { settings = ss } }

pub set_options_lem :
    (ss : List Setting) (c : Client) → set_options ss c ≡ at_settings (c.curl.settings ++ ss) c
set_options_lem [] c = rw append-nil
set_options_lem (s ∷ ss) c = set_options_lem ss (set_option s c) ∙ rw append_assoc

pub common_curl_setup_lem :
    (c : Client) (w : World)
    → common_curl_setup c w ≡ ok (at_settings (common_settings w.level c.http_hdrs) c) w
unfolding common_curl_setup
common_curl_setup_lem c w =
    ap (λ d. ok d w)
      (set_options_lem (common_settings w.level c.http_hdrs) (record c { curl = reset c.curl }))

module _ (level : ℕ) (hdrs : List Bytes) where
  abbrev pub get_plan : Bytes → List Setting
  get_plan target = common_settings level hdrs ++ http_get 1 ∷ url target ∷ []

  abbrev pub delete_plan : Bytes → List Setting
  delete_plan target =
      common_settings level hdrs ++ custom_request (codes "DELETE") ∷ url target ∷ []

  -- A body is announced with its length, and libcurl is told of the error buffer.
  abbrev pub sending_plan : Setting → (length : ℕ) → Bytes → List Setting
  sending_plan verb length target =
      common_settings level hdrs ++ verb ∷ url target ∷ post_field_size length ∷ error_buffer ∷ []

  abbrev pub patch_plan : (json : Bytes) → Bytes → List Setting
  patch_plan json target =
      common_settings level hdrs
      ++ custom_request (codes "PATCH") ∷ post_fields json ∷ url target ∷ error_buffer ∷ []
