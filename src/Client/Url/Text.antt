-- ===== src/Client/Url/Text.antt =====
-- What URL and header `create_url` and `create_auth_hdr` make.
use mathlib.Core.Path.{subst}
use vantiq_sdk_micro.Base.{
  suc, ◌+◌, ◌≡◌, refl, ap, none, some, Option, inl, inr, Option-cases, List, [], ◌∷◌, ◌++◌,
  append_assoc, append-nil, Bytes, arith, length, length-append, add_size, le→leb,
}
use vantiq_sdk_micro.Memory.{
  World, at_live, Run, ok, pure, Granting, ◌>>=◌, ◌>>◌, free, free_lem, allocate_granted,
}
use vantiq_sdk_micro.Memory.Returns.{Returns, returns, just, eq_of_Returns}
use vantiq_sdk_micro.Buf.{Vmebuf, dealloc, tostr}
use vantiq_sdk_micro.Buf.Growth.{Holds, ensure_size-Allocated}
use vantiq_sdk_micro.Buf.Contents.{
  Left, IsSmall, Left-bind, Allocated-bind, concat_str-Left, push_small-Left, tostr_lem,
  dealloc_lem,
}
use vantiq_sdk_micro.Curl.{Curl, easy_escape-some, easy_escape-none}
use vantiq_sdk_micro.Client.Params.{Param}
use vantiq_sdk_micro.Client.Url.{
  string_block, add_value, add_escaped, add_pair, add_separator, add_params, begin_query,
  create_url, auth_hdr_key, create_auth_hdr,
}

add_separator-Left :
    {s : Bytes} {b : Vmebuf} (p : Param) (ps : List Param) (w : World)
    → Granting w
    → Holds s b
    → IsSmall (length s)
    → Returns (Left (s ++ b';' ∷ []) w) (add_separator b (p ∷ ps) w)
unfolding add_separator
add_separator-Left p ps w g h small = push_small-Left b';' w g h small

-- Appending is appending on top: the text may be regrouped.
regroup :
    {s t : Bytes} {w : World} {r : Run Vmebuf} → s ≡ t → Returns (Left s w) r → Returns (Left t w) r
regroup {w} {r} e h = subst (λ u. Returns (Left u w) r) e h

module _ (curl : Curl) where
  -- the text that stands for a value in the URL
  abbrev pub escaped : Option Bytes → Bytes → Bytes
  escaped (some e) value = e
  escaped none value = value

  abbrev pub pair : Param → Bytes
  pair p = p.key ++ b'=' ∷ escaped (curl.escape p.value) p.value

  abbrev pub pairs : List Param → Bytes
  pairs [] = []
  pairs (p ∷ []) = pair p
  pairs (p ∷ q ∷ ps) = pair p ++ b';' ∷ pairs (q ∷ ps)

  abbrev pub query : List Param → Bytes
  query [] = []
  query (p ∷ ps) = b'?' ∷ pairs (p ∷ ps)

  -- The URL of a request: the parameters stand in the order of the list, separated by semicolons.
  abbrev pub url_text : (server_url rs_uri : Bytes) → List Param → Bytes
  url_text server_url rs_uri params = server_url ++ (rs_uri ++ query params)

  add_escaped-Left :
      {s : Bytes} {b : Vmebuf} (value : Bytes) (w : World)
      → Granting w
      → Holds s b
      → IsSmall (length s + length (escaped (curl.escape value) value))
      → Returns (Left (s ++ escaped (curl.escape value) value) w) (add_escaped curl b value w)
  unfolding add_escaped add_value
  add_escaped-Left {s} {b} value w g h small = elim (Option-cases (curl.escape value)) [
    | inl failed ↦
        rw (easy_escape-none curl value w failed, failed)
          (concat_str-Left value w g h (rw failed at small))
    | inr (e, made) ↦
        rw (easy_escape-some curl value e w made, made)
          (Left-bind (λ b'. free >> pure b')
            (concat_str-Left e (at_live w (suc w.live)) g h (rw made at small))
            λ b' h'.
              rw (free_lem w.live (at_live w (suc w.live)) refl)
                (returns (record { holds = h'; same_world = refl })))
  ]

  add_pair-Left :
      {s : Bytes} {b : Vmebuf} (p : Param) (w : World)
      → Granting w
      → Holds s b
      → IsSmall (length s + length (pair p))
      → Returns (Left (s ++ pair p) w) (add_pair curl b p w)
  unfolding add_pair
  add_pair-Left {s} p w g h small =
      let v = escaped (curl.escape p.value) p.value in
      let n = length-append p.key (b'=' ∷ v) in
      let m = length-append s p.key in
      regroup (simp append_assoc) (
        Left-bind _ (concat_str-Left p.key w g h (omega arith)) λ b' h'.
          Left-bind _ (push_small-Left b'=' w g h' (omega arith)) λ b'' h''.
            add_escaped-Left p.value w g h''
              (omega (arith, length-append (s ++ p.key) (b'=' ∷ []))))

  add_params-Left :
      (ps : List Param) (w : World) {s : Bytes} {b : Vmebuf}
      → Granting w
      → Holds s b
      → IsSmall (length s + length (pairs ps))
      → Returns (Left (s ++ pairs ps) w) (add_params curl b ps w)
  unfolding add_params add_separator
  add_params-Left [] w g h small = returns (record { holds = rw append-nil h; same_world = refl })
  add_params-Left (p ∷ []) w g h small =
      Left-bind _ (add_pair-Left p w g h small)
        λ b' h'. returns (record { holds = h'; same_world = refl })
  add_params-Left (p ∷ q ∷ ps) w {s} g h small =
      let n = length-append (pair p) (b';' ∷ pairs (q ∷ ps)) in
      let m = length-append s (pair p) in
      regroup (simp append_assoc) (
        Left-bind _ (add_pair-Left p w g h (omega arith)) λ b' h'.
          Left-bind _ (add_separator-Left q ps w g h' (omega arith)) λ b'' h''.
            add_params-Left (q ∷ ps) w g h''
              (omega (arith, length-append (s ++ pair p) (b';' ∷ []))))

  abbrev mark : List Param → Bytes
  mark [] = []
  mark (p ∷ ps) = b'?' ∷ []

  query_split : (ps : List Param) → query ps ≡ mark ps ++ pairs ps
  query_split [] = refl
  query_split (p ∷ ps) = refl

  begin_query-Left :
      {s : Bytes} {b : Vmebuf} (ps : List Param) (w : World)
      → Granting w
      → Holds s b
      → IsSmall (length s)
      → Returns (Left (s ++ mark ps) w) (begin_query b ps w)
  unfolding begin_query
  begin_query-Left [] w g h small = returns (record { holds = rw append-nil h; same_world = refl })
  begin_query-Left (p ∷ ps) w g h small = push_small-Left b'?' w g h small

  -- the buffer becomes the string that is returned
  finish_url :
      {s : Bytes} {b : Vmebuf} (w : World)
      → Granting w
      → Holds s b
      → (tostr b >>= λ url. dealloc b >>= λ _. pure url) (at_live w (suc (suc w.live)))
        ≡ ok (string_block s) (at_live w (suc w.live))
  finish_url {b} w g h = rw (
    tostr_lem (at_live w (suc (suc w.live))) g h,
    dealloc_lem (suc w.live) (at_live w (suc (suc (suc w.live)))) h.is_buf refl,
  )

  -- If every allocation is granted and twice the URL's length and 64 is below 2 ^ 64, create_url
  -- returns the block of the server's URL, the resource's path, and the parameters behind a
  -- question mark, key=value with the value escaped where libcurl can, separated by semicolons,
  -- and leaves just that block allocated.
  pub create_url_lem :
      (server_url rs_uri : Bytes) (params : List Param) (w : World)
      → Granting w
      → IsSmall (length (url_text server_url rs_uri params))
      → create_url curl server_url rs_uri params w
        ≡ ok (string_block (url_text server_url rs_uri params)) (at_live w (suc w.live))
  unfolding create_url
  create_url_lem server_url rs_uri params w g small =
      let w₂ = at_live w (suc (suc w.live)) in
      let n = length-append server_url (rs_uri ++ query params) in
      let m = length-append rs_uri (query params) in
      let k = length-append (mark params) (pairs params) in
      let q = ap length (query_split params) in
      eq_of_Returns (
        Allocated-bind _
          (ensure_size-Allocated (add_size (length server_url + length rs_uri) 1) w g (omega arith))
          λ b h. Left-bind _ (concat_str-Left server_url w₂ g h (omega arith)) λ b₁ h₁.
            Left-bind _ (concat_str-Left rs_uri w₂ g h₁ (omega arith)) λ b₂ h₂.
              Left-bind _
                (begin_query-Left params w₂ g h₂ (omega (arith, length-append server_url rs_uri)))
                λ b₃ h₃.
                  Left-bind _
                    (add_params-Left params w₂ g h₃ (
                      omega (
                        arith,
                        length-append server_url rs_uri,
                        length-append (server_url ++ rs_uri) (mark params),
                      )))
                    λ b₄ h₄.
                      rw (finish_url w g h₄)
                        (returns (just (rw (query_split params) (simp append_assoc)) refl)))

-- If the allocation is granted, create_auth_hdr returns the C string of the header's key and the
-- token in one block that has room for it.
pub create_auth_hdr_lem :
    (token : Bytes) (w : World)
    → Granting w
    → create_auth_hdr token w ≡ ok (string_block (auth_hdr_key ++ token)) (at_live w (suc w.live))
unfolding create_auth_hdr
create_auth_hdr_lem token w g =
    let n = length token in
    rw (
      allocate_granted w g,
      le→leb 23 (n + 23 + 1) (omega arith),
      le→leb (22 + n + 1) (n + 23 + 1) (omega arith),
      append_assoc,
    )
