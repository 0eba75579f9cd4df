-- ===== src/Resource/Path.antt =====
-- What `build_rsuri` of src/vme/utils.c returns.
use vantiq_sdk_micro.Base.{
  ◌^◌, ℕ, suc, ◌+◌, ◌-◌, ◌≤◌, ◌<◌, ◌≡◌, ◌%◌, true, false, ◌&&◌, ◌||◌, Option, none, some, List, [],
  ◌∷◌, ◌++◌, append_assoc, append-nil, Bytes, codes, arith, ltb, lt→ltb, le→leb, is_some, size_mod,
  length, take_all, length-append, ends_in, ends_in-append,
}
use vantiq_sdk_micro.Memory.{World, ok, aborted, Granting, allocate_granted}
use vantiq_sdk_micro.Number.{decimal}
use vantiq_sdk_micro.Number.RoundTrip.{length-decimal}
use vantiq_sdk_micro.Resource.{text_of, rsuri_size, rsuri_head, rsuri_text, build_rsuri}

-- A path is its segments, each behind a slash.
abbrev pub joined : List Bytes → Bytes
joined [] = []
joined (s ∷ ss) = b'/' ∷ (s ++ joined ss)

-- what is named below the namespace
abbrev pub parts : Option Bytes → Option Bytes → List Bytes
parts none none = []
parts none (some id) = id ∷ []
parts (some name) none = name ∷ []
parts (some name) (some id) = name ∷ id ∷ []

-- The path of a resource: `/api/v<version>/resources/<namespace>/…`.
abbrev pub resource_path : ℕ → Bytes → List Bytes → Bytes
resource_path vers ns ps = codes "/api/v" ++ (decimal vers ++ joined (codes "resources" ∷ ns ∷ ps))

rsuri_text-resource_path :
    (vers : ℕ) (ns : Bytes) (name id : Option Bytes)
    → (is_some name || is_some id) ≡ true
    → rsuri_text vers ns name id ≡ resource_path vers ns (parts name id)
unfolding rsuri_text
rsuri_text-resource_path vers ns none none h = absurd (ground arith)
rsuri_text-resource_path vers ns none (some id) h = simp (append_assoc, append-nil)
rsuri_text-resource_path vers ns (some name) none h = simp (append_assoc, append-nil)
rsuri_text-resource_path vers ns (some name) (some id) h = simp (append_assoc, append-nil)

length-rsuri_head :
    (vers : ℕ) (ns t : Bytes)
    → vers < 1000
    → length (rsuri_head vers ns ++ t) ≤ 20 + length ns + length t
length-rsuri_head vers ns t h = omega (
  arith,
  length-decimal vers 2 h,
  length-append (rsuri_head vers ns) t,
  length-append (decimal vers) (codes "/resources/" ++ ns),
  length-append (codes "/resources/") ns,
)

-- The block has room for the text and its terminator, so nothing is cut off.
rsuri_text-fits :
    (vers : ℕ) (ns : Bytes) (name id : Option Bytes)
    → vers < 1000
    → length (rsuri_text vers ns name id) < rsuri_size ns name id
unfolding rsuri_text
rsuri_text-fits vers ns none none h = omega (arith, length-rsuri_head vers ns (b'/' ∷ []) h)
rsuri_text-fits vers ns none (some []) h = omega (arith, length-rsuri_head vers ns (b'/' ∷ []) h)
rsuri_text-fits vers ns none (some (c ∷ s)) h =
    omega (arith, length-rsuri_head vers ns (b'/' ∷ c ∷ s) h)
rsuri_text-fits vers ns (some []) none h = omega (arith, length-rsuri_head vers ns (b'/' ∷ []) h)
rsuri_text-fits vers ns (some (c ∷ s)) none h =
    omega (arith, length-rsuri_head vers ns (b'/' ∷ c ∷ s) h)
rsuri_text-fits vers ns (some []) (some []) h =
    omega (arith, length-rsuri_head vers ns (b'/' ∷ b'/' ∷ []) h)
rsuri_text-fits vers ns (some []) (some (c ∷ s)) h =
    omega (arith, length-rsuri_head vers ns (b'/' ∷ b'/' ∷ c ∷ s) h)
rsuri_text-fits vers ns (some (c ∷ s)) (some []) h =
    omega (
      arith,
      length-rsuri_head vers ns (b'/' ∷ c ∷ (s ++ b'/' ∷ [])) h,
      length-append s (b'/' ∷ []),
    )
rsuri_text-fits vers ns (some (c ∷ s)) (some (d ∷ t)) h = omega (
  arith,
  length-rsuri_head vers ns (b'/' ∷ c ∷ (s ++ b'/' ∷ d ∷ t)) h,
  length-append s (b'/' ∷ d ∷ t),
)

-- If the allocation is granted, the version is below 1000, a name or an id is given and the size
-- is below 2 ^ 31, build_rsuri returns the path /api/v<version>/resources/<namespace> with the
-- name and the id that are given behind it, not cut off, in one new block.
pub build_rsuri_lem :
    (vers : ℕ) (ns : Bytes) (name id : Option Bytes) (w : World)
    → Granting w
    → vers < 1000
    → (is_some name || is_some id) ≡ true
    → rsuri_size ns name id < 2 ^ 31
    → build_rsuri vers (some ns) name id w
      ≡ ok (resource_path vers ns (parts name id)) (record w { live = suc w.live })
unfolding build_rsuri
build_rsuri_lem vers ns name id w g v some_part fits =
    let size = rsuri_size ns name id in
    let text = rsuri_text vers ns name id in
    let no_wrap : size % size_mod ≡ size = omega arith in
    let room = rsuri_text-fits vers ns name id v in
    rw (
      lt→ltb vers 1000 v,
      some_part,
      allocate_granted w g,
      no_wrap,
      lt→ltb (length text) (2 ^ 31) (omega arith),
      le→leb (length text) size (omega arith),
      take_all (size - 1) text (omega arith),
      rsuri_text-resource_path vers ns name id some_part,
    )

-- Anything else stops at an assertion.
pub build_rsuri-aborted :
    (vers : ℕ) (ns name id : Option Bytes) (w : World)
    → (ltb vers 1000 && is_some ns && (is_some name || is_some id)) ≡ false
    → build_rsuri vers ns name id w ≡ aborted
unfolding build_rsuri
build_rsuri-aborted vers ns name id w h = ground arith

abbrev pub last_part : Option Bytes → Option Bytes → Bytes
last_part none id = text_of id
last_part (some name) none = name
last_part (some name) (some id) = id

joined_split : (ps : List Bytes) (p : Bytes) → (s : Bytes) × (joined (ps ++ p ∷ []) ≡ s ++ b'/' ∷ p)
joined_split [] p = ([], rw append-nil)
joined_split (x ∷ ps) p = let (s, e) = joined_split ps p in (b'/' ∷ (x ++ s), rw (e, append_assoc))

resource_path-ends_in :
    (vers : ℕ) (ns : Bytes) (ps : List Bytes) (p : Bytes)
    → ends_in b'/' (resource_path vers ns (ps ++ p ∷ [])) ≡ ends_in b'/' (b'/' ∷ p)
resource_path-ends_in vers ns ps p =
    let (s, e) = joined_split (codes "resources" ∷ ns ∷ ps) p in
    rw (e, ← append_assoc (decimal vers) s (b'/' ∷ p))
      (ends_in-append b'/' (codes "/api/v" ++ (decimal vers ++ s)) b'/' p)

parts-last_part :
    (vers : ℕ) (ns : Bytes) (name id : Option Bytes)
    → (is_some name || is_some id) ≡ true
    → ends_in b'/' (resource_path vers ns (parts name id)) ≡ ends_in b'/' (b'/' ∷ last_part name id)
parts-last_part vers ns none none h = absurd (ground arith)
parts-last_part vers ns none (some id) h = resource_path-ends_in vers ns [] id
parts-last_part vers ns (some name) none h = resource_path-ends_in vers ns [] name
parts-last_part vers ns (some name) (some id) h = resource_path-ends_in vers ns (name ∷ []) id

-- If the allocation is granted, the version is below 1000, a name or an id is given and the size
-- is below 2 ^ 31, the path of build_rsuri ends in a slash exactly if its last part is empty or
-- ends in one: an empty id behind a name leaves a trailing slash.
pub build_rsuri-ends_in :
    (vers : ℕ) (ns : Bytes) (name id : Option Bytes) (w : World)
    → Granting w
    → vers < 1000
    → (is_some name || is_some id) ≡ true
    → rsuri_size ns name id < 2 ^ 31
    → (path : Bytes) × (build_rsuri vers (some ns) name id w
        ≡ ok path (record w { live = suc w.live }))
      × (ends_in b'/' path ≡ ends_in b'/' (b'/' ∷ last_part name id))
build_rsuri-ends_in vers ns name id w g v some_part fits = (
  resource_path vers ns (parts name id),
  build_rsuri_lem vers ns name id w g v some_part fits,
  parts-last_part vers ns name id some_part,
)
