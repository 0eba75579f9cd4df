-- ===== src/Buf/Safety.antt =====
-- src/vme/buf.c under an allocator that may refuse: nothing is appended outside the block.
use vantiq_sdk_micro.Base.{
  ℕ, ◌+◌, ◌/◌, ◌≤◌, ◌<◌, ◌≡◌, refl, ap, ◌∙◌, false, inl, inr, Bool-cases, some, List, [], ◌∷◌, ◌++◌,
  Bytes, arith, add_size, length, take, ltb, leb, ◌&&◌,
}
use vantiq_sdk_micro.Memory.{World, M, pure, ◌>>=◌, ◌>>◌, assert}
use vantiq_sdk_micro.Memory.Safe.{
  Safe, safe, assert-Safe, Returns-Safe, bind-Safe, mono-Safe, Rationed, Resized,
  realloc_or_abort-Safe,
}
use vantiq_sdk_micro.Buf.{
  Vmebuf, min_buf_size, lrg_buf_size, sml_buf_size, at_least_min, resize, ensure_size, push, concat,
  truncate,
}
use vantiq_sdk_micro.Buf.Growth.{
  IsBuf-cells, Holds, moved, moved-Grown, length-contents, at_least_min_bounds,
}
use vantiq_sdk_micro.Buf.Contents.{Grown-Holds, Filled, put-Filled, copy_in-Filled}

-- The buffer holds `s` with room for `n` bytes, and nothing else has changed.
pub record Roomy (s : Bytes) (len n : ℕ) (w : World) (b : Vmebuf) (u : World) : Type 0 where
  pub holds : Holds s b
  pub same_len : b.len ≡ len
  pub room : n ≤ b.limit
  pub below : b.limit < lrg_buf_size
  pub rationed : Rationed w u

module _ {s : Bytes} {b : Vmebuf} (n : ℕ) (w : World) (h : Holds s b) where
  moved-Roomy :
      (c : Bytes) {cells : Bytes} {u : World}
      → b.cells ≡ some c
      → min_buf_size ≤ n
      → b.len ≤ n
      → n < lrg_buf_size
      → Resized c n w cells u
      → Roomy s b.len n w (moved b cells n) u
  moved-Roomy c {cells} {u} e least len fits (same, rationed) =
      let m = moved-Grown n w c h.is_buf e least len (omega arith) in
      rw same (record {
        holds = Grown-Holds m h;
        same_len = refl;
        room = omega arith;
        below = fits;
        rationed = rationed;
      })

  resize-Safe :
      b.limit < lrg_buf_size
      → min_buf_size ≤ n
      → b.len ≤ n
      → n < lrg_buf_size
      → Safe (Roomy s b.len n w) (resize b n w)
  unfolding resize
  resize-Safe below least len fits =
      let (c, e) = IsBuf-cells h.is_buf in
      let kept : (leb n sml_buf_size && leb lrg_buf_size b.limit) ≡ false = ground arith in
      elim (Bool-cases (ltb b.limit n)) [
        | inl larger ↦
            rw (larger, e)
              (bind-Safe (realloc_or_abort-Safe c n w)
                λ cells u q. safe (moved-Roomy c e least len fits q))
        | inr enough ↦
            rw (enough, kept)
              (safe (record {
                holds = h;
                same_len = refl;
                room = ground arith;
                below = below;
                rationed = (w.ration, refl);
              }))
      ]

pub ensure_size-Safe :
    {s : Bytes} {b : Vmebuf} (n : ℕ) (w : World)
    → Holds s b
    → b.limit < lrg_buf_size
    → b.len ≤ at_least_min n
    → n < lrg_buf_size
    → Safe (Roomy s b.len (at_least_min n) w) (ensure_size (some b) n w)
unfolding ensure_size
ensure_size-Safe n w h below len fits =
    resize-Safe (at_least_min n) w h below (at_least_min_bounds n).1 len (ground arith)

-- The buffer holds `s` in less than 1 MB, and nothing has changed but what the allocator still grants.
pub record Kept (s : Bytes) (w : World) (b : Vmebuf) (u : World) : Type 0 where
  pub holds : Holds s b
  pub below : b.limit < lrg_buf_size
  pub rationed : Rationed w u

Filled-Kept :
    {s : Bytes} {b : Vmebuf} {limit : ℕ} {w u v : World}
    → limit < lrg_buf_size
    → Rationed w u
    → Filled s limit u b v
    → Safe (Kept s w) ((assert (leb b.len b.limit) >> pure b) v)
Filled-Kept {b} {v} below r q = assert-Safe (leb b.len b.limit) v _ (
    safe (record {
      holds = q.holds;
      below = omega (arith, q.same_limit);
      rationed = (r.0, q.same_world ∙ r.1);
    }))

pub push-Safe :
    {s : Bytes} {b : Vmebuf} (c : ℕ) (w : World)
    → Holds s b
    → b.limit < lrg_buf_size
    → b.len + min_buf_size < lrg_buf_size
    → Safe (Kept (s ++ c ∷ []) w) (push b c w)
unfolding push
push-Safe {s} {b} c w h below fits =
    let no_wrap : add_size b.len min_buf_size ≡ b.len + min_buf_size = omega arith in
    rw no_wrap (
      bind-Safe (ensure_size-Safe (b.len + min_buf_size) w h below (ground arith) fits) λ r u q.
        bind-Safe
          (Returns-Safe (
            put-Filled c u q.holds
              (omega (arith, at_least_min_bounds (b.len + min_buf_size), q.room, q.same_len))))
          λ r' v f. Filled-Kept q.below q.rationed f)

pub concat-Safe :
    {s : Bytes} {b : Vmebuf} (src : Bytes) (n : ℕ) (w : World)
    → Holds s b
    → b.limit < lrg_buf_size
    → n ≤ length src
    → b.len + n + n / 2 < lrg_buf_size
    → Safe (Kept (s ++ take n src) w) (concat b src n w)
unfolding concat
concat-Safe {s} {b} src n w h below k fits =
    let no_wrap : add_size (add_size b.len n) (n / 2) ≡ b.len + n + n / 2 = omega arith in
    rw no_wrap (
      bind-Safe (ensure_size-Safe (b.len + n + n / 2) w h below (ground arith) fits) λ r u q.
        bind-Safe
          (Returns-Safe (
            copy_in-Filled src n u q.holds k
              (omega (arith, at_least_min_bounds (b.len + n + n / 2), q.room, q.same_len))))
          λ r' v f. Filled-Kept q.below q.rationed f)

-- A change of a buffer: one of the three functions with its arguments.
pub data Edit : Type 0 where
  pushed : ℕ → Edit
  concatenated : (src : Bytes) → (n : ℕ) → Edit
  truncated : Edit

abbrev pub edit : Edit → Vmebuf → M Vmebuf
edit (pushed c) b = push b c
edit (concatenated src n) b = concat b src n
edit truncated b = truncate b

abbrev pub edits : List Edit → Vmebuf → M Vmebuf
edits [] b = pure b
edits (e ∷ es) b = do b ← edit e b; edits es b

-- What it makes of the bytes of the buffer.
abbrev pub edited : Edit → Bytes → Bytes
edited (pushed c) s = s ++ c ∷ []
edited (concatenated src n) s = s ++ take n src
edited truncated s = []

abbrev pub all_edited : List Edit → Bytes → Bytes
all_edited [] s = s
all_edited (e ∷ es) s = all_edited es (edited e s)

-- The source has its bytes, and the size asked for is below 1 MB.
abbrev pub Fits : Edit → Bytes → Type 0
Fits (pushed c) s = length s + min_buf_size < lrg_buf_size
Fits (concatenated src n) s = (n ≤ length src) × (length s + n + n / 2 < lrg_buf_size)
Fits truncated s = Unit

abbrev pub AllFit : List Edit → Bytes → Type 0
AllFit [] s = Unit
AllFit (e ∷ es) s = Fits e s × AllFit es (edited e s)

truncate-Holds : {s : Bytes} {b : Vmebuf} → Holds s b → Holds [] (record b { len = 0 })
truncate-Holds h = record {
  is_buf = record {
    sized = h.is_buf.sized;
    within = omega arith;
    least = h.is_buf.least;
    fits = h.is_buf.fits;
  };
  bytes = refl;
}

Rationed-Rationed : (w : World) {u v : World} → Rationed w u → Rationed u v → Rationed w v
Rationed-Rationed w (q, e) (r, f) = (r, f ∙ ap (λ (x : World). record x { ration = r }) e)

edit-Safe :
    {s : Bytes} {b : Vmebuf} (e : Edit) (w : World)
    → Holds s b
    → b.limit < lrg_buf_size
    → Fits e s
    → Safe (Kept (edited e s) w) (edit e b w)
edit-Safe {s} {b} (pushed c) w h below fits =
    push-Safe c w h below (omega (arith, length-contents h.is_buf, ap length h.bytes))
edit-Safe {s} {b} (concatenated src n) w h below (inside, fits) =
    concat-Safe src n w h below inside (omega (arith, length-contents h.is_buf, ap length h.bytes))
edit-Safe {s} {b} truncated w h below fits =
    safe (record { holds = truncate-Holds h; below = below; rationed = (w.ration, refl) })

-- Whatever the allocator does, any sequence of vmebuf_push, vmebuf_concat and vmebuf_truncate on
-- a well-formed buffer neither reads or writes outside its memory nor goes on with memory that
-- was refused: it is stopped by an assertion, or the buffer is well-formed and holds just the
-- bytes that were put in since the last truncation, and nothing else has changed; provided that
-- each source has its bytes, and that the block and each size asked for stay below 1 MB, from
-- where on a shrink is not checked.
pub edits-Safe :
    {s : Bytes} {b : Vmebuf} (es : List Edit) (w : World)
    → Holds s b
    → b.limit < lrg_buf_size
    → AllFit es s
    → Safe (Kept (all_edited es s) w) (edits es b w)
edits-Safe [] w h below fits =
    safe (record { holds = h; below = below; rationed = (w.ration, refl) })
edits-Safe (e ∷ es) w h below (first, rest) = bind-Safe (edit-Safe e w h below first) λ b u q.
    mono-Safe (edits-Safe es u q.holds q.below rest) λ b' v r. record {
      holds = r.holds;
      below = r.below;
      rationed = Rationed-Rationed w q.rationed r.rationed;
    }
