-- ===== src/Dpi/Concluded.antt =====
-- What `fetch_discovery_msg` of src/vipo/dpi_client.c makes of the bytes that it has taken.
use mathlib.Core.Path.{subst}
use vantiq_sdk_micro.Base.{
  ℕ, suc, ◌+◌, ◌<◌, ◌≡◌, ◌≢◌, ◌⊎◌, refl, ap, ◌∙◌, sym, true, false, ◌&&◌, inl, inr, Bool-cases,
  and_left, and_right, Option, none, some, [], ◌∷◌, ◌++◌, Bytes, arith, length, take, ◌==◌, eqb→eq,
  eq_bytes→eq, add_size, take-take_le,
}
use vantiq_sdk_micro.Memory.{World, at_live, Granting, cells_of}
use vantiq_sdk_micro.Memory.Returns.{Returns, returns}
use vantiq_sdk_micro.Buf.{Vmebuf}
use vantiq_sdk_micro.Buf.Growth.{IsBuf-cells, Holds}
use vantiq_sdk_micro.Dpi.{prot_eot, is_eot, conclude}
use vantiq_sdk_micro.Dpi.Fetch.{acknowledge_lem}
use vantiq_sdk_micro.Dpi.Pieces.{counted, Holds-len, Ended}

-- What is not handed over: nothing at all, or what begins like the end mark.
abbrev pub IsEnd : Bytes → Type 0
IsEnd s = (s ≡ []) ⊎ (take 3 s ≡ prot_eot)

pub data Concluded (s : Bytes) (n : ℕ) (w : World) (r : Option Bytes) (u : World) : Type 0 where
  nothing : IsEnd s → r ≡ none → u ≡ w → Concluded s n w r u
  message : s ≢ [] → r ≡ some (s ++ 0 ∷ []) → u ≡ at_live w (suc n) → Concluded s n w r u

no_bytes : (s : Bytes) → length s ≡ 0 → s ≡ []
no_bytes [] e = refl
no_bytes (c ∷ s) e = absurd (omega arith)

not_empty : (s : Bytes) → (length s == 0) ≡ false → s ≢ []
not_empty [] e = λ f. cc
not_empty (c ∷ s) e = λ f. cc

is_eot-IsEnd :
    {s : Bytes} (b : Vmebuf) (last : Bytes)
    → Holds s (counted b last)
    → is_eot b last ≡ true
    → take 3 s ≡ prot_eot
is_eot-IsEnd {s} b last h e =
    let size = eqb→eq (length last) 3 (and_left (length last == 3) _ e) in
    let cells =
      eq_bytes→eq (take 4 (cells_of b.cells)) (prot_eot ++ 0 ∷ [])
        (and_right (length last == 3) _ e) in
    let here = ap (take 3) (sym h.bytes) in
    here
    ∙ take-take_le 3 (b.len + length last) (cells_of b.cells) (omega arith)
    ∙ sym (take-take_le 3 4 (cells_of b.cells) (omega arith))
    ∙ ap (take 3) cells

conclude-Concluded :
    {s : Bytes} (b : Vmebuf) (last : Bytes) (n : ℕ) (w : World)
    → Granting w
    → Holds s (counted b last)
    → b.len + length last < b.limit
    → w.live ≡ suc (suc n)
    → Returns (Concluded s n w) (conclude true (some last) b w)
unfolding conclude
conclude-Concluded {s} b last n w g h room live =
    let no_wrap : add_size b.len (length last) ≡ b.len + length last =
      omega (arith, h.is_buf.fits) in
    let (c, e) = IsBuf-cells h.is_buf in
    elim (Bool-cases (length last == 0 && b.len == 0)) [
      | inl empty ↦
          let len : length s ≡ 0 = ground (arith, Holds-len h) in
          rw empty (returns (nothing (inl (no_bytes s len)) refl refl))
      | inr some_bytes ↦ elim (Bool-cases (is_eot b last)) [
        | inl mark ↦
            rw (some_bytes, mark) (returns (nothing (inr (is_eot-IsEnd b last h mark)) refl refl))
        | inr other ↦
            let size : (length s == 0) ≡ false = ground (arith, Holds-len h) in
            let any : s ≢ [] = not_empty s size in
            rw (some_bytes, other, no_wrap, acknowledge_lem n w g e h room live)
              (returns (message any refl refl))
      ]
    ]

pub conclude-Ended :
    {s : Bytes} (n : ℕ) (w : World) (r : Option Bytes × Vmebuf) (u : World)
    → Granting w
    → w.live ≡ suc (suc n)
    → Ended s w r u
    → Returns (Concluded s n w) (conclude true r.0 r.1 u)
conclude-Ended {s} n w r u g live q =
    subst (λ v. Returns (Concluded s n w) (conclude true r.0 r.1 v)) (sym q.same_world)
      (rw q.is_last (conclude-Concluded r.1 q.last n w g q.holds q.room live))
