-- ===== src/Api/Query/Params.antt =====
-- The parameters of the selects of src/vme/vme.c: which are given to the server, and in which order.
use vantiq_sdk_micro.Base.{
  ◌+◌, ◌*◌, ◌^◌, ◌<◌, ◌≡◌, refl, ap, ◌∙◌, inl, inr, Bool-cases, Option, none, some, List, [], ◌∷◌,
  Bytes, codes, ℤ, pos_part, arith, length, ltb, lt→ltb, if◌then◌else◌,
}
use vantiq_sdk_micro.Memory.{World, at_live, ok, Granting}
use vantiq_sdk_micro.Number.{decimal}
use vantiq_sdk_micro.Number.RoundTrip.{length-decimal}
use vantiq_sdk_micro.Client.Params.{Param, param, build_param, build_param_lem}
use vantiq_sdk_micro.Api.Query.{add_given, add_positive, build_select_params}

-- The list behind a text that may be missing, and behind a number that may not be above 0.
abbrev pub given : (key : Bytes) → Option Bytes → List Param → List Param
given key none ps = ps
given key (some value) ps = param key value ∷ ps

abbrev pub positive : (key : Bytes) → ℤ → List Param → List Param
positive key n ps = if ltb 0 (pos_part n) then param key (decimal (pos_part n)) ∷ ps else ps

-- Each new parameter is put in front, so the list is the reverse of the call's order.
abbrev pub select_params :
    (prop_specs where' sort_spec : Option Bytes) → (page limit : ℤ) → List Param
select_params prop_specs where' sort_spec page limit = positive (codes "limit") limit (
    positive (codes "page") page (
      given (codes "sort") sort_spec
        (given (codes "where") where' (given (codes "props") prop_specs []))))

-- Not above what an `int` of 32 bits holds.
abbrev pub IsInt : ℤ → Type 0
IsInt n = pos_part n < 2 ^ 31

module _ (w : World) (g : Granting w) where
  -- The world with the blocks of a list on top of those of `w`.
  abbrev pub behind : List Param → World
  behind ps = at_live w (3 * length ps + w.live)

  pub build_param-behind :
      (ps : List Param) (key value : Bytes)
      → build_param ps key value (behind ps)
        ≡ ok (param key value ∷ ps) (behind (param key value ∷ ps))
  build_param-behind ps key value =
      build_param_lem ps key value (behind ps) g
      ∙ ap (λ n. ok (param key value ∷ ps) (at_live w n)) (omega arith)

  add_given_lem :
      (ps : List Param) (key : Bytes) (o : Option Bytes)
      → add_given ps key o (behind ps) ≡ ok (given key o ps) (behind (given key o ps))
  unfolding add_given
  add_given_lem ps key none = refl
  add_given_lem ps key (some value) = build_param-behind ps key value

  add_positive_lem :
      (ps : List Param) (key : Bytes) (n : ℤ)
      → IsInt n
      → add_positive ps key n (behind ps) ≡ ok (positive key n ps) (behind (positive key n ps))
  unfolding add_positive
  add_positive_lem ps key n fits = elim (Bool-cases (ltb 0 (pos_part n))) [
    | inl above ↦
        rw
          (
            above,
            lt→ltb (length (decimal (pos_part n))) 32
                (omega (arith, length-decimal (pos_part n) 9 (omega (arith, fits)))),
          )
          (build_param-behind ps key (decimal (pos_part n)))
    | inr below ↦ rw below refl
  ]

  -- If every allocation is granted and page and limit have 32 bits, build_select_params returns
  -- the parameters limit, page, sort, where and props in that order, those left out that are
  -- NULL or not above 0, with three blocks for each, and prints both numbers inside their
  -- buffers.
  pub build_select_params_lem :
      (prop_specs where' sort_spec : Option Bytes) (page limit : ℤ)
      → IsInt page
      → IsInt limit
      → let ps = select_params prop_specs where' sort_spec page limit in
        build_select_params prop_specs where' sort_spec page limit w
        ≡ ok ps (at_live w (3 * length ps + w.live))
  unfolding build_select_params
  build_select_params_lem prop_specs where' sort_spec page limit p l =
      let p₁ = given (codes "props") prop_specs [] in
      let p₂ = given (codes "where") where' p₁ in
      let p₃ = given (codes "sort") sort_spec p₂ in
      let p₄ = positive (codes "page") page p₃ in
      let start : w ≡ behind [] = ap (at_live w) (omega arith) in
      ap (build_select_params prop_specs where' sort_spec page limit) start
      ∙ rw
          (
            add_given_lem [] (codes "props") prop_specs,
            add_given_lem p₁ (codes "where") where',
            add_given_lem p₂ (codes "sort") sort_spec,
            add_positive_lem p₃ (codes "page") page p,
          )
          (add_positive_lem p₄ (codes "limit") limit l)
