-- ===== src/Client/Params.antt =====
-- `build_param` and `free_params` of src/vme/vantiq_client.c. A list of parameters is three blocks
-- for each of its nodes: the node, its key and its value.
use vantiq_sdk_micro.Base.{ℕ, suc, ◌+◌, ◌*◌, ◌≡◌, refl, List, [], ◌∷◌, Bytes, arith, length}
use vantiq_sdk_micro.Memory.{
  World, at_live, M, ok, pure, ◌>>◌, Granting, allocate, allocate_granted, free, free_lem,
}

-- `struct param` without its `next`, which is the rest of the list. Both texts are C strings.
pub record Param : Type 0 where
  pub key : Bytes
  pub value : Bytes

abbrev pub param : Bytes → Bytes → Param
param k v = record { key = k; value = v }

-- `malloc`, and `strdup` twice.
pub build_param : List Param → Bytes → Bytes → M (List Param)
build_param head key value = do allocate; allocate; allocate; pure (param key value ∷ head)

pub free_params : List Param → M (Unit {0})
free_params [] = pure tt
free_params (p ∷ ps) = do free; free; free; free_params ps

pub build_param_lem :
    (head : List Param) (key value : Bytes) (w : World)
    → Granting w
    → build_param head key value w ≡ ok (param key value ∷ head) (at_live w (w.live + 3))
unfolding build_param
build_param_lem head key value w g =
    let n = w.live in
    ground (
      arith,
      allocate_granted w g,
      allocate_granted (at_live w (suc n)) g,
      allocate_granted (at_live w (suc (suc n))) g,
    )

-- `free_params` gives back exactly the blocks of the list.
pub free_params_lem :
    (ps : List Param) (n : ℕ) (w : World)
    → w.live ≡ 3 * length ps + n
    → free_params ps w ≡ ok tt (at_live w n)
unfolding free_params
free_params_lem [] n w e = ground arith
free_params_lem (p ∷ ps) n w e =
    let m = 3 * length ps + n in
    rw
      (
        free_lem (suc (suc m)) w (omega arith),
        free_lem (suc m) (at_live w (suc (suc m))) refl,
        free_lem m (at_live w (suc m)) refl,
      )
      (free_params_lem ps n (at_live w m) refl)
