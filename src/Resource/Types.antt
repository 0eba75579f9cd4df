-- ===== src/Resource/Types.antt =====
-- The tables of src/vme/utils.c and src/vme/vme.h agree.
use vantiq_sdk_micro.Base.{◌≡◌, refl, some, Bytes, codes, get_elem?}
use vantiq_sdk_micro.Memory.{World, ok}
use vantiq_sdk_micro.Resource.{
  RsType, users, topics, procedures, index, system_types, text_of, is_sys_type, mapto_rsname,
}

abbrev name_of : RsType → Bytes
unfolding index system_types
name_of t = text_of (get_elem? system_types (index t))

-- Every constant of the enumeration of system types has a name, and is_sys_type finds the
-- constant's number by that name.
pub is_sys_type-mapto_rsname :
    (t : RsType) (w : World)
    → (name : Bytes) × (mapto_rsname (index t) w ≡ ok name w)
      × (is_sys_type (some name) ≡ some (index t))
unfolding mapto_rsname is_sys_type index
is_sys_type-mapto_rsname users w = (name_of users, refl, refl)
is_sys_type-mapto_rsname t w = (name_of t, refl, refl)

pub mapto_rsname-topics : (w : World) → mapto_rsname (index topics) w ≡ ok (codes "topics") w
unfolding mapto_rsname index
mapto_rsname-topics w = refl

pub mapto_rsname-procedures :
    (w : World) → mapto_rsname (index procedures) w ≡ ok (codes "procedures") w
unfolding mapto_rsname index
mapto_rsname-procedures w = refl
