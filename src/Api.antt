-- ===== src/Api.antt =====
-- src/vme/vme.c: the entry points that src/vme/vme.h declares. Each takes the handle and returns
-- it, with what it leads to, beside the result. A text that may be NULL is an `Option Bytes`.
pub mod Query
pub mod Modify
pub mod Invoke
pub mod Guard
pub mod Lifetime
pub mod Calls
use vantiq_sdk_micro.Base.{
  ℕ, suc, ◌+◌, Bool, true, false, Option, none, some, List, [], ◌∷◌, ◌++◌, Bytes, codes, ℤ, pos,
  pos_part, length, ltb, leb, ◌==◌, if◌then◌else◌, snprintf, c_str, get_elem?,
}
use vantiq_sdk_micro.Memory.{M, pure, fault, ◌>>=◌, ◌>>◌, in_bounds, allocate, free}
use vantiq_sdk_micro.Buf.{Vmebuf, ensure_size, concat, dealloc}
use vantiq_sdk_micro.Number.{decimal}
use vantiq_sdk_micro.Resource.{index, topics, procedures, custom, mapto_rsname, build_rsuri}
use vantiq_sdk_micro.Curl.{Curl}
use vantiq_sdk_micro.Client.{Client, Callback, Handle, vc_from_vme}
use vantiq_sdk_micro.Client.Params.{Param, build_param, free_params}
use vantiq_sdk_micro.Client.Url.{strcpy_at}
use vantiq_sdk_micro.Client.Transfer.{VmeResult, no_result, strdup}
use vantiq_sdk_micro.Client.Request.{
  vc_get, vc_delete, vc_post, vc_put, vc_patch, vc_aggregate, vc_execute, vc_query,
}
use vantiq_sdk_micro.Client.Session.{vc_init, vc_teardown, last_char}

pub vme_init : Curl → (server_url token : Bytes) → (api_version : ℕ) → M Handle
vme_init = vc_init

teardown_client : Handle → M (Unit {0})
teardown_client none = pure tt
teardown_client (some c) = vc_teardown c

pub vme_teardown : Handle → M (Unit {0})
unfolding teardown_client
vme_teardown vme = teardown_client (vc_from_vme vme)

pub vme_error_result : Bytes → M VmeResult
vme_error_result msg = do allocate; m ← strdup msg; pure (record no_result { error_msg = some m })

abbrev pub invalid_handle : Bytes
invalid_handle = codes "invalid VME handle"

-- The guard of the entry points: on the client behind the handle, or an error result.
on_client : Handle → Handle → (Client → M (VmeResult × Client)) → M (VmeResult × Handle)
on_client vme none f = do r ← vme_error_result invalid_handle; pure (r, vme)
on_client vme (some c) f = do (r, c) ← f c; pure (r, some c)

guard_on : Handle → Handle → M (VmeResult × Handle) → M (VmeResult × Handle)
guard_on vme none body = do r ← vme_error_result invalid_handle; pure (r, vme)
guard_on vme (some _) body = body

-- The same guard where the body calls other entry points with the handle.
pub guarded : Handle → M (VmeResult × Handle) → M (VmeResult × Handle)
unfolding guard_on
guarded vme body = guard_on vme (vc_from_vme vme) body

pub with_client : Handle → (Client → M (VmeResult × Client)) → M (VmeResult × Handle)
unfolding on_client
with_client vme = on_client vme (vc_from_vme vme)

set_callback_state : Handle → Handle → ℕ → Handle
set_callback_state vme none state = vme
set_callback_state vme (some c) state = some (record c { callback_state = state })

-- Silent on an invalid handle.
pub vme_callback_state : Handle → (state : ℕ) → M Handle
unfolding set_callback_state
vme_callback_state vme state = pure (set_callback_state vme (vc_from_vme vme) state)

-- `vme_free_result`
free_block : Option Bytes → M (Unit {0})
free_block none = pure tt
free_block (some _) = free

pub vme_free_result : Option VmeResult → M (Unit {0})
unfolding free_block
vme_free_result none = pure tt
vme_free_result (some r) = do free_block r.json_data; free_block r.error_msg; free
