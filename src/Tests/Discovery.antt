-- ===== src/Tests/Discovery.antt =====
-- The discovery client, tried out.
use vantiq_sdk_micro.Base.{
  ◌≡◌, ◌≢◌, refl, true, some, List, [], ◌∷◌, ◌++◌, Bytes, codes, arith, length, is_text→IsText,
  take,
}
use vantiq_sdk_micro.Memory.{fresh, length-fresh, at_live, ok}
use vantiq_sdk_micro.Memory.Returns.{Returns}
use vantiq_sdk_micro.Client.Url.{string_block}
use vantiq_sdk_micro.Dpi.{Socket, closed, ready, piece, prot_eot, fetch_discovery_msg}
use vantiq_sdk_micro.Dpi.Connect.{
  Network, Attempt, no_socket, unreachable, connected, sun_path_size, init_dpi_usock_client,
  init_dpi_inet_client,
}
use vantiq_sdk_micro.Dpi.Connect.Address.{
  padded, left_of, IsFirst, init_dpi_usock_client_bounds, init_dpi_inet_client-IsFirst,
}
use vantiq_sdk_micro.Dpi.End.{fetch_discovery_msg-prot_eot}
use vantiq_sdk_micro.Dpi.Pieces.{NeverFills-less}
use vantiq_sdk_micro.Dpi.Message.{
  acknowledging, Fetched, fetch_discovery_msg-Fetched, fetch_discovery_msg_whole,
  fetch_discovery_msg_joined,
}
use vantiq_sdk_micro.Tests.{start_world}

-- A peer that has a message, behind two addresses that cannot be reached.
abbrev pub device : Bytes
device = codes "device"

abbrev pub peer : Socket
peer = acknowledging ready (piece device closed)

abbrev attempts : List Attempt
attempts = no_socket ∷ unreachable ∷ connected peer ∷ []

abbrev pub network : Network
network = record { unix = some (λ path. some peer); resolve = λ port. some attempts }

fetch_discovery_msg-prot_eot_example :
    Returns
      (λ r u. (r ≡ some (string_block (codes "EOT"))) × (u ≡ at_live start_world 6))
      (fetch_discovery_msg
        (record { activity = ready; inbox = piece (codes "EOT") closed; takes_ack = true })
        start_world)
fetch_discovery_msg-prot_eot_example = fetch_discovery_msg-prot_eot closed start_world refl

init_dpi_usock_client_bounds_example :
    (path : Bytes) × (path ≡ padded 107 (codes "/tmp/s") ++ 0 ∷ [])
    × (length path ≡ sun_path_size)
    × (init_dpi_usock_client network (some (codes "/tmp/s" ++ 0 ∷ 7 ∷ [])) start_world
        ≡ ok (some peer) (record start_world { live = 6; sockets = 1 }))
init_dpi_usock_client_bounds_example =
    init_dpi_usock_client_bounds network (λ path. some peer) b'/' (codes "tmp/s") (7 ∷ [])
      start_world refl refl (is_text→IsText (codes "/tmp/s") refl)

init_dpi_inet_client-IsFirst_example :
    Returns
      (λ o u. IsFirst attempts o × (u ≡ left_of start_world o))
      (init_dpi_inet_client network (codes "3490") start_world)
init_dpi_inet_client-IsFirst_example =
    init_dpi_inet_client-IsFirst network (codes "3490") attempts start_world refl refl

fetch_discovery_msg-Fetched_example :
    Returns (Fetched ready (piece (codes "de") (piece (codes "vice") closed)) start_world) (
      fetch_discovery_msg
        (acknowledging ready (piece (codes "de") (piece (codes "vice") closed)))
        start_world)
fetch_discovery_msg-Fetched_example =
    fetch_discovery_msg-Fetched start_world refl ready
      (piece (codes "de") (piece (codes "vice") closed)) tt (omega arith)

pub device_any : device ≢ []
device_any e = cc

pub device_no_mark : take 3 device ≢ prot_eot
device_no_mark e = ground arith

fetch_discovery_msg_whole_example :
    Returns
      (λ r u. (r ≡ some (string_block device)) × (u ≡ at_live start_world 6))
      (fetch_discovery_msg peer start_world)
fetch_discovery_msg_whole_example =
    fetch_discovery_msg_whole start_world refl device closed device_any device_no_mark (omega arith)
      (NeverFills-less 512 6 (omega arith))

-- A message that fills the first buffer of 512 bytes, and one behind it.
abbrev long : Bytes
long = fresh (λ i. 97) 0 512

long-length : length long ≡ 512
long-length = length-fresh (λ i. 97) 0 512

joined_no_mark : take 3 (long ++ device) ≢ prot_eot
joined_no_mark e = ground arith

fetch_discovery_msg_joined_example :
    Returns
      (λ r u. (r ≡ some ((long ++ device) ++ 0 ∷ [])) × (u ≡ at_live start_world 6))
      (fetch_discovery_msg (acknowledging ready (piece long (piece device closed))) start_world)
fetch_discovery_msg_joined_example =
    fetch_discovery_msg_joined start_world refl long device closed long-length joined_no_mark
      (omega arith) (NeverFills-less 1024 518 (omega arith))
