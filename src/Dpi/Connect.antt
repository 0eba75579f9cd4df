-- ===== src/Dpi/Connect.antt =====
-- How src/vipo/dpi_client.c opens its socket: `init_dpi_usock_client` and `init_dpi_inet_client`. What
-- the network does is a parameter. The struct is a block whose one field is the socket, so a pointer to
-- it is an `Option Socket`; the socket is -1 only while a function runs. The world counts the sockets
-- that are open.
pub mod Address
use vantiq_sdk_micro.Base.{
  ℕ, zero, suc, Option, none, some, List, [], ◌∷◌, ◌++◌, Bytes, codes, c_str, leb, ◌==◌,
  if◌then◌else◌,
}
use vantiq_sdk_micro.Memory.{
  World, Run, M, ok, pure, aborted, fault, ◌>>=◌, ◌>>◌, in_bounds, allocate, allocate_or_abort,
  free,
}
use vantiq_sdk_micro.Dpi.{Socket}

-- How `socket` and then `connect` end: there is no socket, nobody answers, or they are connected.
pub data Attempt : Type 0 where
  no_socket unreachable : Attempt
  connected : Socket → Attempt

-- `unix` is `none` if there is no socket, and otherwise how `connect` answers to the bytes of a
-- `sun_path`. `resolve` is what `getaddrinfo` finds for localhost and a port: the attempts at its
-- addresses in order, or an error.
pub record Network : Type 0 where
  pub unix : Option (Bytes → Option Socket)
  pub resolve : Bytes → Option (List Attempt)

-- `socket` that succeeds, and `close`, a fault if no socket is open.
abbrev pub socket_opens : M (Unit {0})
socket_opens w = ok tt (record w { sockets = suc w.sockets })

abbrev close_in : ℕ → World → Run (Unit {0})
close_in zero w = fault
close_in (suc n) w = ok tt (record w { sockets = n })

abbrev pub close_socket : M (Unit {0})
close_socket w = close_in w.sockets w

abbrev pub zeros : ℕ → Bytes
zeros zero = []
zeros (suc n) = 0 ∷ zeros n

-- `strncpy` of a block: `n` bytes, padded with zeros behind the text. It reads up to a terminator, and
-- a block that has none within `n` bytes must have `n`.
pub strncpy : Bytes → (n : ℕ) → M Bytes
strncpy src zero = pure []
strncpy [] (suc n) = λ w. fault
strncpy (c ∷ src) (suc n) =
    if c == 0 then pure (zeros (suc n)) else (do rest ← strncpy src n; pure (c ∷ rest))

-- `sizeof(addr.sun_path)` on Linux, for which the code is written
abbrev pub sun_path_size : ℕ
sun_path_size = 108

-- The address: a path, or in the virtual address space of Linux what stands behind a first NUL. The
-- last byte is the one that `memset` leaves.
pub usock_path : Bytes → M Bytes
usock_path [] = λ w. fault
usock_path (c ∷ socket_path) =
    if c == 0
    then (do s ← strncpy socket_path 106; pure (0 ∷ s ++ 0 ∷ []))
    else (do s ← strncpy (c ∷ socket_path) 107; pure (s ++ 0 ∷ []))

-- `_dpi_client_alloc`
dpi_client_alloc : M (Unit {0})
dpi_client_alloc = allocate

-- The path that `connect` is given; NULL is no path.
usock_address : Option Bytes → M Bytes
unfolding usock_path
usock_address none = λ w. fault
usock_address (some socket_path) = usock_path socket_path

-- From `socket` on. A socket that could not be connected stays open.
usock_connect : Option (Bytes → Option Socket) → Option Bytes → M (Option Socket)
unfolding usock_address
usock_connect none socket_path = pure none
usock_connect (some connect) socket_path = do
  socket_opens
  address ← usock_address socket_path
  pure (connect address)

-- There is a block for the struct on every branch.
pub init_dpi_usock_client : Network → Option Bytes → M (Option Socket)
unfolding dpi_client_alloc usock_connect
init_dpi_usock_client net socket_path = do dpi_client_alloc; usock_connect net.unix socket_path

-- The loop over the addresses: the first that can be connected. A socket that cannot is closed.
pub first_connected : List Attempt → M (Option Socket)
first_connected [] = pure none
first_connected (no_socket ∷ next) = first_connected next
first_connected (unreachable ∷ next) = do socket_opens; close_socket; first_connected next
first_connected (connected s ∷ next) = do socket_opens; pure (some s)

-- Behind the loop: `freeaddrinfo` if there is a connection.
behind_loop : Option Socket → M (Option Socket)
behind_loop none = pure none
behind_loop (some s) = do free; pure (some s)

-- The addresses are a block of the resolver's. The program ends where there are none.
with_addresses : Option (List Attempt) → M (Option Socket)
unfolding first_connected behind_loop
with_addresses none = λ w. aborted
with_addresses (some attempts) = do
  allocate_or_abort
  socket ← first_connected attempts
  behind_loop socket

pub init_dpi_inet_client : Network → (port : Bytes) → M (Option Socket)
unfolding dpi_client_alloc with_addresses
init_dpi_inet_client net port = do dpi_client_alloc; with_addresses (net.resolve (c_str port))

-- MAXHOSTNAMELEN, MAXPORTLEN
abbrev max_hostname_len : ℕ
max_hostname_len = 512

abbrev max_port_len : ℕ
max_port_len = 5

-- What stands in the two blocks of the caller, of so many bytes, afterwards.
unfoldable pub config_hostname_port : (hostname_size port_size : ℕ) → M (Bytes × Bytes)
unfolding strncpy
config_hostname_port hostname_size port_size = do
  in_bounds (leb max_hostname_len hostname_size)
  hostname ← strncpy (codes "locahost" ++ 0 ∷ []) max_hostname_len
  in_bounds (leb max_port_len port_size)
  port ← strncpy (codes "3490" ++ 0 ∷ []) max_port_len
  pure (hostname, port)
