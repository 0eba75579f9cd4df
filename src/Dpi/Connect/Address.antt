-- ===== src/Dpi/Connect/Address.antt =====
-- Where `init_dpi_usock_client` and `init_dpi_inet_client` of src/vipo/dpi_client.c connect to, and what
-- they leave open.
use vantiq_sdk_micro.Base.{
  ℕ, zero, suc, ◌+◌, ◌-◌, ◌≡◌, refl, false, ap, Option, none, some, List, [], ◌∷◌, ◌++◌, Bytes,
  arith, c_str, length, ◌==◌, length-append, IsText,
}
use vantiq_sdk_micro.Memory.{
  World, at_live, ok, Granting, allocate_granted, allocate_or_abort_granted, free_lem,
}
use vantiq_sdk_micro.Memory.Returns.{Returns, returns, bind, mono}
use vantiq_sdk_micro.Dpi.{Socket}
use vantiq_sdk_micro.Dpi.Connect.{
  Attempt, no_socket, unreachable, connected, Network, zeros, strncpy, sun_path_size, usock_path,
  usock_address, usock_connect, dpi_client_alloc, init_dpi_usock_client, first_connected,
  behind_loop, with_addresses, init_dpi_inet_client,
}

-- A text in so many bytes: cut off, or padded with zeros.
abbrev pub padded : ℕ → Bytes → Bytes
padded zero s = []
padded (suc n) [] = zeros (suc n)
padded (suc n) (c ∷ s) = c ∷ padded n s

length-zeros : (n : ℕ) → length (zeros n) ≡ n
length-zeros zero = refl
length-zeros (suc n) = ap suc (length-zeros n)

pub length-padded : (n : ℕ) (s : Bytes) → length (padded n s) ≡ n
length-padded zero s = refl
length-padded (suc n) [] = length-zeros (suc n)
length-padded (suc n) (c ∷ s) = ap suc (length-padded n s)

-- `strncpy` reads no byte behind the terminator.
strncpy_lem :
    (n : ℕ) (s rest : Bytes) (w : World)
    → IsText s
    → strncpy (s ++ 0 ∷ rest) n w ≡ ok (padded n s) w
unfolding strncpy
strncpy_lem zero [] rest w h = refl
strncpy_lem zero (c ∷ s) rest w h = refl
strncpy_lem (suc n) [] rest w h = refl
strncpy_lem (suc n) (c ∷ s) rest w (IsText.cons h t) =
    let no_end : (c == 0) ≡ false = ground arith in rw (no_end, strncpy_lem n s rest w t) refl

-- If the allocation is granted, there is a socket, and the path is a C string that is not empty,
-- init_dpi_usock_client reads no byte behind the path and connects to an address of just 108
-- bytes: the first 107 bytes of the path, padded with zeros, and a zero. It returns a client
-- with the socket exactly if connect succeeds at that address, and in every case there is one
-- more block and one more open socket than before: a socket that cannot be connected is not
-- closed.
pub init_dpi_usock_client_bounds :
    (net : Network) (connect : Bytes → Option Socket) (c : ℕ) (s rest : Bytes) (w : World)
    → Granting w
    → net.unix ≡ some connect
    → IsText (c ∷ s)
    → (path : Bytes) × (path ≡ padded 107 (c ∷ s) ++ 0 ∷ [])
      × (length path ≡ sun_path_size)
      × (init_dpi_usock_client net (some (c ∷ s ++ 0 ∷ rest)) w
          ≡ ok (connect path) (record w { live = suc w.live; sockets = suc w.sockets }))
unfolding init_dpi_usock_client dpi_client_alloc usock_connect usock_address usock_path
init_dpi_usock_client_bounds net connect c s rest w g e (IsText.cons h t) =
    let no_end : (c == 0) ≡ false = ground arith in
    let path = padded 107 (c ∷ s) ++ 0 ∷ [] in
    let size = length-append (padded 107 (c ∷ s)) (0 ∷ []) in
    (
      path,
      refl,
      omega (arith, size, length-padded 107 (c ∷ s)),
      rw
          (
            allocate_granted w g,
            e,
            no_end,
            strncpy_lem 107 (c ∷ s) rest (record w { live = suc w.live; sockets = suc w.sockets })
                (IsText.cons h t),
          )
          refl,
    )

-- With no socket the path is not read.
pub init_dpi_usock_client-none :
    (net : Network) (path : Option Bytes) (w : World)
    → Granting w
    → net.unix ≡ none
    → init_dpi_usock_client net path w ≡ ok none (at_live w (suc w.live))
unfolding init_dpi_usock_client dpi_client_alloc usock_connect
init_dpi_usock_client-none net path w g e = rw (allocate_granted w g, e) refl

-- the number of sockets that stay open
abbrev pub held : Option Socket → ℕ
held none = 0
held (some s) = 1

abbrev pub AllFail : List Attempt → Type 0
AllFail [] = Unit
AllFail (no_socket ∷ next) = AllFail next
AllFail (unreachable ∷ next) = AllFail next
AllFail (connected s ∷ next) = ⊥

-- The socket is that of the first attempt that does not fail, if there is one.
pub data IsFirst (attempts : List Attempt) : Option Socket → Type 0 where
  none_connects : AllFail attempts → IsFirst attempts none
  first :
      (failed next : List Attempt) {s : Socket}
      → AllFail failed
      → attempts ≡ failed ++ connected s ∷ next
      → IsFirst attempts (some s)

IsFirst-behind :
    (a : Attempt) (attempts : List Attempt) (o : Option Socket)
    → AllFail (a ∷ [])
    → IsFirst attempts o
    → IsFirst (a ∷ attempts) o
IsFirst-behind no_socket attempts none k (none_connects h) = none_connects h
IsFirst-behind unreachable attempts none k (none_connects h) = none_connects h
IsFirst-behind no_socket attempts (some s) k (first failed next h e) =
    first (no_socket ∷ failed) next h (ap (λ t. no_socket ∷ t) e)
IsFirst-behind unreachable attempts (some s) k (first failed next h e) =
    first (unreachable ∷ failed) next h (ap (λ t. unreachable ∷ t) e)
IsFirst-behind (connected s) attempts o k h = absurd k

-- What the loop leaves: the first socket that can be connected, and no other open.
record Connected (attempts : List Attempt) (w : World) (o : Option Socket) (u : World)
    : Type 0 where
  is_first : IsFirst attempts o
  world : u ≡ record w { sockets = w.sockets + held o }

Connected-behind :
    (a : Attempt) (attempts : List Attempt) (w : World) (o : Option Socket) (u : World)
    → AllFail (a ∷ [])
    → Connected attempts w o u
    → Connected (a ∷ attempts) w o u
Connected-behind a attempts w o u h q = record {
  is_first = IsFirst-behind a attempts o h q.is_first;
  world = q.world;
}

first_connected-Connected :
    (attempts : List Attempt) (w : World)
    → Returns (Connected attempts w) (first_connected attempts w)
unfolding first_connected
first_connected-Connected [] w = returns (record {
  is_first = none_connects tt;
  world = ap (λ n. record w { sockets = n }) (omega arith);
})
first_connected-Connected (no_socket ∷ next) w =
    mono (first_connected-Connected next w) λ o u q. Connected-behind no_socket next w o u tt q
first_connected-Connected (unreachable ∷ next) w =
    mono (first_connected-Connected next w) λ o u q. Connected-behind unreachable next w o u tt q
first_connected-Connected (connected s ∷ next) w = returns (record {
  is_first = first [] next tt refl;
  world = ap (λ n. record w { sockets = n }) (omega arith);
})

-- What `init_dpi_inet_client` leaves of the world: the struct, the socket of a client, and the
-- addresses if there is none.
abbrev pub left_of : World → Option Socket → World
left_of w o = record w { live = w.live + (2 - held o); sockets = w.sockets + held o }

behind_loop_lem :
    (o : Option Socket) (w : World)
    → behind_loop o (record w { live = suc (suc w.live); sockets = w.sockets + held o })
      ≡ ok o (left_of w o)
unfolding behind_loop
behind_loop_lem none w =
    ap (λ n. ok none (record w { live = n; sockets = w.sockets + 0 })) (omega arith)
behind_loop_lem (some s) w =
    rw (free_lem (suc w.live) (record w { live = suc (suc w.live); sockets = w.sockets + 1 }) refl)
      (ap (λ n. ok (some s) (record w { live = n; sockets = w.sockets + 1 })) (omega arith))

-- If every allocation is granted and getaddrinfo finds addresses for the port, then
-- init_dpi_inet_client returns: its client has the socket of the first address that can be
-- connected, and there is none exactly if every address fails. The sockets that could not be
-- connected are closed, so that one more socket is open with a client, and as many as before
-- without one; one block is left of the call with a client, since the addresses are freed, and
-- two without one.
pub init_dpi_inet_client-IsFirst :
    (net : Network) (port : Bytes) (attempts : List Attempt) (w : World)
    → Granting w
    → net.resolve (c_str port) ≡ some attempts
    → Returns (λ o u. IsFirst attempts o × (u ≡ left_of w o)) (init_dpi_inet_client net port w)
unfolding init_dpi_inet_client dpi_client_alloc with_addresses
init_dpi_inet_client-IsFirst net port attempts w g found =
    let w' = at_live w (suc (suc w.live)) in
    rw (allocate_granted w g, found, allocate_or_abort_granted (at_live w (suc w.live)) g)
      (bind (first_connected-Connected attempts w')
        λ o u q. rw (q.world, behind_loop_lem o w) (returns (q.is_first, refl)))

first_connected_behind :
    (failed next : List Attempt) (s : Socket) (w : World)
    → AllFail failed
    → first_connected (failed ++ connected s ∷ next) w
      ≡ ok (some s) (record w { sockets = suc w.sockets })
unfolding first_connected
first_connected_behind [] next s w h = refl
first_connected_behind (no_socket ∷ failed) next s w h = first_connected_behind failed next s w h
first_connected_behind (unreachable ∷ failed) next s w h = first_connected_behind failed next s w h
first_connected_behind (connected t ∷ failed) next s w h = absurd h

-- With one address that can be connected, behind any that cannot.
pub init_dpi_inet_client-connected :
    (net : Network) (port : Bytes) (failed next : List Attempt) (s : Socket) (w : World)
    → Granting w
    → AllFail failed
    → net.resolve (c_str port) ≡ some (failed ++ connected s ∷ next)
    → init_dpi_inet_client net port w
      ≡ ok (some s) (record w { live = suc w.live; sockets = suc w.sockets })
unfolding init_dpi_inet_client dpi_client_alloc with_addresses behind_loop
init_dpi_inet_client-connected net port failed next s w g h found =
    let w' = at_live w (suc (suc w.live)) in
    rw
      (
        allocate_granted w g,
        found,
        allocate_or_abort_granted (at_live w (suc w.live)) g,
        first_connected_behind failed next s w' h,
        free_lem (suc w.live) (record w' { sockets = suc w.sockets }) refl,
      )
      refl
