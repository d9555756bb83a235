-- ===== src/Ports/Tests.antt =====
-- Runs of bind and unbind, and instances of the theorems about them.
use libsimulator.Base.Errors.{ErrorCode, no_error, access_denied}
use libsimulator.Base.{ℕ, ◌≡◌, refl, true, List, ap, [], ◌∷◌, arith}
use libsimulator.Net.Address.{Address, Endpoint, endpoint_eq, no_endpoint}
use libsimulator.Ports.{
  Sockets, find, probe, following_port, enter, bind_in, bind_socket, unbind_socket,
}
use libsimulator.Ports.Binding.{Entered, Assigns}
use libsimulator.Ports.Node.{
  first_of, is_local, local_address, node_bind_socket, node_bind_socket-is_local,
}
use libsimulator.Ports.Ownership.{listen_bound, bind_socket-Assigns, unbind_socket-bind_socket}

abbrev at : ℕ → Endpoint
at p = record { address = Address.v4 167772161; port = p }

-- Socket 5 listens on port 80, and sockets 1 and 2 on the next two ports.
abbrev table : Sockets
table = record {
  listen_sockets = (at 2000, 1) ∷ (at 2001, 2) ∷ (at 1080, 5) ∷ [];
  udp_sockets = [];
  next_bind_port = 2000;
}

bind_any : bind_socket table 7 (at 0) ≡ (
  record table { listen_sockets = (at 2002, 7) ∷ table.listen_sockets; next_bind_port = 2001 },
  at 2002,
  no_error,
)
unfolding bind_socket bind_in enter probe find endpoint_eq following_port
bind_any = refl

bind_low : bind_socket table 7 (at 80) ≡ (table, no_endpoint, access_denied)
unfolding bind_socket bind_in
bind_low = refl

bind_socket-Assigns_example :
    Entered table.listen_sockets 7 (listen_bound (bind_socket table 7 (at 0)))
    × Assigns table.listen_sockets 2000 (at 0) (listen_bound (bind_socket table 7 (at 0)))
    × ((bind_socket table 7 (at 0)).0.udp_sockets ≡ [])
bind_socket-Assigns_example = bind_socket-Assigns table 7 (at 0) (omega arith)

unbind_socket-bind_socket_example :
    find
      (at 1080)
      (unbind_socket (bind_socket table 7 (at 0)).0 7 (bind_socket table 7 (at 0)).1).listen_sockets
    ≡ find (at 1080) table.listen_sockets
unbind_socket-bind_socket_example =
    unbind_socket-bind_socket table 7 (at 0) (at 1080)
      (ap (λ (r : Sockets × Endpoint × ErrorCode). r.2) bind_any)

abbrev moved : Sockets
moved = record table { listen_sockets = (at 2000, 1) ∷ (at 2001, 9) ∷ (at 1080, 5) ∷ [] }

-- A node with an IPv6 and an IPv4 address, and a socket that asks for any IPv4 address.
abbrev ips : List Address
ips = Address.v6 5 ∷ Address.v4 167772161 ∷ []

abbrev any : Endpoint
any = record { address = Address.v4 0; port = 0 }

node_bind_socket-is_local_example : is_local (node_bind_socket ips table 7 any).1.address ips ≡ true
unfolding node_bind_socket local_address first_of bind_socket bind_in enter probe find endpoint_eq
    following_port
node_bind_socket-is_local_example = node_bind_socket-is_local ips table 7 any refl
