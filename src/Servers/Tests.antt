-- ===== src/Servers/Tests.antt =====
-- A server that is started on a new socket, and an instance of the theorem.
use libsimulator.Base.Errors.{ErrorCode, no_error}
use libsimulator.Base.{ℕ, ◌≡◌, refl, false, [], none, some, arith}
use libsimulator.Net.Address.{Address, Endpoint, no_endpoint, endpoint_eq}
use libsimulator.Net.Hops.{Route}
use libsimulator.Ports.{find}
use libsimulator.Ports.Ownership.{entered}
use libsimulator.Tcp.Connect.{Host}
use libsimulator.Tcp.Connect.Tests.{drops, host, no_channel, socket}
use libsimulator.Acceptor.{Handler, into}
use libsimulator.Servers.{Listener, start_server}
use libsimulator.Servers.Listening.{at_port, start_server-listens}

abbrev route_to : ℕ → Route
route_to c = []

abbrev connects : Handler → ℕ → ErrorCode
connects h c = no_error

-- A new socket of the node 2.
abbrev fresh : Host
fresh = host (socket 3 false no_endpoint none) 2 (λ c. no_channel)

abbrev ep : Endpoint
ep = at_port (Address.v4 2) 9000

start_server-listens_example :
    (l : Listener) × (start_server drops route_to connects fresh 9 9000 4 5 ≡ some l)
    × (l.host.state.socket.bound_to ≡ ep)
    × (l.host.tables ≡ entered fresh.tables ep 3)
    × (l.host.forwarders 9 ≡ some 3)
    × (l.acceptor.0.queue_size_limit ≡ some 20)
    × (l.acceptor.0.waiting ≡ some (into 4 5))
    × (l.acceptor.1 ≡ [])
unfolding find endpoint_eq
start_server-listens_example =
    start_server-listens drops route_to connects fresh 9 9000 4 5 (Address.v4 2) [] refl refl refl
      (omega arith) refl
