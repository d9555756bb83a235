-- ===== src/Servers.antt =====
-- How the constructors of http_server.cpp, http_proxy.cpp and socks_server.cpp open their listening
-- socket, on all addresses of the family of the node's first one.
pub mod Listening
mod Tests
use libsimulator.Base.Errors.{ErrorCode, failed}
use libsimulator.Base.{ℕ, Bool, true, List, [], ◌∷◌, ◌++◌, suc, Option, none, some, if◌then◌else◌}
use libsimulator.Net.Address.{Address, Endpoint, any_v4, any_v6, is_v4}
use libsimulator.Net.Hops.{Route}
use libsimulator.Net.Packet.{Packet}
use libsimulator.Tcp.{Effect, Socket}
use libsimulator.Tcp.Connect.{Host, open_host, bind}
use libsimulator.Acceptor.{Acceptor, Handler, into, State, listen, cancel, async_accept}

-- The acceptor of a socket that does not listen yet.
abbrev pub acceptor_of : Socket → Acceptor
acceptor_of k = record {
  is_open = k.is_open;
  bound_to = k.bound_to;
  queue_size_limit = none;
  incoming_conns = [];
  waiting = none;
}

pub record Listener : Type 0 where
  pub host : Host
  pub acceptor : State

abbrev pub any_of : Address → ℕ → Endpoint
any_of ip port = record { address = if is_v4 ip then any_v4 else any_v6; port = port }

module _ (drops : List Effect → Packet → Bool) (route_to : ℕ → Route)
    (connects : Handler → ℕ → ErrorCode) where
  -- open, bind and listen throw their error: none; and so is the first address of a node that has none,
  -- which is undefined. The forwarder is `f`; `handler` is on_accept and `peer` the connection.
  unfoldable pub start_at : Address → Host → ℕ → ℕ → ℕ → ℕ → Option Listener
  start_at local_ip h f listen_port handler peer =
      let (h1, ec) = bind (open_host drops h f (is_v4 local_ip)) (any_of local_ip listen_port) in
      let (a, ec1) = listen (acceptor_of h1.state.socket) none in
      if failed ec
      then none
      else if failed ec1
      then none
      else some (record {
        host = h1;
        acceptor = async_accept route_to connects (a, []) (into handler peer);
      })

  unfoldable pub start_server : Host → ℕ → ℕ → ℕ → ℕ → Option Listener
  start_server h f listen_port handler peer = elim h.node.ips [
    | [] ↦ none
    | ip ∷ ips ↦ start_at ip h f listen_port handler peer
  ]

-- acceptor::close(): the handlers are aborted, and nothing else.
unfoldable pub close_acceptor : State → State
close_acceptor s = cancel s

-- The `stop` of the servers: m_close, and the listening socket.
unfoldable pub stop_server : Listener → Listener × Bool
stop_server l = (record l { acceptor = close_acceptor l.acceptor }, true)

-- The SOCKS server makes a connection of its own for every client: `conn` waits for the next one,
-- `next` numbers the one that is made after it, and `started` are those whose `start` was called.
pub record SocksServer : Type 0 where
  pub conn : ℕ
  pub next : ℕ
  pub started : List ℕ
  pub acceptor : State

module _ (route_to : ℕ → Route) (connects : Handler → ℕ → ErrorCode) where
  unfoldable pub on_accept : SocksServer → ℕ → ErrorCode → SocksServer
  on_accept s handler ec = if failed ec then s else record {
    conn = s.next;
    next = suc s.next;
    started = s.started ++ s.conn ∷ [];
    acceptor = async_accept route_to connects s.acceptor (into handler s.next);
  }
