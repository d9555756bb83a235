-- ===== src/Servers/Listening.antt =====
-- A server that was started listens.
use libsimulator.Base.Errors.{ErrorCode, no_error}
use libsimulator.Base.{
  ℕ, ◌≡◌, ◌≤◌, refl, ap, ap₂, ◌∙◌, Bool, true, false, not, List, [], ◌∷◌, none, some, arith,
}
use libsimulator.Net.Address.{Address, Endpoint, is_v4, endpoint_eq, endpoint_eq_self, no_endpoint}
use libsimulator.Net.Packet.{Packet}
use libsimulator.Net.Hops.{Route}
use libsimulator.Ports.{Sockets, find, bind_socket}
use libsimulator.Ports.Ownership.{entered, bind_socket_free}
use libsimulator.Ports.Node.{node_bind_socket, local_address, first_of}
use libsimulator.Tcp.{Effect}
use libsimulator.Tcp.Input.{close}
use libsimulator.Tcp.Cancel.{is_bound}
use libsimulator.Tcp.Connect.{Host, open_host, close_host, bind, take_endpoint, unbind}
use libsimulator.Tcp.Connect.Opened.{disconnected-none, open_host-Opened}
use libsimulator.Acceptor.{
  Acceptor, Handler, into, listen, async_accept, cancel, check_accept_queue, accept_next,
}
use libsimulator.Servers.{acceptor_of, Listener, any_of, start_at, start_server}

abbrev pub at_port : Address → ℕ → Endpoint
at_port ip port = record { address = ip; port = port }

-- The unspecified address of the family of the first address stands for that address.
node_bind_socket_any :
    (ip : Address) (ips : List Address) (s : Sockets) (socket port : ℕ)
    → node_bind_socket (ip ∷ ips) s socket (any_of ip port) ≡ bind_socket s socket (at_port ip port)
unfolding node_bind_socket local_address first_of
node_bind_socket_any (Address.v4 a) ips s socket port = refl
node_bind_socket_any (Address.v6 a) ips s socket port = refl

-- A host whose socket is bound to this endpoint.
abbrev pub taken : Host → Endpoint → Host
taken h ep = record h {
  state = record h.state { socket = record h.state.socket { bound_to = ep; user_bound_to = ep } };
  tables = entered h.tables ep h.state.socket.this;
}

bind_any :
    (h : Host) (ip : Address) (ips : List Address) (port : ℕ)
    → h.node.ips ≡ ip ∷ ips
    → h.state.socket.is_open ≡ true
    → h.state.socket.is_v4 ≡ is_v4 ip
    → 1024 ≤ port
    → find (at_port ip port) h.tables.listen_sockets ≡ none
    → bind h (any_of ip port) ≡ (taken h (at_port ip port), no_error)
unfolding bind take_endpoint
bind_any h (Address.v4 a) ips port n o v p e =
    let b =
      node_bind_socket_any (Address.v4 a) ips h.tables h.state.socket.this port
      ∙ bind_socket_free h.tables h.state.socket.this (at_port (Address.v4 a) port) p e in
    rw (o, v, n, b)
bind_any h (Address.v6 a) ips port n o v p e =
    let b =
      node_bind_socket_any (Address.v6 a) ips h.tables h.state.socket.this port
      ∙ bind_socket_free h.tables h.state.socket.this (at_port (Address.v6 a) port) p e in
    rw (o, v, n, b)

-- The acceptor of a bound socket listens, with room for 20 connections by default.
listen_default :
    (a : Acceptor) (ip : Address) (port : ℕ)
    → a.is_open ≡ true
    → a.bound_to ≡ at_port ip port
    → 1024 ≤ port
    → listen a none ≡ (record a { queue_size_limit = some 20 }, no_error)
unfolding listen endpoint_eq
listen_default a ip port o b p = ground (arith, o, b, p)

async_accept_first :
    (route_to : ℕ → Route) (connects : Handler → ℕ → ErrorCode) (a : Acceptor) (h : Handler)
    → a.is_open ≡ true
    → a.waiting ≡ none
    → a.incoming_conns ≡ []
    → async_accept route_to connects (a, []) h ≡ (record a { waiting = some h }, [])
unfolding async_accept check_accept_queue accept_next cancel
async_accept_first route_to connects a h o w c = rw (w, o, c)

unbind-none : (s : Sockets) (this : ℕ) → unbind s this none ≡ s
unfolding unbind
unbind-none s this = refl

module _ (drops : List Effect → Packet → Bool) where
  -- The opening of a socket that has no channel and is not bound leaves the tables.
  open_host-tables :
      (h : Host) (f : ℕ) (v4 : Bool)
      → h.state.socket.channel ≡ none
      → h.state.socket.bound_to ≡ no_endpoint
      → (open_host drops h f v4).tables ≡ h.tables
  unfolding open_host close_host close
  open_host-tables h f v4 n b =
      let d = disconnected-none drops h.state n in
      let e : is_bound (h.state.socket) ≡ false = rw b (ap not (endpoint_eq_self no_endpoint)) in
      rw (d, e) (unbind-none h.tables h.state.socket.this)

  open_host-node : (h : Host) (f : ℕ) (v4 : Bool) → (open_host drops h f v4).node ≡ h.node
  unfolding open_host close_host
  open_host-node h f v4 = refl

  open_host-is_v4 :
      (h : Host) (f : ℕ) (v4 : Bool) → (open_host drops h f v4).state.socket.is_v4 ≡ v4
  unfolding open_host
  open_host-is_v4 h f v4 = refl

  -- A server of a node, on a socket that is new and a free port that is not privileged, starts. Its socket is bound
  -- to this port of the node's first address and entered in the table of the simulation, which gains
  -- nothing else; it listens with room for 20 connections, and the handler waits for the first one.
  pub start_server-listens :
      (route_to : ℕ → Route) (connects : Handler → ℕ → ErrorCode) (h : Host)
      (f port handler peer : ℕ) (ip : Address) (ips : List Address)
      → h.node.ips ≡ ip ∷ ips
      → h.state.socket.channel ≡ none
      → h.state.socket.bound_to ≡ no_endpoint
      → 1024 ≤ port
      → find (at_port ip port) h.tables.listen_sockets ≡ none
      → (l : Listener) × (start_server drops route_to connects h f port handler peer ≡ some l)
        × (l.host.state.socket.bound_to ≡ at_port ip port)
        × (l.host.tables ≡ entered h.tables (at_port ip port) h.state.socket.this)
        × (l.host.forwarders f ≡ some h.state.socket.this)
        × (l.acceptor.0.queue_size_limit ≡ some 20)
        × (l.acceptor.0.waiting ≡ some (into handler peer))
        × (l.acceptor.1 ≡ [])
  unfolding start_server start_at
  start_server-listens route_to connects h f port handler peer ip ips n c b p e =
      let h1 = open_host drops h f (is_v4 ip) in
      let o = open_host-Opened drops h f (is_v4 ip) c in
      let t = open_host-tables h f (is_v4 ip) c b in
      let ep = at_port ip port in
      let bound =
        bind_any h1 ip ips port (ap (λ m. m.ips) (open_host-node h f (is_v4 ip)) ∙ n) o.is_open
          (open_host-is_v4 h f (is_v4 ip)) p (rw t e) in
      let a = acceptor_of (taken h1 ep).state.socket in
      let a20 = record a { queue_size_limit = some 20 } in
      let lis = listen_default a ip port o.is_open refl p in
      let acc = async_accept_first route_to connects a20 (into handler peer) o.is_open refl refl in
      (
        record {
          host = taken h1 ep;
          acceptor = (record a20 { waiting = some (into handler peer) }, []);
        },
        ap
              (λ (addresses : List Address). elim addresses [
                | [] ↦ none
                | x ∷ xs ↦ start_at drops route_to connects x h f port handler peer
              ])
              n
            ∙ rw (bound, start_at, lis, acc),
        refl,
        ap₂ (λ s k. entered s ep k) t o.this,
        o.aimed,
        refl,
        refl,
        refl,
      )
