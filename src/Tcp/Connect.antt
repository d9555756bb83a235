-- ===== src/Tcp/Connect.antt =====
-- The operations of tcp_socket.cpp that reach the tables of the simulation: open, bind, close,
-- async_connect, the attachment of an accepted connection, the move and the destructor. `Host` is a
-- socket with the parts of the simulation that they change. New forwarders and channels are named by
-- arguments.
pub mod Opened
pub mod Linked
pub mod Handshake
pub mod Tests
use libsimulator.Base.Errors.{
  ErrorCode, no_error, bad_descriptor, not_connected, address_family_not_supported, failed,
}
use libsimulator.Base.{
  ℕ, ◌+◌, ◌*◌, Bool, true, false, not, List, [], ◌∷◌, ◌++◌, Option, none, some, ◌==◌, if◌then◌else◌,
  update,
}
use libsimulator.Net.Address.{
  Address, Endpoint, any_v4, any_v6, no_endpoint, is_v4, address_eq, endpoint_eq,
}
use libsimulator.Net.Packet.{Packet}
use libsimulator.Net.Hops.{Route, Channel, remote_idx, replace_last}
use libsimulator.Ports.{Sockets, unbind_socket, rebind_socket}
use libsimulator.Ports.Node.{node_bind_socket}
use libsimulator.SocketBase.{SocketBase}
use libsimulator.Network.{Config, Node, End, Attempt, refused, connected, internal_connect}
use libsimulator.Tcp.{Effect, Socket, State, emit, sent, notified, connect_timer_started}
use libsimulator.Tcp.Input.{close}
use libsimulator.Tcp.Cancel.{cancel, forget_endpoint, is_bound}

pub record Host : Type 0 where
  pub state : State
  pub node : Node
  pub tables : Sockets
  -- the socket that a sink_forwarder leads to
  pub forwarders : ℕ → Option ℕ

abbrev pub with_socket : Host → Socket → Host
with_socket h k = record h { state = record h.state { socket = k } }

abbrev pub base_of : Socket → SocketBase
base_of k = record {
  is_open = k.is_open;
  bound_to = k.bound_to;
  user_bound_to = k.user_bound_to;
  forwarder = k.forwarder;
}

-- The socket that calls; it does not listen.
abbrev pub end_of : Host → End
end_of h = record { base = base_of h.state.socket; node = h.node; listening = false }

-- `m_forwarder->reset()`
unfoldable pub drop_forwarder : (ℕ → Option ℕ) → Option ℕ → ℕ → Option ℕ
drop_forwarder forwarders none i = forwarders i
drop_forwarder forwarders (some f) i = update forwarders f none i

-- `m_forwarder->reset(this)`
unfoldable pub aim_forwarder : (ℕ → Option ℕ) → Option ℕ → ℕ → ℕ → Option ℕ
aim_forwarder forwarders none this i = forwarders i
aim_forwarder forwarders (some f) this i = update forwarders f (some this) i

unfoldable pub unbind : Sockets → ℕ → Option Endpoint → Sockets
unbind tables this none = tables
unbind tables this (some ep) = unbind_socket tables this ep

abbrev pub same_family : Address → Address → Bool
same_family a b = if is_v4 a then is_v4 b else not (is_v4 b)

-- `if (ec) return; m_bound_to = addr; m_user_bound_to = addr`
unfoldable pub take_endpoint : Host → Sockets × Endpoint × ErrorCode → Host × ErrorCode
take_endpoint h (tables, addr, ec) = if failed ec then (record h { tables = tables }, ec) else (
  record h {
    state = record h.state {
      socket = record h.state.socket { bound_to = addr; user_bound_to = addr };
    };
    tables = tables;
  },
  no_error,
)

unfoldable pub bind : Host → Endpoint → Host × ErrorCode
bind h ep =
    let k = h.state.socket in
    if not k.is_open
    then (h, bad_descriptor)
    else if (if is_v4 ep.address then not k.is_v4 else k.is_v4)
    then (h, address_family_not_supported)
    else take_endpoint h (node_bind_socket h.node.ips h.tables k.this ep)

-- remote_endpoint: an `ec` that is left alone is no_error, and an index of -1 is undefined.
unfoldable pub remote_endpoint : State → Option (Endpoint × ErrorCode)
remote_endpoint s =
    if not s.socket.is_open then some (no_endpoint, bad_descriptor) else elim s.socket.channel [
      | none ↦ some (no_endpoint, not_connected)
      | some c ↦ elim (remote_idx (s.channels c) s.socket.bound_to) [
        | none ↦ none
        | some i ↦
            some
              (if i == 0 then (s.channels c).visible_ep0 else (s.channels c).visible_ep1, no_error)
      ]
    ]

-- The unspecified address of the family of the target.
abbrev pub any_like : Address → Endpoint
any_like a = record { address = if is_v4 a then any_v4 else any_v6; port = 0 }

-- The end of async_connect, on what internal_connect of the simulation gave.
unfoldable pub started : Config → Host → Endpoint → ℕ → ℕ → Attempt → Host
started config h target handler id result =
    let k = h.state.socket in
    let mtu = config.path_mtu k.bound_to.address target.address in
    let k1 = record k { mss = mtu; cwnd = mtu * 2 } in
    elim result [
      | refused ec ↦ record h {
        state =
            emit (record h.state { socket = record k1 { channel = none } })
              (connect_timer_started 50 handler ec);
      }
      | connected ch syn ↦ record h {
        state = record (emit h.state (sent syn)) {
          socket = record k1 { channel = some id; connect_handler = some handler };
          channels = update h.state.channels id ch;
        };
      }
    ]

abbrev pub fails : Host → ℕ → ErrorCode → Host
fails h handler ec = record h { state = emit h.state (notified handler ec) }

-- From the look-up of the remote socket on: `ends` are the sockets that are bound, `id` names the new
-- channel and `garbage` is what its counters start with.
unfoldable pub connect_bound : Config → (ℕ → End) → Host → Endpoint → ℕ → ℕ → ℕ × ℕ → Option Host
connect_bound config ends h target handler id garbage =
    if not (same_family h.state.socket.bound_to.address target.address)
    then some (fails h handler address_family_not_supported)
    else elim (internal_connect config h.tables.listen_sockets ends id garbage (end_of h) target) [
      | none ↦ none
      | some result ↦ some (started config h target handler id result)
    ]

-- A socket that is not bound yet is bound first.
unfoldable pub bind_first : Host → Endpoint → Host × ErrorCode
bind_first h target =
    let k = h.state.socket in
    if address_eq k.bound_to.address any_v4
    then take_endpoint h (node_bind_socket h.node.ips h.tables k.this (any_like target.address))
    else (h, no_error)

module _ (drops : List Effect → Packet → Bool) where
  unfoldable pub close_host : Host → Host
  close_host h =
      let (s, bound) = close drops h.state in
      record h {
        state = s;
        tables = unbind h.tables h.state.socket.this bound;
        forwarders = drop_forwarder h.forwarders h.state.socket.forwarder;
      }

  -- open, where the flag says that the protocol is v4 and `f` is the new forwarder.
  unfoldable pub open_host : Host → ℕ → Bool → Host
  open_host h f v4 =
      let h1 = close_host h in
      let k = h1.state.socket in
      record h1 {
        state = record h1.state {
          socket = record k { is_open = true; is_v4 = v4; forwarder = some f };
        };
        forwarders = update h1.forwarders f (some k.this);
      }

  -- internal_connect of a socket, which attaches a connection that was accepted. replace_last of an
  -- empty route is undefined: none.
  unfoldable pub attach : Host → ℕ → Endpoint → ℕ → Option Host
  attach h f bind_ip c =
      let h1 = open_host h f h.state.socket.is_v4 in
      let ch = h1.state.channels c in
      elim (replace_last ch.hops1 f) [
        | none ↦ none
        | some hops ↦ some (record h1 {
          state = record h1.state {
            socket = record h1.state.socket {
              bound_to = bind_ip;
              user_bound_to = bind_ip;
              channel = some c;
            };
            channels = update h1.state.channels c (record ch { hops1 = hops });
          };
        })
      ]

  -- async_connect, with the forwarder for a socket that it opens.
  unfoldable pub async_connect :
      Config → (ℕ → End) → Host → ℕ → Endpoint → ℕ → ℕ → ℕ × ℕ → Option Host
  async_connect config ends h f target handler id garbage =
      let h1 = if h.state.socket.is_open then h else open_host h f (is_v4 target.address) in
      let (h2, ec) = bind_first h1 target in
      if failed ec
      then some (fails h2 handler ec)
      else connect_bound config ends h2 target handler id garbage

-- The destructor: the socket is unbound and cancelled, and packets no longer reach it.
unfoldable pub destroy : Host → Host
destroy h =
    let k = h.state.socket in
    let s = forget_endpoint (record h.state { socket = record k { channel = none } }) in
    record h {
      state = cancel (record s { socket = record s.socket { is_open = false } });
      tables = unbind h.tables k.this (if is_bound k then some k.bound_to else none);
      forwarders = drop_forwarder h.forwarders k.forwarder;
    }

-- The move to a new socket of this number: the host with the new socket, and the socket that is left.
-- The table must hold the bound endpoint: rebind_socket.
unfoldable pub moved : Host → ℕ → Option (Host × Socket)
moved h this =
    let k = h.state.socket in
    let old = record k {
      connect_handler = none;
      send_handler = none;
      wait_send_handler = none;
      send_buffer = [];
      incoming_queue = [];
      recv_handler = none;
      wait_recv_handler = none;
      recv_buffer = [];
      channel = none;
      reorder_buffer = [];
      outstanding_packet_sizes = [];
      outgoing_packets = [];
      forwarder = none;
      is_open = false;
      bound_to = no_endpoint;
    } in
    let h1 = record h {
      state = record h.state { socket = record k { this = this } };
      forwarders = aim_forwarder h.forwarders k.forwarder this;
    } in
    if endpoint_eq k.bound_to no_endpoint
    then some (h1, old)
    else elim (rebind_socket h.tables k.this this k.bound_to) [
      | none ↦ none
      | some tables ↦ some (record h1 { tables = tables }, old)
    ]
