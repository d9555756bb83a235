-- ===== src/Tcp/Connect/Tests.antt =====
-- A client that connects to a listening socket, and an instance of the theorem.
use libsimulator.Base.Errors.{host_not_found}
use libsimulator.Base.{
  ℕ, ◌≡◌, ◌<◌, refl, Bool, true, false, List, [], ◌∷◌, Option, none, some, arith, ◌+◌, update,
}
use libsimulator.Net.Address.{Address, Endpoint, no_endpoint, endpoint_eq}
use libsimulator.Net.Hops.{Channel, append, replace_last}
use libsimulator.Net.Packet.{Packet}
use libsimulator.Ports.{Sockets, find}
use libsimulator.SocketBase.{local_bound_to, get_incoming_route, get_outgoing_route}
use libsimulator.Network.{
  Config, Node, End, route_of, incoming_of, outgoing_of, route_between, new_channel, establish,
  internal_connect, connected, syn_of,
}
use libsimulator.Tcp.{Effect, Socket}
use libsimulator.Tcp.Input.{disconnected, close}
use libsimulator.Tcp.Cancel.{abort_recv_handlers, cancel, reset_state, forget_endpoint}
use libsimulator.Tcp.Write.{abort_send_handlers}
use libsimulator.Tcp.Connect.{
  Host, bind_first, started, connect_bound, close_host, open_host, attach, async_connect,
}
use libsimulator.Tcp.Connect.Handshake.{Joined, async_connect-attach}

pub mtu_pos : (a b : Address) → 0 < 1475
mtu_pos a b = omega arith

abbrev pub config : Config
config = record {
  channel_route = λ a b. 50 ∷ [];
  path_mtu = λ a b. 1475;
  hostname_lookup = λ a name. (0, [], host_not_found);
  mtu_pos = mtu_pos;
}

abbrev pub server_at : Endpoint
server_at = record { address = Address.v4 2; port = 8080 }

abbrev pub client_at : Endpoint
client_at = record { address = Address.v4 1; port = 2000 }

abbrev pub node : ℕ → Node
node n = record {
  ips = Address.v4 n ∷ [];
  outgoing = (Address.v4 n, (10 + n) ∷ []) ∷ [];
  incoming = (Address.v4 n, (20 + n) ∷ []) ∷ [];
}

abbrev pub listener : End
listener = record {
  base = record {
    is_open = true;
    bound_to = server_at;
    user_bound_to = server_at;
    forwarder = some 7;
  };
  node = node 2;
  listening = true;
}

abbrev pub socket : ℕ → Bool → Endpoint → Option ℕ → Socket
socket this is_open bound_to forwarder = record {
  this = this;
  is_open = is_open;
  is_v4 = true;
  bound_to = bound_to;
  user_bound_to = bound_to;
  forwarder = forwarder;
  channel = none;
  connect_handler = none;
  mss = 1475;
  send_handler = none;
  wait_send_handler = none;
  send_buffer = [];
  incoming_queue = [];
  recv_handler = none;
  wait_recv_handler = none;
  recv_buffer = [];
  recv_null_buffers = false;
  send_null_buffers = false;
  next_outgoing_seq = 0;
  next_incoming_seq = 0;
  last_drop_seq = 0;
  cwnd = 2950;
  bytes_in_flight = 0;
  reorder_buffer = [];
  outstanding_packet_sizes = [];
  outgoing_packets = [];
}

abbrev pub no_channel : Channel
no_channel = record {
  hops0 = [];
  hops1 = [];
  ep0 = no_endpoint;
  ep1 = no_endpoint;
  visible_ep0 = no_endpoint;
  visible_ep1 = no_endpoint;
  bytes_sent0 = 0;
  bytes_sent1 = 0;
}

abbrev pub tables : Sockets
tables = record {
  listen_sockets = (client_at, 1) ∷ (server_at, 2) ∷ [];
  udp_sockets = [];
  next_bind_port = 2001;
}

abbrev pub host : Socket → ℕ → (ℕ → Channel) → Host
host k n channels = record {
  state = record { socket = k; channels = channels; log = [] };
  node = node n;
  tables = tables;
  forwarders = λ i. none;
}

abbrev client : Host
client = host (socket 1 true client_at (some 5)) 1 (λ c. no_channel)

abbrev pub drops : List Effect → Packet → Bool
drops log p = false

abbrev pub made : Channel
made = record {
  hops0 = 12 ∷ 50 ∷ 21 ∷ 5 ∷ [];
  hops1 = 11 ∷ 50 ∷ 22 ∷ 7 ∷ [];
  ep0 = client_at;
  ep1 = server_at;
  visible_ep0 = client_at;
  visible_ep1 = server_at;
  bytes_sent0 = 0;
  bytes_sent1 = 0;
}

abbrev pub ends : ℕ → End
ends i = listener

unfoldable connecting : Host
unfolding started
connecting = started config client server_at 99 0 (connected made (syn_of 0 made))

connects : async_connect drops config ends client 6 server_at 99 0 (0, 0) ≡ some connecting
unfolding async_connect bind_first connect_bound internal_connect establish route_between find
    incoming_of outgoing_of get_incoming_route get_outgoing_route route_of new_channel append
    local_bound_to endpoint_eq connecting started
connects = refl

abbrev server : Host
server = host (socket 3 false no_endpoint none) 2 (update (λ c. no_channel) 0 made)

unfoldable opened : Host
opened = open_host drops server 9 true

abbrev attached : Host
attached = record opened {
  state = record opened.state {
    socket = record opened.state.socket {
      bound_to = server_at;
      user_bound_to = server_at;
      channel = some 0;
    };
    channels =
        update opened.state.channels 0
          (record (opened.state.channels 0) { hops1 = 11 ∷ 50 ∷ 22 ∷ 9 ∷ [] });
  };
}

attaches : attach drops server 9 server_at 0 ≡ some attached
unfolding attach opened open_host close_host close disconnected forget_endpoint reset_state cancel
    abort_recv_handlers abort_send_handlers endpoint_eq replace_last
attaches = refl

async_connect-attach_example : Joined ends connecting attached 0 9
unfolding connecting started endpoint_eq
async_connect-attach_example =
    async_connect-attach config ends drops drops client connecting server attached server_at 99 0 6
      9 (0, 0) refl connects refl refl refl attaches refl
