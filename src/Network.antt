-- ===== src/Network.antt =====
-- The network as a simulation puts it together: the interface of a configuration, the routes of a node
-- (io_service.cpp), and internal_connect and find_udp_socket of simulation.cpp.
pub mod Ends
pub mod Nodes
use libsimulator.Base.Errors.{ErrorCode, no_error, connection_refused, failed}
use libsimulator.Base.{
  ℕ, ◌<◌, ◌+◌, Bool, true, false, not, ◌&&◌, List, [], ◌∷◌, Option, none, some, if◌then◌else◌,
}
use libsimulator.Net.Address.{Address, Endpoint, address_eq}
use libsimulator.Net.Packet.{Packet, new_packet, PacketType}
use libsimulator.Net.Hops.{Route, Channel, append, forward_packet}
use libsimulator.Ports.{Table, find}
use libsimulator.SocketBase.{SocketBase, local_bound_to, get_incoming_route, get_outgoing_route}

-- What a client of `configuration` relies on. The look-up of a name gives the time in
-- nanoseconds, the addresses and the error code.
pub record Config : Type 0 where
  pub channel_route : Address → Address → Route
  pub path_mtu : Address → Address → ℕ
  pub hostname_lookup : Address → List ℕ → ℕ × List Address × ErrorCode
  -- a segment can hold a byte
  pub mtu_pos : (a b : Address) → 0 < path_mtu a b

-- `m_outgoing_route` and `m_incoming_route` of an io_context
pub record Node : Type 0 where
  pub ips : List Address
  pub outgoing : List (Address × Route)
  pub incoming : List (Address × Route)

-- `m_incoming_route.find(ip)->second`; for an address that is not the node's it is undefined: none.
unfoldable pub route_of : Address → List (Address × Route) → Option Route
route_of a [] = none
route_of a ((b, r) ∷ m) = if address_eq b a then some r else route_of a m

-- A socket as the simulation sees it.
pub record End : Type 0 where
  pub base : SocketBase
  pub node : Node
  pub listening : Bool

unfoldable pub incoming_of : End → Option Route
incoming_of e = get_incoming_route (λ a. route_of a e.node.incoming) e.base

unfoldable pub outgoing_of : End → Option Route
outgoing_of e = get_outgoing_route (λ a. route_of a e.node.outgoing) e.base

-- What internal_connect returns: an error code and no channel, or a channel with the SYN that was
-- forwarded.
pub data Attempt : Type 0 where
  refused : ErrorCode → Attempt
  connected : Channel → Packet → Attempt

-- `channel() {}` leaves the two counters as they are in memory.
unfoldable pub new_channel : ℕ × ℕ → End → End → Route → Route → Channel
new_channel garbage s remote hops0 hops1 =
    let from = (local_bound_to s.base).0 in
    let target = (local_bound_to remote.base).0 in
    record {
      hops0 = hops0;
      hops1 = hops1;
      ep0 = from;
      ep1 = target;
      visible_ep0 = from;
      visible_ep1 = target;
      bytes_sent0 = garbage.0;
      bytes_sent1 = garbage.1;
    }

abbrev pub syn_of : ℕ → Channel → Packet
syn_of id c = record new_packet {
  type = PacketType.syn;
  overhead = 28;
  from = c.ep0;
  channel = some id;
  hops = c.hops1;
}

-- The route from one end to another through the network; a missing forwarder is undefined: none.
unfoldable pub route_between : Route → End → End → Option Route
route_between network a b = elim (outgoing_of a) [
  | none ↦ none
  | some out ↦ elim (incoming_of b) [
    | none ↦ none
    | some into ↦ some (append (append out network) into)
  ]
]

-- The rest of internal_connect with a listening socket: `id` names the new channel.
unfoldable pub establish : Config → ℕ → ℕ × ℕ → End → End → Endpoint → Option Attempt
establish config id garbage s remote target =
    let network = config.channel_route (local_bound_to s.base).0.address target.address in
    let ec =
      if failed (local_bound_to remote.base).1
      then (local_bound_to remote.base).1
      else (local_bound_to s.base).1 in
    elim (route_between network remote s) [
      | none ↦ none
      | some hops0 ↦ elim (route_between network s remote) [
        | none ↦ none
        | some hops1 ↦
            let c = new_channel garbage s remote hops0 hops1 in
            some (if failed ec then refused ec else connected c (syn_of id c))
      ]
    ]

unfoldable pub internal_connect :
    Config → Table → (ℕ → End) → ℕ → ℕ × ℕ → End → Endpoint → Option Attempt
internal_connect config listen_sockets ends id garbage s target =
    elim (find target listen_sockets) [
      | none ↦ some (refused connection_refused)
      | some remote ↦
          if not (ends remote).listening
          then some (refused connection_refused)
          else establish config id garbage s (ends remote) target
    ]

-- The route to a UDP socket, or an empty one; `local_bound_to` of a closed sender throws, which is
-- none, as is a missing forwarder.
unfoldable pub find_udp_socket : Config → Table → (ℕ → End) → End → Endpoint → Option Route
find_udp_socket config udp_sockets ends socket ep = elim (find ep udp_sockets) [
  | none ↦ some []
  | some i ↦
      let (src, ec) = local_bound_to socket.base in
      if failed ec then none else elim (incoming_of (ends i)) [
        | none ↦ none
        | some r ↦ some (append (config.channel_route src.address ep.address) r)
      ]
]
