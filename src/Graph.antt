-- ===== src/Graph.antt =====
-- dump_network_graph of simulator.cpp: the nodes and the edges that it collects, and the escaping of
-- labels. A sink is a number, and so is an io_context; a std::set is a list without repetitions.
pub mod Paths
pub mod Collected
pub mod Connected
pub mod Label
pub mod Quoting
mod Tests
use libsimulator.Base.{
  ℕ, Bool, false, ◌&&◌, ◌||◌, List, [], ◌∷◌, ◌++◌, Option, none, some, ◌==◌, if◌then◌else◌,
}
use libsimulator.Net.Address.{Address}
use libsimulator.Net.Hops.{Route, last}
use libsimulator.Network.{Config, Node, route_of}

-- A sink on a route, or the dummy sink that stands for an io_context.
pub data Vertex : Type 0 where
  sink endpoint : ℕ → Vertex

abbrev pub vertex_eq : Vertex → Vertex → Bool
vertex_eq (sink a) (sink b) = a == b
vertex_eq (endpoint a) (endpoint b) = a == b
vertex_eq (sink a) (endpoint b) = false
vertex_eq (endpoint a) (sink b) = false

abbrev pub Edge : Type 0
Edge = Vertex × Vertex

abbrev pub edge_eq : Edge → Edge → Bool
edge_eq e f = vertex_eq e.0 f.0 && vertex_eq e.1 f.1

unfoldable pub has_vertex : Vertex → List Vertex → Bool
has_vertex v [] = false
has_vertex v (u ∷ us) = vertex_eq u v || has_vertex v us

unfoldable pub has_edge : Edge → List Edge → Bool
has_edge e [] = false
has_edge e (f ∷ fs) = edge_eq f e || has_edge e fs

unfoldable pub add_vertex : Vertex → List Vertex → List Vertex
add_vertex v us = if has_vertex v us then us else v ∷ us

unfoldable pub add_edge : Edge → List Edge → List Edge
add_edge e fs = if has_edge e fs then fs else e ∷ fs

pub record Drawing : Type 0 where
  pub edges : List Edge
  pub nodes : List Vertex
  -- `local_nodes.back()`
  pub back : List Vertex

abbrev pub add_local : Vertex → Drawing → Drawing
add_local v g = record g { back = add_vertex v g.back }

-- `if (prev) edges.insert({prev, node})`
abbrev pub link : Option Vertex → Vertex → Drawing → Drawing
link none v g = g
link (some u) v g = record g { edges = add_edge (u, v) g.edges }

-- `hops.front()`, which is undefined for an empty route: none.
unfoldable pub next_hop : Route → Option ℕ
next_hop [] = none
next_hop (h ∷ hs) = some h

unfoldable pub in_loop : Option Vertex → Route → Drawing → Option Vertex × Drawing
in_loop prev [] g = (prev, g)
in_loop prev (n ∷ ns) g = in_loop (some (sink n)) ns (link prev (sink n) (add_local (sink n) g))

unfoldable pub add_incoming : Vertex → Route → Drawing → Drawing
add_incoming ep route g = let (prev, g') = in_loop none route g in link prev ep g'

unfoldable pub out_loop : Vertex → Route → Drawing → Drawing
out_loop prev [] g = g
out_loop prev (n ∷ ns) g = out_loop (sink n) ns (link (some prev) (sink n) (add_local (sink n) g))

unfoldable pub channel_loop : Vertex → Route → Drawing → Vertex × Drawing
channel_loop prev [] g = (prev, g)
channel_loop prev (n ∷ ns) g =
    channel_loop (sink n) ns
      (link (some prev) (sink n) (record g { nodes = add_vertex (sink n) g.nodes }))

-- `out.empty() ? ep : out.last()`
unfoldable pub egress_of : Vertex → Route → Vertex
egress_of ep out = elim (last out) [ none ↦ ep | some s ↦ sink s ]

module _ (config : Config) where
  -- The edges to one address, through the channel.
  unfoldable pub connect : Address → Vertex → Node → Address → Drawing → Option Drawing
  connect ip egress ios2 ip2 g = elim (route_of ip2 ios2.incoming) [
    | none ↦ none
    | some into ↦ elim (next_hop into) [
      | none ↦ none
      | some first ↦
          let (prev, g') = channel_loop egress (config.channel_route ip ip2) g in
          some (link (some prev) (sink first) g')
    ]
  ]

  unfoldable pub connect_ips : Address → Vertex → Node → List Address → Drawing → Option Drawing
  connect_ips ip egress ios2 [] g = some g
  connect_ips ip egress ios2 (ip2 ∷ ips) g = elim (connect ip egress ios2 ip2 g) [
    | none ↦ none
    | some g' ↦ connect_ips ip egress ios2 ips g'
  ]

  unfoldable pub connect_all : Address → Vertex → List (ℕ × Node) → Drawing → Option Drawing
  connect_all ip egress [] g = some g
  connect_all ip egress ((j, ios2) ∷ services) g = elim (connect_ips ip egress ios2 ios2.ips g) [
    | none ↦ none
    | some g' ↦ connect_all ip egress services g'
  ]

  module _ (io_services : List (ℕ × Node)) where
    unfoldable pub add_ip : ℕ → Node → Address → Drawing → Option Drawing
    add_ip k ioc ip g = elim (route_of ip ioc.incoming) [
      | none ↦ none
      | some into ↦ elim (route_of ip ioc.outgoing) [
        | none ↦ none
        | some out ↦
            connect_all ip (egress_of (endpoint k) out) io_services
              (out_loop (endpoint k) out (add_incoming (endpoint k) into g))
      ]
    ]

    unfoldable pub add_ips : ℕ → Node → List Address → Drawing → Option Drawing
    add_ips k ioc [] g = some g
    add_ips k ioc (ip ∷ ips) g = elim (add_ip k ioc ip g) [
      | none ↦ none
      | some g' ↦ add_ips k ioc ips g'
    ]

    -- The loop over the nodes, with the finished groups of local nodes.
    unfoldable pub add_services :
        List (ℕ × Node) → Drawing → List (List Vertex) → Option (Drawing × List (List Vertex))
    add_services [] g groups = some (g, groups)
    add_services ((k, ioc) ∷ services) g groups =
        elim (add_ips k ioc ioc.ips (record g { back = endpoint k ∷ [] })) [
          | none ↦ none
          | some g' ↦ add_services services g' (groups ++ g'.back ∷ [])
        ]

  unfoldable pub network_graph : List (ℕ × Node) → Option (Drawing × List (List Vertex))
  network_graph io_services =
      add_services io_services io_services (record { edges = []; nodes = []; back = [] }) []
