-- ===== src/Graph/Tests.antt =====
-- A network of two nodes, its graph, and instances of the theorems on it.
use libsimulator.Base.{ℕ, ◌≡◌, inl, inr, refl, List, [], ◌∷◌, ◌++◌, Option, none, some, arith}
use libsimulator.Base.Errors.{no_error}
use libsimulator.Net.Address.{Address}
use libsimulator.Net.Hops.{last}
use libsimulator.Network.{Config, Node, route_of}
use libsimulator.Proxy.Url.{codes}
use libsimulator.Graph.{
  Vertex, sink, endpoint, Edge, has_edge, Drawing, network_graph, connect, connect_ips, connect_all,
  add_ip, add_ips, add_services, in_loop, out_loop, channel_loop, add_incoming, egress_of, next_hop,
  add_edge, add_vertex, has_vertex,
}
use libsimulator.Graph.Collected.{AllRouted, edges_of, network_graph-edges}
use libsimulator.Graph.Connected.{Walk, network_graph-Walk}
use libsimulator.Graph.Label.{quote, escape_label}
use libsimulator.Graph.Quoting.{read_string, read_string-escape_label}

abbrev home : Address
home = Address.v4 1

abbrev away : Address
away = Address.v4 2

-- One queue between any two addresses, and a modem each way before the second.
abbrev config : Config
config = record {
  channel_route = λ a b. 50 ∷ [];
  path_mtu = λ a b. 1475;
  hostname_lookup = λ a h. (0, [], no_error);
  mtu_pos = λ a b. omega arith;
}

abbrev first_node : Node
first_node = record { ips = home ∷ []; outgoing = (home, []) ∷ []; incoming = (home, 10 ∷ []) ∷ [] }

abbrev second_node : Node
second_node = record {
  ips = away ∷ [];
  outgoing = (away, 21 ∷ 22 ∷ []) ∷ [];
  incoming = (away, 30 ∷ 31 ∷ []) ∷ [];
}

abbrev nodes : List (ℕ × Node)
nodes = (7, first_node) ∷ (8, second_node) ∷ []

abbrev groups_of : Option (Drawing × List (List Vertex)) → List (List Vertex)
groups_of none = []
groups_of (some r) = r.1

groups :
    groups_of (network_graph config nodes)
    ≡ (sink 10 ∷ endpoint 7 ∷ []) ∷ (sink 22 ∷ sink 21 ∷ sink 31 ∷ sink 30 ∷ endpoint 8 ∷ []) ∷ []
unfolding network_graph connect connect_ips connect_all add_ip add_ips add_services in_loop out_loop
    channel_loop add_incoming egress_of next_hop add_edge add_vertex has_vertex has_edge route_of
    last
groups = refl

nodes-AllRouted : AllRouted nodes
unfolding route_of
nodes-AllRouted =
    ((((10, [], refl), ([], refl)), tt), ((((30, 31 ∷ [], refl), (21 ∷ 22 ∷ [], refl)), tt), tt))

network_graph-edges_example :
    (after : Drawing) × (groups : List (List Vertex)) × (network_graph config nodes
      ≡ some (after, groups))
    × ((e : Edge) → has_edge e after.edges ≡ has_edge e (edges_of config nodes nodes))
network_graph-edges_example = network_graph-edges config nodes nodes-AllRouted

network_graph-Walk_example :
    (after : Drawing) × (groups : List (List Vertex)) × (network_graph config nodes
      ≡ some (after, groups))
    × Walk after.edges (endpoint 8) (endpoint 7)
network_graph-Walk_example =
    network_graph-Walk config nodes nodes-AllRouted (8, second_node) (7, first_node) away home
      (inr (inl refl)) (inl refl) (inl refl) (inl refl)

read_string-escape_label_example :
    read_string (escape_label (codes "the \"edge\"") ++ quote ∷ codes "];")
    ≡ some (codes "the \"edge\"", codes "];")
unfolding codes
read_string-escape_label_example =
    read_string-escape_label (codes "the \"edge\"") (codes "];") (omega arith)
