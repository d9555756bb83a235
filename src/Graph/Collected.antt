-- ===== src/Graph/Collected.antt =====
-- The whole graph: its edges are the steps of the routes into each node, out of it, and from it
-- through the channel to every address.
use libsimulator.Base.{ℕ, ◌≡◌, refl, List, [], ◌∷◌, ◌++◌, Option, none, some, arith, All, take}
use libsimulator.Net.Address.{Address}
use libsimulator.Net.Hops.{Route, last}
use libsimulator.Network.{Config, Node, route_of}
use libsimulator.Graph.{
  Vertex, sink, endpoint, Edge, has_edge, Drawing, next_hop, out_loop, add_incoming, channel_loop,
  egress_of, link, connect, connect_ips, connect_all, add_ip, add_ips, add_services, network_graph,
}
use libsimulator.Graph.Paths.{
  steps, path, sinks, Adds, Adds-trans, none-Adds, out_loop-Adds, add_incoming-Adds,
  channel_loop-Adds,
}

-- Where a path ends that starts at this vertex and goes through these.
abbrev pub end_of : Vertex → List Vertex → Vertex
end_of v [] = v
end_of v (u ∷ us) = end_of u us

egress_of-cons :
    (v : Vertex) (s : ℕ) (out : Route) → egress_of v (s ∷ out) ≡ end_of (sink s) (sinks out)
unfolding egress_of last
egress_of-cons v s [] = refl
egress_of-cons v s (t ∷ out) = egress_of-cons v t out

pub egress_of-end_of : (v : Vertex) (out : Route) → egress_of v out ≡ end_of v (sinks out)
unfolding egress_of last
egress_of-end_of v [] = refl
egress_of-end_of v (s ∷ out) = egress_of-cons v s out

-- The route that a node has for an address, or none.
abbrev pub route_or : Option Route → Route
route_or none = []
route_or (some r) = r

module _ (config : Config) where
  -- The steps to one address of a node, to all of them, and to those of all nodes.
  unfoldable pub edges_to : Address → Vertex → Node → List Address → List Edge
  edges_to ip egress ios2 [] = []
  edges_to ip egress ios2 (ip2 ∷ ips) =
      steps egress (
        sinks (config.channel_route ip ip2)
        ++ take 1 (sinks (route_or (route_of ip2 ios2.incoming))))
      ++ edges_to ip egress ios2 ips

  unfoldable pub edges_to_all : Address → Vertex → List (ℕ × Node) → List Edge
  edges_to_all ip egress [] = []
  edges_to_all ip egress ((j, ios2) ∷ services) =
      edges_to ip egress ios2 ios2.ips ++ edges_to_all ip egress services

  module _ (io_services : List (ℕ × Node)) where
    -- The steps that the addresses of one node give.
    unfoldable pub edges_from : ℕ → Node → List Address → List Edge
    edges_from k ioc [] = []
    edges_from k ioc (ip ∷ ips) =
        let out = route_or (route_of ip ioc.outgoing) in
        (path (sinks (route_or (route_of ip ioc.incoming)) ++ endpoint k ∷ [])
          ++ (steps (endpoint k) (sinks out)
              ++ edges_to_all ip (end_of (endpoint k) (sinks out)) io_services))
        ++ edges_from k ioc ips

    unfoldable pub edges_of : List (ℕ × Node) → List Edge
    edges_of [] = []
    edges_of ((k, ioc) ∷ services) = edges_from k ioc ioc.ips ++ edges_of services

-- A node has a route for the address both ways, and the one to it is not empty.
abbrev pub IsRouted : Node → Address → Type 0
IsRouted n ip =
    ((first : ℕ) × (rest : Route) × (route_of ip n.incoming ≡ some (first ∷ rest)))
    × ((out : Route) × (route_of ip n.outgoing ≡ some out))

abbrev pub AllRouted : List (ℕ × Node) → Type 0
AllRouted services = All (λ s. All (IsRouted s.1) s.1.ips) services

-- The drawing succeeds, and adds the edges.
record Drawn (es : List Edge) (g : Drawing) (r : Option Drawing) : Type 0 where
  after : Drawing
  ok : r ≡ some after
  adds : Adds es g after

abbrev steps_to : Config → Address → Vertex → Node → Address → List Edge
steps_to config ip egress ios2 ip2 =
    steps egress (
      sinks (config.channel_route ip ip2) ++ take 1 (sinks (route_or (route_of ip2 ios2.incoming))))

connect-Drawn :
    (config : Config) (ip : Address) (egress : Vertex) (ios2 : Node) (ip2 : Address) (g : Drawing)
    → IsRouted ios2 ip2
    → Drawn (steps_to config ip egress ios2 ip2) g (connect config ip egress ios2 ip2 g)
unfolding connect next_hop
connect-Drawn config ip egress ios2 ip2 g a =
    let into = a.0 in
    record {
      after =
          link (some (channel_loop egress (config.channel_route ip ip2) g).0) (sink into.0)
            (channel_loop egress (config.channel_route ip ip2) g).1;
      ok = ground (arith, into.2);
      adds = rw into.2 (channel_loop-Adds egress (sink into.0) (config.channel_route ip ip2) g);
    }

-- One drawing after another.
then-Drawn :
    {xs ys : List Edge} {g : Drawing} {r : Option Drawing} {f : Drawing → Option Drawing}
    → Drawn xs g r
    → ((h : Drawing) → Drawn ys h (f h))
    → Drawn (xs ++ ys) g (elim r [ none ↦ none | some h ↦ f h ])
then-Drawn {f = f} d next =
    let n = next d.after in
    record { after = n.after; ok = rw d.ok n.ok; adds = Adds-trans d.adds n.adds }

none-Drawn : (g : Drawing) → Drawn [] g (some g)
none-Drawn g = record { after = g; ok = refl; adds = none-Adds g g refl }

module _ (config : Config) (ip : Address) (egress : Vertex) where
  connect_ips-Drawn :
      (ios2 : Node) (ips : List Address) (g : Drawing)
      → All (IsRouted ios2) ips
      → Drawn (edges_to config ip egress ios2 ips) g (connect_ips config ip egress ios2 ips g)
  unfolding connect_ips edges_to
  connect_ips-Drawn ios2 [] g a = none-Drawn g
  connect_ips-Drawn ios2 (ip2 ∷ ips) g a =
      then-Drawn (connect-Drawn config ip egress ios2 ip2 g a.0)
        (λ h. connect_ips-Drawn ios2 ips h a.1)

  connect_all-Drawn :
      (services : List (ℕ × Node)) (g : Drawing)
      → AllRouted services
      → Drawn (edges_to_all config ip egress services) g (connect_all config ip egress services g)
  unfolding connect_all edges_to_all
  connect_all-Drawn [] g a = none-Drawn g
  connect_all-Drawn ((j, ios2) ∷ services) g a =
      then-Drawn (connect_ips-Drawn ios2 ios2.ips g a.0) (λ h. connect_all-Drawn services h a.1)

module _ (config : Config) (io_services : List (ℕ × Node)) (routed : AllRouted io_services) where
  add_ips-Drawn :
      (k : ℕ) (ioc : Node) (ips : List Address) (g : Drawing)
      → All (IsRouted ioc) ips
      → Drawn (edges_from config io_services k ioc ips) g (add_ips config io_services k ioc ips g)
  unfolding add_ips add_ip edges_from
  add_ips-Drawn k ioc [] g a = none-Drawn g
  add_ips-Drawn k ioc (ip ∷ ips) g a = then-Drawn (one a.0) (λ h. add_ips-Drawn k ioc ips h a.1)
    where
      one :
          IsRouted ioc ip
          → Drawn
              (let out = route_or (route_of ip ioc.outgoing) in
                path (sinks (route_or (route_of ip ioc.incoming)) ++ endpoint k ∷ [])
                ++ (steps (endpoint k) (sinks out)
                    ++ edges_to_all config ip (end_of (endpoint k) (sinks out)) io_services))
              g
              (add_ip config io_services k ioc ip g)
      one ((first, rest, into), (out, goes)) =
          let h = add_incoming (endpoint k) (first ∷ rest) g in
          let d =
            connect_all-Drawn config ip (end_of (endpoint k) (sinks out)) io_services
              (out_loop (endpoint k) out h) routed in
          rw (into, goes)
            record {
              after = d.after;
              ok = rw (into, goes, add_ip, egress_of-end_of (endpoint k) out) d.ok;
              adds =
                  Adds-trans (add_incoming-Adds (endpoint k) (first ∷ rest) g)
                    (Adds-trans (out_loop-Adds (endpoint k) out h) d.adds);
            }

  -- The loop over the nodes, whatever groups of local nodes it collects.
  add_services-Drawn :
      (services : List (ℕ × Node)) (g : Drawing) (groups : List (List Vertex))
      → AllRouted services
      → (after : Drawing) × (all : List (List Vertex)) × (add_services config io_services services g
            groups
          ≡ some (after, all))
        × Adds (edges_of config io_services services) g after
  unfolding add_services edges_of
  add_services-Drawn [] g groups a = (g, groups, refl, none-Adds g g refl)
  add_services-Drawn ((k, ioc) ∷ services) g groups a =
      let h = record g { back = endpoint k ∷ [] } in
      let d = add_ips-Drawn k ioc ioc.ips h a.0 in
      let r = add_services-Drawn services d.after (groups ++ d.after.back ∷ []) a.1 in
      (r.0, r.1, rw (d.ok, add_services) r.2, Adds-trans (record { edges = d.adds.edges }) r.3)

-- When every node has a route for each of its addresses both ways, and none to it is empty, the graph
-- is drawn, and its edges are exactly the steps of the routes: from sink to sink into each node, out
-- of it, and from the last sink on the way out through the channel to the first sink on the way into
-- every address of every node.
pub network_graph-edges :
    (config : Config) (io_services : List (ℕ × Node))
    → AllRouted io_services
    → (after : Drawing) × (groups : List (List Vertex)) × (network_graph config io_services
        ≡ some (after, groups))
      × ((e : Edge) → has_edge e after.edges ≡ has_edge e (edges_of config io_services io_services))
unfolding network_graph has_edge
network_graph-edges config io_services routed =
    let r = add_services-Drawn config io_services routed io_services _ [] routed in
    (r.0, r.1, r.2, λ e. ground (arith, r.3.edges e))
