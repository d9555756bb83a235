-- ===== src/Graph/Connected.antt =====
-- The graph connects the nodes.
use libsimulator.Base.{
  ℕ, ◌≡◌, ◌⊎◌, inl, inr, refl, subst, ◌∙◌, true, List, [], ◌∷◌, ◌++◌, some, arith, All, take,
  Option-cases,
}
use libsimulator.Net.Address.{Address}
use libsimulator.Net.Hops.{Route, last}
use libsimulator.Network.{Config, Node, route_of}
use libsimulator.Graph.{Vertex, sink, endpoint, Edge, has_edge, Drawing, egress_of, network_graph}
use libsimulator.Graph.Paths.{steps, path, sinks, has_edge-append, edge_eq_iff}
use libsimulator.Graph.Collected.{
  end_of, egress_of-end_of, route_or, edges_to, edges_to_all, edges_from, edges_of, IsRouted,
  AllRouted, network_graph-edges,
}

pub data Walk (es : List Edge) (u : Vertex) : Vertex → Type 0 where
  here : Walk es u u
  onward : {v w : Vertex} → Walk es u v → has_edge (v, w) es ≡ true → Walk es u w

abbrev pub IsIn : {A : Type 0} → A → List A → Type 0
IsIn x [] = ⊥
IsIn x (y ∷ ys) = (y ≡ x) ⊎ IsIn x ys

abbrev Included : List Edge → List Edge → Type 0
Included xs es = (e : Edge) → has_edge e xs ≡ true → has_edge e es ≡ true

left-Included : (xs ys : List Edge) → Included xs (xs ++ ys)
left-Included xs ys e h = rw (has_edge-append e xs ys, h)

right-Included : (xs ys : List Edge) → Included ys (xs ++ ys)
right-Included xs ys e h = ground (arith, has_edge-append e xs ys, h)

Walk-trans : {es : List Edge} {u v w : Vertex} → Walk es u v → Walk es v w → Walk es u w
Walk-trans a here = a
Walk-trans a (onward b h) = onward (Walk-trans a b) h

one-Walk :
    {es : List Edge} (u v : Vertex) (vs : List Vertex)
    → Included (steps u (v ∷ vs)) es
    → Walk es u v
unfolding has_edge
one-Walk u v vs i = onward here (i (u, v) (ground (arith, (edge_eq_iff (u, v) (u, v)).1 refl)))

steps-Walk :
    {es : List Edge} (u v : Vertex) (vs : List Vertex)
    → Included (steps u (vs ++ v ∷ [])) es
    → Walk es u v
unfolding has_edge
steps-Walk u v [] i = one-Walk u v [] i
steps-Walk u v (w ∷ ws) i =
    Walk-trans (one-Walk u w (ws ++ v ∷ []) i) (steps-Walk w v ws (λ e h. i e (ground (arith, h))))

out-Walk :
    {es : List Edge} (u : Vertex) (out : Route) (s : ℕ)
    → last out ≡ some s
    → Included (steps u (sinks out)) es
    → Walk es u (sink s)
unfolding last has_edge
out-Walk u [] s e i = cc
out-Walk {es} u (n ∷ []) s e i =
    let q : n ≡ s = cc in subst (λ m. Walk es u (sink m)) q (one-Walk u (sink n) [] i)
out-Walk u (n ∷ m ∷ ns) s e i =
    Walk-trans (one-Walk u (sink n) (sinks (m ∷ ns)) i)
      (out-Walk (sink n) (m ∷ ns) s e (λ f h. i f (ground (arith, h))))

egress-Walk :
    {es : List Edge} (u : Vertex) (out : Route)
    → Included (steps u (sinks out)) es
    → Walk es u (end_of u (sinks out))
unfolding egress_of
egress-Walk {es} u out i =
    let walk : Walk es u (egress_of u out) = elim (Option-cases (last out)) [
      | inl e ↦ rw (e, egress_of) here
      | inr f ↦ rw (f.1, egress_of) (out-Walk u out f.0 f.1 i)
    ] in
    subst (Walk es u) (egress_of-end_of u out) walk

-- The steps for one member are among those for all.
IsIn-Included :
    {A : Type 0} (f : A → List Edge) (all : List A → List Edge)
    → ((x : A) (xs : List A) → all (x ∷ xs) ≡ f x ++ all xs)
    → (xs : List A) (x : A) → IsIn x xs
    → Included (f x) (all xs)
IsIn-Included f all cons [] x m e h = absurd m
IsIn-Included f all cons (y ∷ ys) x (inl s) e h =
    rw (cons y ys) (left-Included (f y) (all ys) e (rw s h))
IsIn-Included f all cons (y ∷ ys) x (inr m) e h =
    rw (cons y ys) (right-Included (f y) (all ys) e (IsIn-Included f all cons ys x m e h))

module _ (config : Config) (io_services : List (ℕ × Node)) where
  abbrev way_across : Address → Vertex → Node → Address → List Edge
  way_across ip egress ios2 ip2 = steps egress (
      sinks (config.channel_route ip ip2) ++ take 1 (sinks (route_or (route_of ip2 ios2.incoming))))

  abbrev way_in : ℕ → Node → Address → List Edge
  way_in k ioc ip = path (sinks (route_or (route_of ip ioc.incoming)) ++ endpoint k ∷ [])

  abbrev way_out : ℕ → Route → List Edge
  way_out k out = steps (endpoint k) (sinks out)

  abbrev from_ip : ℕ × Node → Address → List Edge
  from_ip a ip =
      let out = route_or (route_of ip a.1.outgoing) in
      way_in a.0 a.1 ip
      ++ (way_out a.0 out ++ edges_to_all config ip (end_of (endpoint a.0) (sinks out)) io_services)

  from_ip-Included :
      (a : ℕ × Node) (ip : Address)
      → IsIn a io_services
      → IsIn ip a.1.ips
      → Included (from_ip a ip) (edges_of config io_services io_services)
  unfolding edges_of edges_from
  from_ip-Included a ip m n e h =
      IsIn-Included (λ (s : ℕ × Node). edges_from config io_services s.0 s.1 s.1.ips)
        (edges_of config io_services) (λ x xs. refl) io_services a m e
        (IsIn-Included (from_ip a) (edges_from config io_services a.0 a.1) (λ x xs. refl) a.1.ips ip
          n e h)

  across-Included :
      (ip : Address) (egress : Vertex) (b : ℕ × Node) (ip2 : Address)
      → IsIn b io_services
      → IsIn ip2 b.1.ips
      → Included (way_across ip egress b.1 ip2) (edges_to_all config ip egress io_services)
  unfolding edges_to_all edges_to
  across-Included ip egress b ip2 m n e h =
      IsIn-Included (λ (s : ℕ × Node). edges_to config ip egress s.1 s.1.ips)
        (edges_to_all config ip egress) (λ x xs. refl) io_services b m e
        (IsIn-Included (way_across ip egress b.1) (edges_to config ip egress b.1) (λ x xs. refl)
          b.1.ips ip2 n e h)

  edges_of-Walk :
      (a b : ℕ × Node) (ip ip2 : Address)
      → IsIn a io_services
      → IsIn ip a.1.ips
      → IsIn b io_services
      → IsIn ip2 b.1.ips
      → IsRouted b.1 ip2
      → Walk (edges_of config io_services io_services) (endpoint a.0) (endpoint b.0)
  edges_of-Walk a b ip ip2 ma na mb nb routed =
      let out = route_or (route_of ip a.1.outgoing) in
      let egress = end_of (endpoint a.0) (sinks out) in
      let into = routed.0 in
      Walk-trans
        (egress-Walk (endpoint a.0) out (λ e h.
          from_ip-Included a ip ma na e
            (right-Included (way_in a.0 a.1 ip) _ e (left-Included (way_out a.0 out) _ e h))))
        (Walk-trans
          (steps-Walk egress (sink into.0) (sinks (config.channel_route ip ip2)) (λ e h.
            from_ip-Included a ip ma na e (
              right-Included (way_in a.0 a.1 ip) _ e (
                right-Included (way_out a.0 out) _ e
                  (across-Included ip egress b ip2 mb nb e (rw into.2 h))))))
          (steps-Walk (sink into.0) (endpoint b.0) (sinks into.1) (λ e h.
            from_ip-Included b ip2 mb nb e (left-Included (way_in b.0 b.1 ip2) _ e (rw into.2 h)))))

Walk-kept : {xs es : List Edge} {u v : Vertex} → Included xs es → Walk xs u v → Walk es u v
Walk-kept i here = here
Walk-kept i (onward w h) = onward (Walk-kept i w) (i _ h)

IsIn-IsRouted :
    (n : Node) (ips : List Address) (ip : Address)
    → All (IsRouted n) ips
    → IsIn ip ips
    → IsRouted n ip
IsIn-IsRouted n [] ip a m = absurd m
IsIn-IsRouted n (x ∷ xs) ip a (inl s) = subst (IsRouted n) s a.0
IsIn-IsRouted n (x ∷ xs) ip a (inr m) = IsIn-IsRouted n xs ip a.1 m

IsIn-AllRouted :
    (services : List (ℕ × Node)) (b : ℕ × Node)
    → AllRouted services
    → IsIn b services
    → All (IsRouted b.1) b.1.ips
IsIn-AllRouted [] b a m = absurd m
IsIn-AllRouted (s ∷ ss) b a (inl e) = subst (λ (t : ℕ × Node). All (IsRouted t.1) t.1.ips) e a.0
IsIn-AllRouted (s ∷ ss) b a (inr m) = IsIn-AllRouted ss b a.1 m

-- In the graph that is drawn, of nodes that all have routes for their addresses both ways, with none
-- to an address empty, a walk along the edges leads from every node with an address to every other.
pub network_graph-Walk :
    (config : Config) (io_services : List (ℕ × Node))
    → AllRouted io_services
    → (a b : ℕ × Node) (ip ip2 : Address) → IsIn a io_services
    → IsIn ip a.1.ips
    → IsIn b io_services
    → IsIn ip2 b.1.ips
    → (after : Drawing) × (groups : List (List Vertex)) × (network_graph config io_services
        ≡ some (after, groups))
      × Walk after.edges (endpoint a.0) (endpoint b.0)
network_graph-Walk config io_services routed a b ip ip2 ma na mb nb =
    let r = network_graph-edges config io_services routed in
    let w =
      edges_of-Walk config io_services a b ip ip2 ma na mb nb
        (IsIn-IsRouted b.1 b.1.ips ip2 (IsIn-AllRouted io_services b routed mb) nb) in
    (r.0, r.1, r.2, Walk-kept (λ e h. r.3 e ∙ h) w)
