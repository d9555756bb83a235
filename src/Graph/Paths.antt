-- ===== src/Graph/Paths.antt =====
-- The edges of the graph are the steps of the paths that packets take.
use libsimulator.Base.{
  ◌≡◌, ◌↔◌, inl, inr, refl, ap, ◌∙◌, true, ◌||◌, List, [], ◌∷◌, ◌++◌, some, map, arith, Bool-cases,
  ==_iff,
}
use libsimulator.Net.Hops.{Route}
use libsimulator.Graph.{
  Vertex, sink, endpoint, vertex_eq, Edge, edge_eq, has_edge, add_vertex, add_edge, Drawing,
  add_local, link, in_loop, add_incoming, out_loop, channel_loop,
}

-- The steps of a path.
abbrev pub steps : Vertex → List Vertex → List Edge
steps u [] = []
steps u (v ∷ vs) = (u, v) ∷ steps v vs

abbrev pub path : List Vertex → List Edge
path [] = []
path (v ∷ vs) = steps v vs

abbrev pub sinks : Route → List Vertex
sinks r = map sink r

vertex_eq_iff : (u v : Vertex) → (vertex_eq u v ≡ true) ↔ (u ≡ v)
vertex_eq_iff (sink a) (sink b) = ground (arith, ==_iff a b)
vertex_eq_iff (endpoint a) (endpoint b) = ground (arith, ==_iff a b)
vertex_eq_iff (sink a) (endpoint b) = ground arith
vertex_eq_iff (endpoint a) (sink b) = ground arith

pub edge_eq_iff : (e f : Edge) → (edge_eq e f ≡ true) ↔ (e ≡ f)
edge_eq_iff (a, b) (c, d) = ground (arith, vertex_eq_iff a c, vertex_eq_iff b d)

has_edge-add_edge :
    (e f : Edge) (es : List Edge) → has_edge e (add_edge f es) ≡ (edge_eq f e || has_edge e es)
unfolding add_edge has_edge
has_edge-add_edge e f es = elim (Bool-cases (has_edge f es)) [
  | inr n ↦ rw n
  | inl h ↦ elim (Bool-cases (edge_eq f e)) [
    | inl q ↦ let p = (edge_eq_iff f e).0 q in rw (h, q) (rw p at h)
    | inr q ↦ rw (h, q)
  ]
]

pub has_edge-append :
    (e : Edge) (xs ys : List Edge) → has_edge e (xs ++ ys) ≡ (has_edge e xs || has_edge e ys)
unfolding has_edge
has_edge-append e [] ys = refl
has_edge-append e (x ∷ xs) ys = ground (arith, has_edge-append e xs ys)

-- What the drawing of some paths adds.
pub record Adds (es : List Edge) (g g' : Drawing) : Type 0 where
  pub edges : (e : Edge) → has_edge e g'.edges ≡ (has_edge e es || has_edge e g.edges)

pub Adds-trans :
    {g h k : Drawing} {xs ys : List Edge} → Adds xs g h → Adds ys h k → Adds (xs ++ ys) g k
Adds-trans {g} {h} {k} {xs} {ys} a b = record {
  edges = λ e. ground (arith, a.edges e, b.edges e, has_edge-append e xs ys);
}

pub none-Adds : (g h : Drawing) → h.edges ≡ g.edges → Adds [] g h
unfolding has_edge
none-Adds g h s = record { edges = λ e. ap (has_edge e) s }

link-Adds :
    (u v : Vertex) (g h : Drawing) → h.edges ≡ g.edges → Adds ((u, v) ∷ []) g (link (some u) v h)
unfolding has_edge
link-Adds u v g h s = record {
  edges = λ e. has_edge-add_edge e (u, v) h.edges ∙ ground (arith, ap (has_edge e) s);
}

pub out_loop-Adds :
    (u : Vertex) (r : Route) (g : Drawing) → Adds (steps u (sinks r)) g (out_loop u r g)
unfolding out_loop has_edge
out_loop-Adds u [] g = none-Adds g g refl
out_loop-Adds u (n ∷ ns) g =
    Adds-trans (link-Adds u (sink n) g (add_local (sink n) g) refl)
      (out_loop-Adds (sink n) ns (link (some u) (sink n) (add_local (sink n) g)))

in_loop-Adds :
    (u ep : Vertex) (r : Route) (g : Drawing)
    → Adds
        (steps u (sinks r ++ ep ∷ []))
        g
        (link (in_loop (some u) r g).0 ep (in_loop (some u) r g).1)
unfolding in_loop
in_loop-Adds u ep [] g = link-Adds u ep g g refl
in_loop-Adds u ep (n ∷ ns) g =
    Adds-trans (link-Adds u (sink n) g (add_local (sink n) g) refl)
      (in_loop-Adds (sink n) ep ns (link (some u) (sink n) (add_local (sink n) g)))

pub add_incoming-Adds :
    (ep : Vertex) (r : Route) (g : Drawing)
    → Adds (path (sinks r ++ ep ∷ [])) g (add_incoming ep r g)
unfolding add_incoming in_loop has_edge
add_incoming-Adds ep [] g = none-Adds g g refl
add_incoming-Adds ep (n ∷ ns) g = record {
  edges = (in_loop-Adds (sink n) ep ns (add_local (sink n) g)).edges;
}

pub channel_loop-Adds :
    (u v : Vertex) (r : Route) (g : Drawing)
    → Adds
        (steps u (sinks r ++ v ∷ []))
        g
        (link (some (channel_loop u r g).0) v (channel_loop u r g).1)
unfolding channel_loop
channel_loop-Adds u v [] g = link-Adds u v g g refl
channel_loop-Adds u v (n ∷ ns) g =
    let h = record g { nodes = add_vertex (sink n) g.nodes } in
    Adds-trans (link-Adds u (sink n) g h refl)
      (channel_loop-Adds (sink n) v ns (link (some u) (sink n) h))
