-- ===== src/Graph/Label.antt =====
-- The text that dump_network_graph of simulator.cpp writes, and the labels of sinks: queue::label,
-- nat::label, sink_forwarder::label and that of an io_context.
use libsimulator.Base.{
  ℕ, suc, ◌+◌, ◌-◌, ◌/◌, Bool, List, [], ◌∷◌, ◌++◌, Option, none, some, leb, ◌==◌, if◌then◌else◌,
  take, length,
}
use libsimulator.Net.Address.{Address}
use libsimulator.Http.{Text, to_string}
use libsimulator.Proxy.Url.{codes}
use libsimulator.Graph.{Vertex, Edge, Drawing}

-- A newline and a quote.
abbrev pub newline : ℕ
newline = 10

abbrev pub quote : ℕ
quote = 34

abbrev pub backslash : ℕ
backslash = 92

unfoldable pub escape_label : Text → Text
escape_label [] = []
escape_label (c ∷ n) =
    let ret : Text = escape_label n in
    if c == newline
    then backslash ∷ 110 ∷ ret
    else if c == quote
    then backslash ∷ quote ∷ ret
    else c ∷ ret

-- `p += snprintf(ret + p, sizeof(ret) - p, …)` into 400 characters: what it would have written is
-- counted. Beyond the buffer that is undefined: none.
unfoldable pub print_at : ℕ × Text → Text → Option (ℕ × Text)
print_at (p, ret) s = if leb p 400 then some (p + length s, ret ++ take (399 - p) s) else none

abbrev pub print_if : Bool → Text → Option (ℕ × Text) → Option (ℕ × Text)
print_if skip s none = none
print_if skip s (some r) = if skip then some r else print_at r s

abbrev pub add_rate : ℕ → Option (ℕ × Text) → Option (ℕ × Text)
add_rate bandwidth p =
    print_if (bandwidth == 0)
      (codes "rate: " ++ (to_string (bandwidth / 1000) ++ (codes " kB/s" ++ newline ∷ []))) p

abbrev pub add_size : ℕ → Option (ℕ × Text) → Option (ℕ × Text)
add_size queue_size p =
    print_if (queue_size == 0)
      (codes "queue: " ++ (to_string (queue_size / 1000) ++ (codes " kB" ++ newline ∷ []))) p

-- The latency is in nanoseconds.
abbrev pub add_latency : ℕ → Option (ℕ × Text) → Option (ℕ × Text)
add_latency forwarding_latency p =
    print_if (forwarding_latency == 0)
      (codes "latency: "
        ++ (to_string (forwarding_latency / 1000000) ++ (codes " ms" ++ newline ∷ [])))
      p

abbrev pub printed : Option (ℕ × Text) → Option Text
printed none = none
printed (some r) = some r.1

unfoldable pub queue_label : Text → ℕ → ℕ → ℕ → Option Text
queue_label name bandwidth queue_size forwarding_latency = printed (
    add_latency forwarding_latency
      (add_size queue_size (add_rate bandwidth (print_at (0, []) (name ++ newline ∷ [])))))

module _ (print_address : Address → Text) where
  unfoldable pub nat_label : Address → Text
  nat_label external_addr = codes "NAT [" ++ (print_address external_addr ++ codes "]")

  unfoldable pub endpoint_label : List Address → Text
  endpoint_label [] = []
  endpoint_label (ip ∷ ips) = print_address ip ++ (codes " " ++ endpoint_label ips)

-- sink_forwarder::label, with the label of the sink that it leads to.
unfoldable pub forwarder_label : Option Text → Text
forwarder_label none = []
forwarder_label (some label) = label

abbrev line : Text → Text → Text
line s rest = s ++ newline ∷ rest

abbrev section : Text → Text → Text
section title rest = newline ∷ line title (newline ∷ rest)

module _ (print_pointer label attributes : Vertex → Text) where
  abbrev separator : Text → Text
  separator [] = []
  separator (c ∷ cs) = codes ", "

  unfoldable pub node_line : Text → Vertex → Text
  node_line color n =
      codes " \""
      ++ (print_pointer n
          ++ (codes "\" [label=\""
              ++ (escape_label (label n)
                  ++ (codes "\",style=\"filled\",color=\""
                      ++ (color
                          ++ (codes "\""
                              ++ (separator (attributes n)
                                  ++ (attributes n ++ (codes "];" ++ newline ∷ [])))))))))

  unfoldable pub node_lines : Text → List Vertex → Text
  node_lines color [] = []
  node_lines color (n ∷ ns) = node_line color n ++ node_lines color ns

  -- The groups of local nodes, numbered on.
  unfoldable pub clusters : ℕ → List (List Vertex) → Text
  clusters idx [] = []
  clusters idx (ln ∷ groups) =
      codes "subgraph cluster_"
      ++ (to_string idx
          ++ (codes " {"
              ++ (newline
                  ∷ (node_lines (codes "green") ln
                      ++ (codes "}" ++ (newline ∷ clusters (suc idx) groups))))))

  unfoldable pub edge_lines : List Edge → Text
  edge_lines [] = []
  edge_lines (e ∷ es) =
      codes "\""
      ++ (print_pointer e.0
          ++ (codes "\" -> \"" ++ (print_pointer e.1 ++ (codes "\"" ++ (newline ∷ edge_lines es)))))

  -- The sets are written in the order of the lists.
  unfoldable pub dump : Drawing → List (List Vertex) → Text
  dump g groups = line (codes "digraph network {") (
      line (codes "concentrate=true;") (
        line (codes "overlap=scale;") (
          line (codes "splines=true;") (
            section (codes "// nodes") (
              node_lines (codes "red") g.nodes
              ++ section (codes "// local networks") (
                  clusters 0 groups
                  ++ section (codes "// edges") (edge_lines g.edges ++ line (codes "}") [])))))))
