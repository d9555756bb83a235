-- ===== src/Network/Nodes.antt =====
-- The nodes of a simulation: the constructor of io_context, which asks the configuration for its routes, and the
-- set of nodes in simulation.cpp. A node is named by a number.
use libsimulator.Base.{ℕ, Bool, false, List, [], ◌∷◌, Option, none, some, ◌==◌, ◌||◌, if◌then◌else◌}
use libsimulator.Net.Address.{Address, address_eq}
use libsimulator.Net.Hops.{Route}
use libsimulator.Network.{Node}

-- `m_outgoing_route[ip] = …`
unfoldable pub set_route : Address → Route → List (Address × Route) → List (Address × Route)
set_route a r [] = (a, r) ∷ []
set_route a r ((b, s) ∷ m) = if address_eq b a then (b, r) ∷ m else (b, s) ∷ set_route a r m

-- The two functions are outgoing_route and incoming_route of a configuration with this state.
module _ {C : Type 0} (outgoing incoming : C → Address → C × Route) where
  -- The loop over the addresses.
  unfoldable pub ask_routes : C → List Address → Node → C × Node
  ask_routes c [] n = (c, n)
  ask_routes c (ip ∷ ips) n =
      let (c1, out) = outgoing c ip in
      let (c2, into) = incoming c1 ip in
      ask_routes c2 ips (record n {
        outgoing = set_route ip out n.outgoing;
        incoming = set_route ip into n.incoming;
      })

  unfoldable pub new_node : C → List Address → C × Node
  new_node c ips = ask_routes c ips (record { ips = ips; outgoing = []; incoming = [] })

unfoldable pub has_node : ℕ → List ℕ → Bool
has_node i [] = false
has_node i (j ∷ nodes) = j == i || has_node i nodes

-- `assert(added)` fails in the case of none.
unfoldable pub add_io_service : ℕ → List ℕ → Option (List ℕ)
add_io_service i nodes = if has_node i nodes then none else some (i ∷ nodes)

unfoldable pub erase_node : ℕ → List ℕ → List ℕ
erase_node i [] = []
erase_node i (j ∷ nodes) = if j == i then nodes else j ∷ erase_node i nodes

-- `assert(it != m_nodes.end())` fails in the case of none.
unfoldable pub remove_io_service : ℕ → List ℕ → Option (List ℕ)
remove_io_service i nodes = if has_node i nodes then some (erase_node i nodes) else none

-- The nodes that have an address, in the order of the set.
unfoldable pub get_all_io_services : (ℕ → Node) → List ℕ → List ℕ
get_all_io_services node [] = []
get_all_io_services node (i ∷ nodes) =
    let rest = get_all_io_services node nodes in
    elim (node i).ips [ [] ↦ rest | ip ∷ ips ↦ i ∷ rest ]
