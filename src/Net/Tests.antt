-- ===== src/Net/Tests.antt =====
-- Instances of the theorems about hops and channels.
use libsimulator.Base.{ℕ, ◌≡◌, refl, none, some, [], ◌∷◌}
use libsimulator.Net.Address.{Address, Endpoint}
use libsimulator.Net.Packet.{Packet, new_packet}
use libsimulator.Net.Hops.{
  Channel, nat_incoming, append, prepend, replace_last, forward_packet, forwarder_incoming,
}

abbrev client : Endpoint
client = record { address = Address.v4 1; port = 2000 }

abbrev server : Endpoint
server = record { address = Address.v4 2; port = 8080 }

abbrev connection : Channel
connection = record {
  hops0 = [];
  hops1 = [];
  ep0 = client;
  ep1 = server;
  visible_ep0 = client;
  visible_ep1 = server;
  bytes_sent0 = 0;
  bytes_sent1 = 0;
}

abbrev routed : Packet
routed = record new_packet { hops = append (3 ∷ []) (4 ∷ 5 ∷ []) }

hops_in_order :
    (forward_packet routed ≡ some (3, record routed { hops = 4 ∷ 5 ∷ [] }))
    × (prepend (4 ∷ []) (3 ∷ []) ≡ 3 ∷ 4 ∷ [])
    × (replace_last (3 ∷ 4 ∷ []) 9 ≡ some (3 ∷ 9 ∷ []))
    × (forwarder_incoming none routed ≡ none)
unfolding append prepend replace_last forward_packet forwarder_incoming
hops_in_order = (refl, refl, refl, refl)

abbrev translated : (ℕ → Channel) × Packet
translated = nat_incoming (Address.v4 7) (λ c. connection) (record new_packet { channel = some 1 })
