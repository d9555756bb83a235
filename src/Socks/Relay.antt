-- ===== src/Socks/Relay.antt =====
-- The UDP relay of socks_server.cpp, on_read_udp: the packets of the client and those for it.
use libsimulator.Socks.{Bytes, byte, number16, target_at, octets, port_octets}
use libsimulator.Base.Errors.{ErrorCode, failed}
use libsimulator.Base.{
  ℕ, ◌%◌, Bool, true, false, not, ◌&&◌, ◌∷◌, ◌++◌, Option, none, some, ◌==◌, if◌then◌else◌, length,
  take, drop,
}
use libsimulator.Net.Address.{Address, Endpoint, address_eq, endpoint_eq}

-- A packet that the UDP relay takes from the client: to whom it goes, and the payload.
pub data Relay : Type 0 where
  to_address : Endpoint → Bytes → Relay
  to_name : Bytes → ℕ → Bytes → Relay
  unsupported : Relay

-- The header of a packet from the client. The length of a name is a char: 128 and more is negative
-- in the source, and not modelled.
unfoldable pub relay_outgoing : Bytes → Relay
relay_outgoing buf =
    if byte buf 3 == 3
    then (let rest = drop (byte buf 4) (drop 5 buf) in
        to_name (take (byte buf 4) (drop 5 buf)) (number16 rest 0) (drop 2 rest))
    else if byte buf 3 == 1
    then to_address (target_at buf 4 8) (drop 10 buf)
    else unsupported

-- The packet for the client: from an address that a name stands for, or from any other.
-- `to_v4` of an address of version 6 throws: none.
unfoldable pub relay_incoming : Option Bytes → Address → ℕ → Bytes → Option Bytes
relay_incoming (some name) addr port payload =
    some (0 ∷ 0 ∷ 0 ∷ 3 ∷ (length name % 256) ∷ (name ++ (port_octets port ++ payload)))
relay_incoming none (Address.v4 a) port payload =
    some (0 ∷ 0 ∷ 0 ∷ 1 ∷ (octets 4 a ++ (port_octets port ++ payload)))
relay_incoming none (Address.v6 a) port payload = none

-- The endpoint that the client sends from: the port of its first packet, if it named none.
unfoldable pub client_endpoint : Endpoint → Endpoint → Endpoint
client_endpoint associated from =
    if associated.port == 0 && address_eq from.address associated.address
    then record associated { port = from.port }
    else associated

-- on_read_udp: what is sent, and whether the next packet is waited for. A packet to a name that was
-- looked up before returns early.
pub data Relayed : Type 0 where
  outgoing : Relay → Relayed
  incoming : Endpoint → Option Bytes → Relayed
  nothing : Relayed

-- A name that was looked up before is replaced by its address.
abbrev pub mapped : (Bytes → Option Address) → Relay → Relay
mapped names (to_name n port bytes) = elim (names n) [
  | none ↦ to_name n port bytes
  | some a ↦ to_address (record { address = a; port = port }) bytes
]
mapped names (to_address ep bytes) = to_address ep bytes
mapped names unsupported = unsupported

abbrev pub is_known_name : (Bytes → Option Address) → Relay → Bool
is_known_name names (to_name n port bytes) = elim (names n) [ none ↦ false | some a ↦ true ]
is_known_name names _ = false

unfoldable pub on_read_udp :
    Endpoint
    → Endpoint
    → (Bytes → Option Address)
    → (Address → Option Bytes)
    → ErrorCode
    → Bytes
    → Endpoint × Relayed × Bool
on_read_udp associated from names by_address ec buf =
    let ep = client_endpoint associated from in
    if failed ec
    then (associated, nothing, false)
    else if endpoint_eq from ep
    then (
      ep,
      outgoing (mapped names (relay_outgoing buf)),
      not (is_known_name names (relay_outgoing buf)),
    )
    else (
      ep,
      incoming ep (relay_incoming (by_address from.address) from.address from.port buf),
      true,
    )
