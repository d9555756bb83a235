-- ===== src/Socks/Reply.antt =====
-- The messages of the proxy read back.
use libsimulator.Base.Errors.{no_error}
use libsimulator.Base.{
  ℕ, ◌≡◌, ◌<◌, refl, ap, ◌∙◌, ◌+◌, ◌*◌, ◌/◌, ◌%◌, ◌^◌, [], ◌∷◌, ◌++◌, none, some, arith, length,
  take, drop,
}
use libsimulator.Net.Address.{Address, Endpoint}
use libsimulator.Socks.{
  Bytes, address_octets, octets, number16, port_octets, format_response, on_request1, request_v5,
  request_ipv4, connects,
}
use libsimulator.Socks.Relay.{relay_outgoing, relay_incoming, to_name, to_address}

number16_lem : (n : ℕ) → n < 65536 → (n / 256 % 256) * 256 + n % 256 ≡ n
number16_lem n h = omega arith

number32_lem :
    (n : ℕ)
    → n < 2 ^ 32
    → ((n / 256 / 256 / 256 % 256) * 256 + n / 256 / 256 % 256) * 65536
        + ((n / 256 % 256) * 256 + n % 256)
      ≡ n
number32_lem n h = omega arith

endpoint_lem :
    {a b p q : ℕ}
    → a ≡ b
    → p ≡ q
    → ◌≡◌ {A = Endpoint}
        (record { address = Address.v4 a; port = p })
        (record { address = Address.v4 b; port = q })
endpoint_lem {a} {b} {p} {q} e f =
    ap (λ x. record { address = Address.v4 x; port = p }) e
    ∙ ap (λ x. record { address = Address.v4 b; port = x }) f

-- A reply of version 5 about an IPv4 address has the layout of a request: with the code 1, which stands for
-- CONNECT there, it is read as a request to connect to exactly this address and port.
pub on_request1-format_response :
    (a port : ℕ) (remote : Address)
    → a < 2 ^ 32
    → port < 65536
    → (request : Bytes) × (format_response 5 (Address.v4 a) port 1 ≡ some request)
      × (on_request1 5 request remote no_error 10
          ≡ connects (record { address = Address.v4 a; port = port }))
unfolding format_response on_request1 request_v5 request_ipv4
on_request1-format_response a port remote ha hp = (
  5 ∷ 1 ∷ 0 ∷ (address_octets (Address.v4 a) ++ port_octets port),
  refl,
  ap connects (endpoint_lem (number32_lem a ha) (number16_lem port hp)),
)

-- What the relay sends to the client about a packet from an IPv4 address that no name stands for, it reads, when
-- the client sends it back, as the same bytes for this address and port.
pub relay_outgoing-relay_incoming :
    (a port : ℕ) (payload : Bytes)
    → a < 2 ^ 32
    → port < 65536
    → (packet : Bytes) × (relay_incoming none (Address.v4 a) port payload ≡ some packet)
      × (relay_outgoing packet
          ≡ to_address (record { address = Address.v4 a; port = port }) payload)
unfolding relay_outgoing relay_incoming
relay_outgoing-relay_incoming a port payload ha hp = (
  0 ∷ 0 ∷ 0 ∷ 1 ∷ (octets 4 a ++ (port_octets port ++ payload)),
  refl,
  ap (λ t. to_address t payload) (endpoint_lem (number32_lem a ha) (number16_lem port hp)),
)

take-length : (xs ys : Bytes) → take (length xs) (xs ++ ys) ≡ xs
take-length [] ys = refl
take-length (x ∷ xs) ys = ap (x ∷◌) (take-length xs ys)

drop-length : (xs ys : Bytes) → drop (length xs) (xs ++ ys) ≡ ys
drop-length [] ys = refl
drop-length (x ∷ xs) ys = drop-length xs ys

-- What the relay sends to the client about a packet from an address that a name of less than 256 bytes stands
-- for, it reads, when the client sends it back, as the same bytes for this name and port.
pub relay_outgoing-relay_incoming_name :
    (name : Bytes) (addr : Address) (port : ℕ) (payload : Bytes)
    → length name < 256
    → port < 65536
    → (packet : Bytes) × (relay_incoming (some name) addr port payload ≡ some packet)
      × (relay_outgoing packet ≡ to_name name port payload)
unfolding relay_outgoing relay_incoming
relay_outgoing-relay_incoming_name name addr port payload hn hp =
    let after = port_octets port ++ payload in
    let read = λ (k : ℕ) (d : Bytes). to_name (take k (name ++ after)) (number16 d 0) (drop 2 d) in
    (
      0 ∷ 0 ∷ 0 ∷ 3 ∷ (length name % 256) ∷ (name ++ (port_octets port ++ payload)),
      refl,
      ap (λ k. read k (drop k (name ++ after))) (omega (arith, hn))
          ∙ ap
              (λ n.
                to_name n (number16 (drop (length name) (name ++ after)) 0)
                  (drop 2 (drop (length name) (name ++ after))))
              (take-length name after)
          ∙ ap (λ d. to_name name (number16 d 0) (drop 2 d)) (drop-length name after)
          ∙ ap (λ p. to_name name p payload) (number16_lem port hp),
    )
