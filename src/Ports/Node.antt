-- ===== src/Ports/Node.antt =====
-- io_service.cpp: bind_socket and bind_udp_socket of io_context, which choose the address of the node that a
-- socket is bound to and leave the rest to the simulation.
use libsimulator.Base.Errors.{ErrorCode, no_error, address_not_available}
use libsimulator.Base.{
  ℕ, zero, suc, ◌≡◌, refl, sym, subst, ◌+◌, Bool, true, false, not, ◌&&◌, ◌||◌, List, [], ◌∷◌,
  Option, none, some, arith, ltb, ◌==◌, if◌then◌else◌, is_some, if_rule, elim_rule, option_rule,
}
use libsimulator.Net.Address.{
  Address, Endpoint, any_v4, any_v6, no_endpoint, is_v4, address_eq, address_eq_iff,
}
use libsimulator.Ports.{
  Table, Sockets, Bound, find, probe, enter, with_port, following_port, bind_in, bind_socket,
  bind_udp_socket,
}

-- `std::find_if`
unfoldable pub first_of : (Address → Bool) → List Address → Option Address
first_of f [] = none
first_of f (a ∷ as_) = if f a then some a else first_of f as_

-- `std::count(…) > 0`
unfoldable pub is_local : Address → List Address → Bool
is_local a [] = false
is_local a (b ∷ bs) = address_eq b a || is_local a bs

abbrev is_v6 : Address → Bool
is_v6 a = not (is_v4 a)

-- The address that stands for the one asked for.
unfoldable pub local_address : List Address → Address → Option Address
local_address ips a =
    if address_eq a any_v4
    then first_of is_v4 ips
    else if address_eq a any_v6
    then first_of is_v6 ips
    else if is_local a ips
    then some a
    else none

abbrev at_address : Endpoint → Address → Endpoint
at_address ep a = record ep { address = a }

unfoldable pub node_bind_socket :
    List Address → Sockets → ℕ → Endpoint → Sockets × Endpoint × ErrorCode
node_bind_socket ips s socket ep = elim (local_address ips ep.address) [
  | none ↦ (s, no_endpoint, address_not_available)
  | some a ↦ bind_socket s socket (at_address ep a)
]

unfoldable pub node_bind_udp_socket :
    List Address → Sockets → ℕ → Endpoint → Sockets × Endpoint × ErrorCode
node_bind_udp_socket ips s socket ep = elim (local_address ips ep.address) [
  | none ↦ (s, no_endpoint, address_not_available)
  | some a ↦ bind_udp_socket s socket (at_address ep a)
]

first_of-is_local :
    (f : Address → Bool) (ips : List Address) (a : Address)
    → first_of f ips ≡ some a
    → is_local a ips ≡ true
unfolding first_of is_local
first_of-is_local f [] a e = ground arith
first_of-is_local f (b ∷ bs) a e = ground (arith, first_of-is_local f bs a, address_eq_iff b a)

local_address-is_local :
    (ips : List Address) (a b : Address) → local_address ips a ≡ some b → is_local b ips ≡ true
unfolding local_address
local_address-is_local ips a b =
    if_rule (λ (o : Option Address). o ≡ some b → is_local b ips ≡ true) (address_eq a any_v4)
      (λ _. first_of-is_local is_v4 ips b)
      (λ _.
        if_rule (λ (o : Option Address). o ≡ some b → is_local b ips ≡ true) (address_eq a any_v6)
          (λ _. first_of-is_local is_v6 ips b)
          (λ _.
            if_rule (λ (o : Option Address). o ≡ some b → is_local b ips ≡ true) (is_local a ips)
              (λ h e. ground arith) (λ h e. ground arith)))

-- On success the endpoint has this address.
abbrev Lands : Address → Bound → Type 0
Lands a b = b.ec ≡ no_error → b.endpoint.address ≡ a

probe-address :
    (fuel : ℕ) (t : Table) (ep e : Endpoint) → probe fuel t ep ≡ some e → e.address ≡ ep.address
unfolding probe
probe-address zero t ep e = λ h. ground arith
probe-address (suc fuel) t ep e =
    elim_rule (λ (o : Option Endpoint). o ≡ some e → e.address ≡ ep.address) (is_some (find ep t))
      (λ _.
        elim_rule (λ (o : Option Endpoint). o ≡ some e → e.address ≡ ep.address)
          (ltb 65530 (ep.port + 1)) (λ _ h. ground arith)
          (λ _. probe-address fuel t (with_port ep (ep.port + 1)) e))
      (λ _ h. ground arith)

enter-Lands :
    (a : Address) (t : Table) (n socket : ℕ) (o : Option Endpoint)
    → ((e : Endpoint) → o ≡ some e → e.address ≡ a)
    → Lands a (enter t n socket o)
unfolding enter
enter-Lands a t n socket none h = λ e. ground arith
enter-Lands a t n socket (some ep) h =
    if_rule (Lands a) (is_some (find ep t)) (λ _ e. ground arith) (λ _ _. h ep refl)

bind_in-Lands :
    (t : Table) (n socket : ℕ) (ep : Endpoint) → Lands ep.address (bind_in t n socket ep)
unfolding bind_in
bind_in-Lands t n socket ep =
    if_rule (Lands ep.address) (ltb ep.port 1024 && ltb 0 ep.port) (λ _ e. ground arith)
      (λ _.
        if_rule (Lands ep.address) (ep.port == 0)
          (λ _.
            enter-Lands ep.address t (following_port n) socket (probe 65531 t (with_port ep n))
              (λ e h. probe-address 65531 t (with_port ep n) e h))
          (λ _. enter-Lands ep.address t n socket (some ep) (λ e h. ground arith)))

-- A node binds a TCP socket with no error to one of its own addresses only, whatever address and port is
-- asked for.
pub node_bind_socket-is_local :
    (ips : List Address) (s : Sockets) (socket : ℕ) (ep : Endpoint)
    → (node_bind_socket ips s socket ep).2 ≡ no_error
    → is_local (node_bind_socket ips s socket ep).1.address ips ≡ true
unfolding node_bind_socket bind_socket
node_bind_socket-is_local ips s socket ep =
    option_rule
      (λ (r : Sockets × Endpoint × ErrorCode). r.2 ≡ no_error → is_local r.1.address ips ≡ true)
      (local_address ips ep.address) (λ _ e. ground arith)
      (λ a h e.
        subst (λ x. is_local x ips ≡ true)
          (sym (bind_in-Lands s.listen_sockets s.next_bind_port socket (at_address ep a) e))
          (local_address-is_local ips ep.address a h))

-- A node binds a UDP socket with no error to one of its own addresses only, whatever address and port is
-- asked for.
pub node_bind_udp_socket-is_local :
    (ips : List Address) (s : Sockets) (socket : ℕ) (ep : Endpoint)
    → (node_bind_udp_socket ips s socket ep).2 ≡ no_error
    → is_local (node_bind_udp_socket ips s socket ep).1.address ips ≡ true
unfolding node_bind_udp_socket bind_udp_socket
node_bind_udp_socket-is_local ips s socket ep =
    option_rule
      (λ (r : Sockets × Endpoint × ErrorCode). r.2 ≡ no_error → is_local r.1.address ips ≡ true)
      (local_address ips ep.address) (λ _ e. ground arith)
      (λ a h e.
        subst (λ x. is_local x ips ≡ true)
          (sym (bind_in-Lands s.udp_sockets s.next_bind_port socket (at_address ep a) e))
          (local_address-is_local ips ep.address a h))
