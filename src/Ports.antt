-- ===== src/Ports.antt =====
-- The tables of bound sockets in simulation.cpp: bind_socket, unbind_socket, rebind_socket and their
-- UDP twins. A socket is named by a number; a `std::map` from endpoints is an association list in
-- which each endpoint stands once.
pub mod Table
pub mod Probe
pub mod Binding
pub mod Ownership
pub mod Node
mod Tests
use libsimulator.Base.Errors.{ErrorCode, no_error, access_denied, address_in_use}
use libsimulator.Base.{
  ℕ, zero, suc, ◌+◌, ◌%◌, Bool, true, false, ◌&&◌, List, [], ◌∷◌, Option, none, some, ltb, ◌==◌,
  if◌then◌else◌, is_some,
}
use libsimulator.Net.Address.{Endpoint, no_endpoint, endpoint_eq}

abbrev pub Table : Type 0
Table = List (Endpoint × ℕ)

pub record Sockets : Type 0 where
  pub listen_sockets : Table
  pub udp_sockets : Table
  pub next_bind_port : ℕ

-- `find(ep)`, and `lower_bound(ep)` with the test `i->first == ep`
unfoldable pub find : Endpoint → Table → Option ℕ
find ep [] = none
find ep ((e, s) ∷ t) = if endpoint_eq e ep then some s else find ep t

pub erase : Endpoint → Table → Table
erase ep [] = []
erase ep ((e, s) ∷ t) = if endpoint_eq e ep then erase ep t else (e, s) ∷ erase ep t

-- `i->second = s`
pub assign : Endpoint → ℕ → Table → Table
assign ep socket [] = []
assign ep socket ((e, s) ∷ t) =
    if endpoint_eq e ep then (e, socket) ∷ assign ep socket t else (e, s) ∷ assign ep socket t

-- `m_next_bind_port++; if (m_next_bind_port > 65534) m_next_bind_port = 2000`, on 16 bits
pub following_port : ℕ → ℕ
following_port p = let p' = (p + 1) % 65536 in if ltb 65534 p' then 2000 else p'

abbrev pub with_port : Endpoint → ℕ → Endpoint
with_port ep p = record ep { port = p }

-- The loop for port 0: the first free port from this one on, up to 65530. Each round but the last
-- adds one to the port, so 65531 rounds are enough.
pub probe : ℕ → Table → Endpoint → Option Endpoint
probe zero t ep = none
probe (suc fuel) t ep = elim (is_some (find ep t)) [
  | false ↦ some ep
  | true ↦ elim (ltb 65530 (ep.port + 1)) [
    | true ↦ none
    | false ↦ probe fuel t (with_port ep (ep.port + 1))
  ]
]

-- What a bind leaves: the table, the next port, the endpoint and the error code.
pub record Bound : Type 0 where
  pub table : Table
  pub next : ℕ
  pub endpoint : Endpoint
  pub ec : ErrorCode

abbrev pub refuse : Table → ℕ → ErrorCode → Bound
refuse t n ec = record { table = t; next = n; endpoint = no_endpoint; ec = ec }

-- The end of both functions: a bound endpoint is refused, a free one is entered.
pub enter : Table → ℕ → ℕ → Option Endpoint → Bound
enter t n socket none = refuse t n address_in_use
enter t n socket (some ep) =
    if is_some (find ep t)
    then refuse t n address_in_use
    else record { table = (ep, socket) ∷ t; next = n; endpoint = ep; ec = no_error }

-- The text that bind_socket and bind_udp_socket share, on their own table.
pub bind_in : Table → ℕ → ℕ → Endpoint → Bound
bind_in t n socket ep =
    if ltb ep.port 1024 && ltb 0 ep.port
    then refuse t n access_denied
    else if ep.port == 0
    then enter t (following_port n) socket (probe 65531 t (with_port ep n))
    else enter t n socket (some ep)

pub bind_socket : Sockets → ℕ → Endpoint → Sockets × Endpoint × ErrorCode
bind_socket s socket ep =
    let b = bind_in s.listen_sockets s.next_bind_port socket ep in
    (record s { listen_sockets = b.table; next_bind_port = b.next }, b.endpoint, b.ec)

pub bind_udp_socket : Sockets → ℕ → Endpoint → Sockets × Endpoint × ErrorCode
bind_udp_socket s socket ep =
    let b = bind_in s.udp_sockets s.next_bind_port socket ep in
    (record s { udp_sockets = b.table; next_bind_port = b.next }, b.endpoint, b.ec)

-- The entry goes only if it names this socket.
pub unbind_in : Table → ℕ → Endpoint → Table
unbind_in t socket ep = elim (find ep t) [
  | none ↦ t
  | some s ↦ if s == socket then erase ep t else t
]

pub unbind_socket : Sockets → ℕ → Endpoint → Sockets
unfolding unbind_in
unbind_socket s socket ep = record s { listen_sockets = unbind_in s.listen_sockets socket ep }

pub unbind_udp_socket : Sockets → ℕ → Endpoint → Sockets
unfolding unbind_in
unbind_udp_socket s socket ep = record s { udp_sockets = unbind_in s.udp_sockets socket ep }

-- `assert(i != end)` is not part of a release build; there a missing entry is undefined, and here it
-- is none.
pub rebind_socket : Sockets → ℕ → ℕ → Endpoint → Option Sockets
rebind_socket s prev socket ep = elim (find ep s.listen_sockets) [
  | none ↦ none
  | some owner ↦
      some (
        if owner == prev
        then record s { listen_sockets = assign ep socket s.listen_sockets }
        else s)
]

pub rebind_udp_socket : Sockets → ℕ → Endpoint → Option Sockets
rebind_udp_socket s socket ep = elim (find ep s.udp_sockets) [
  | none ↦ none
  | some owner ↦ some (record s { udp_sockets = assign ep socket s.udp_sockets })
]
