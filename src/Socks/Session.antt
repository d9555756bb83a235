-- ===== src/Socks/Session.antt =====
-- socks_server.cpp: the connections that a socks_connection opens for its client. What its sockets come to is an
-- argument: `bound` is the local endpoint of a socket after it was opened and bound, with the error code of that. A
-- reply that fails an assertion is none.
use libsimulator.Base.Errors.{ErrorCode, failed}
use libsimulator.Base.{
  ℕ, ◌+◌, ◌%◌, ◌^◌, Bool, List, [], ◌∷◌, ◌++◌, Option, none, some, ◌==◌, if◌then◌else◌,
}
use libsimulator.Net.Address.{Endpoint, any_v4, no_endpoint}
use libsimulator.Socks.{Bytes, format_response, format_hostname_response}

pub data Effect : Type 0 where
  closed_client closed_server closed_bind closed_relay : Effect
  -- a reply with what follows it: close_connection, start_accept or wait_for_eof
  replied_closing replied_accepting replied_waiting : Bytes → Effect
  -- m_server_connection is opened and connects
  connecting : Endpoint → Effect
  -- m_udp_associate is opened and bound, and receives
  relay_bound : Endpoint → Effect
  relay_receiving : Effect
  -- m_bind_socket is opened and bound, and listens and accepts
  bind_bound : Endpoint → Effect
  accepting : Effect
  -- async_read_some for on_client_receive and for wait_for_eof
  reading_client waiting_client : Effect

pub record Session : Type 0 where
  pub version : ℕ
  pub udp_associate_ep : Endpoint
  -- m_bind_port, which the connections of a server share
  pub bind_port : ℕ
  -- the two flags
  pub responds_hostname : Bool
  pub disconnects : Bool
  pub log : List Effect

abbrev pub emit : Session → Effect → Session
emit s e = record s { log = s.log ++ e ∷ [] }

unfoldable pub close_connection : Session → Session
close_connection s = record s { log = s.log ++ closed_client ∷ closed_server ∷ closed_bind ∷ [] }

unfoldable pub open_forward_connection : Session → Endpoint → Session
open_forward_connection s target = emit s (connecting target)

-- The reply "host unreachable", with an address and a port of zeros.
abbrev pub unreachable : Session → Bytes
unreachable s = s.version % 256 ∷ 4 ∷ 0 ∷ 1 ∷ 0 ∷ 0 ∷ 0 ∷ 0 ∷ 0 ∷ 0 ∷ []

unfoldable pub on_request_domain_lookup : Session → ErrorCode → List Endpoint → Session
on_request_domain_lookup s ec ips =
    if failed ec then emit s (replied_closing (unreachable s)) else elim ips [
      | [] ↦ emit s (replied_closing (unreachable s))
      | ip ∷ rest ↦ open_forward_connection s ip
    ]

abbrev pub bind_response : ℕ → ErrorCode → ℕ
bind_response version ec =
    if failed ec then if version == 4 then 91 else 1 else if version == 4 then 90 else 0

unfoldable pub bind_connection : Session → Endpoint → Endpoint × ErrorCode → Option Session
bind_connection s target bound =
    let (ep, ec) = bound in
    let s1 = emit s (bind_bound target) in
    elim (format_response s.version ep.address ep.port (bind_response s.version ec)) [
      | none ↦ none
      | some reply ↦
          some (emit s1 (if failed ec then replied_closing reply else replied_accepting reply))
    ]

-- `std::uint16_t(m_bind_port++)`
abbrev pub relay_endpoint : Session → Endpoint
relay_endpoint s = record { address = any_v4; port = s.bind_port % 2 ^ 16 }

-- "foobar"
abbrev pub foobar : Bytes
foobar = 102 ∷ 111 ∷ 111 ∷ 98 ∷ 97 ∷ 114 ∷ []

abbrev pub associate_reply : Session → Endpoint → ErrorCode → Option Bytes
associate_reply s ep ec =
    let response : ℕ = if failed ec then 1 else 0 in
    if s.responds_hostname
    then some (format_hostname_response s.version foobar ep.port response)
    else format_response s.version ep.address ep.port response

unfoldable pub udp_associate : Session → Endpoint → Endpoint × ErrorCode → Option Session
udp_associate s target bound =
    let (ep, ec) = bound in
    let s1 =
      emit (record s { udp_associate_ep = target; bind_port = s.bind_port + 1 })
        (relay_bound (relay_endpoint s)) in
    let s2 = if failed ec then s1 else emit s1 relay_receiving in
    elim (associate_reply s ep ec) [
      | none ↦ none
      | some reply ↦
          some (emit s2 (if failed ec then replied_closing reply else replied_waiting reply))
    ]

unfoldable pub wait_for_eof : Session → ErrorCode → Session
wait_for_eof s ec =
    if failed ec
    then record s {
      udp_associate_ep = no_endpoint;
      log = s.log ++ closed_relay ∷ closed_client ∷ [];
    }
    else if s.disconnects
    then emit s closed_client
    else emit s waiting_client

unfoldable pub start_accept : Session → ErrorCode → Session
start_accept s ec =
    if failed ec
    then close_connection s
    else record s { log = s.log ++ accepting ∷ reading_client ∷ [] }

-- "CONNECT", "BIND", "UDP_ASSOCIATE" and "UNKNOWN"
pub data Command : Type 0 where
  connects binds associates unknown : Command

unfoldable pub command : ℕ → Command
command n =
    if n == 1 then connects else if n == 2 then binds else if n == 3 then associates else unknown
