-- ===== src/Socks.antt =====
-- socks_server.cpp: what a socks_connection makes of the bytes of its client. A byte is a number
-- below 256, where the source has it as a char that it masks with 0xff or compares.
pub mod Relay
pub mod Session
pub mod Reply
mod Tests
use libsimulator.Base.Errors.{ErrorCode, no_error, failed, operation_aborted, bad_descriptor}
use libsimulator.Base.{
  ℕ, zero, suc, ◌+◌, ◌-◌, ◌*◌, ◌/◌, ◌%◌, Bool, true, false, not, ◌&&◌, ◌||◌, List, [], ◌∷◌, ◌++◌,
  Option, none, some, ltb, leb, ◌==◌, if◌then◌else◌, length, take, drop, get_or, count,
}
use libsimulator.Net.Address.{Address, Endpoint, any_v4, address_eq, endpoint_eq}

abbrev pub Bytes : Type 0
Bytes = List ℕ

-- What the connection does next.
pub data Action : Type 0 where
  -- async_read of this many bytes into the buffer from this offset
  reads : ℕ → ℕ → Action
  -- async_write of these bytes
  writes : Bytes → Action
  -- close_connection
  closes : Action
  -- open_forward_connection, bind_connection and udp_associate
  connects binds associates : Endpoint → Action
  -- async_resolve of a name and a port
  resolves : Bytes → ℕ → Action
  -- a read of a length that is negative in the source
  underflows : Action

abbrev pub byte : Bytes → ℕ → ℕ
byte buf i = get_or buf i 0

-- Two bytes and four bytes in network order.
abbrev pub number16 : Bytes → ℕ → ℕ
number16 buf i = byte buf i * 256 + byte buf (i + 1)

abbrev pub number32 : Bytes → ℕ → ℕ
number32 buf i = number16 buf i * 65536 + number16 buf (i + 2)

-- start
unfoldable pub start : ℕ → Action
start version = if version == 4 then reads 0 9 else reads 0 2

unfoldable pub on_handshake1 : Bytes → ErrorCode → ℕ → Action
on_handshake1 buf ec transferred =
    if failed ec || not (transferred == 2)
    then closes
    else if not (byte buf 0 == 4) && not (byte buf 0 == 5)
    then closes
    else reads 0 (byte buf 1)

unfoldable pub on_handshake2 : Bytes → ErrorCode → ℕ → Action
on_handshake2 buf ec transferred =
    if failed ec
    then closes
    else if count 0 (take transferred buf) == 0
    then closes
    else writes (5 ∷ 0 ∷ [])

unfoldable pub on_handshake3 : ErrorCode → ℕ → Action
on_handshake3 ec transferred = if failed ec || not (transferred == 2) then closes else reads 0 10

abbrev pub target_at : Bytes → ℕ → ℕ → Endpoint
target_at buf addr port = record {
  address = Address.v4 (number32 buf addr);
  port = number16 buf port;
}

-- on_request1 for version 4.
unfoldable pub request_v4 : Bytes → Action
request_v4 buf =
    if not (byte buf 1 == 1) && not (byte buf 1 == 2)
    then closes
    else if not (byte buf 8 == 0)
    then closes
    else if byte buf 1 == 1
    then connects (target_at buf 4 2)
    else binds (target_at buf 4 2)

-- `if (target.address() == address()) target.address(remote)`
abbrev pub default_address : Endpoint → Address → Endpoint
default_address target remote =
    if address_eq target.address any_v4 then record target { address = remote } else target

-- The case of an IPv4 address, with the address of the client.
unfoldable pub request_ipv4 : Bytes → Address → Action
request_ipv4 buf remote =
    if byte buf 1 == 1
    then connects (target_at buf 4 8)
    else if byte buf 1 == 2
    then binds (target_at buf 4 8)
    else associates (default_address (target_at buf 4 8) remote)

-- The case of a domain name: `additional_bytes` is `len - 3`.
unfoldable pub request_name : Bytes → Action
request_name buf =
    if byte buf 1 == 2
    then closes
    else if ltb (byte buf 4) 3
    then underflows
    else reads 10 (byte buf 4 - 3)

unfoldable pub request_v5 : Bytes → Address → Action
request_v5 buf remote =
    if not (byte buf 1 == 1) && (not (byte buf 1 == 2) && not (byte buf 1 == 3))
    then closes
    else if not (byte buf 2 == 0)
    then closes
    else if byte buf 3 == 1
    then request_ipv4 buf remote
    else if byte buf 3 == 3
    then request_name buf
    else closes

-- on_request1 behind the counting of the command.
unfoldable pub on_request1 : ℕ → Bytes → Address → ErrorCode → ℕ → Action
on_request1 version buf remote ec transferred =
    if failed ec || not (transferred == (if version == 4 then 9 else 10))
    then closes
    else if not (byte buf 0 == version)
    then closes
    else if version == 4
    then request_v4 buf
    else request_v5 buf remote

unfoldable pub on_request_domain_name : Bytes → ErrorCode → ℕ → Action
on_request_domain_name buf ec transferred =
    if failed ec
    then closes
    else resolves (take (byte buf 4) (drop 5 buf)) (number16 buf (8 + transferred))

-- `to_bytes` of an address.
abbrev pub octets : ℕ → ℕ → Bytes
octets zero n = []
octets (suc k) n = octets k (n / 256) ++ n % 256 ∷ []

-- `(port >> 8) & 0xff` and `port & 0xff`
abbrev pub port_octets : ℕ → Bytes
port_octets port = octets 2 port

abbrev pub address_octets : Address → Bytes
address_octets (Address.v4 a) = 1 ∷ octets 4 a
address_octets (Address.v6 a) = 4 ∷ octets 16 a

-- format_response. A reply of version 4 to an address of version 6 fails an assertion: none.
unfoldable pub format_response : ℕ → Address → ℕ → ℕ → Option Bytes
format_response version addr port response =
    if version == 5
    then some (version % 256 ∷ response % 256 ∷ 0 ∷ (address_octets addr ++ port_octets port))
    else elim addr [
      | Address.v4 a ↦ some (0 ∷ response % 256 ∷ (port_octets port ++ octets 4 a))
      | Address.v6 a ↦ none
    ]

-- format_hostname_response, which is empty and closes the connection for another version than 5.
unfoldable pub format_hostname_response : ℕ → Bytes → ℕ → ℕ → Bytes
format_hostname_response version hostname port response =
    if not (version == 5)
    then []
    else 5 ∷ response % 256 ∷ 0 ∷ 3 ∷ (length hostname % 256) ∷ (hostname ++ port_octets port)

-- The code of the reply when a connection is there or has failed.
abbrev pub response_code : ℕ → ErrorCode → ℕ
response_code version ec =
    if failed ec then if version == 4 then 91 else 5 else if version == 4 then 90 else 0

-- What is done when the connection to the target is there or has failed.
pub data Connected : Type 0 where
  ignored : Connected
  -- the reply, and whether data is forwarded after it; else the connection is closed
  replies : Option Bytes → Bool → Connected

abbrev is_gone : ErrorCode → Bool
is_gone operation_aborted = true
is_gone bad_descriptor = true
is_gone _ = false

-- on_connected, with the remote endpoint of the server connection, which is empty after an error.
unfoldable pub on_connected : ℕ → ErrorCode → Endpoint → Connected
on_connected version ec ep =
    if is_gone ec
    then ignored
    else replies (format_response version ep.address ep.port (response_code version ec))
        (not (failed ec))

-- The forwarding of data between the client and the server.
pub data Forward : Type 0 where
  ignores ends reads_client reads_server : Forward
  to_server to_client : Bytes → Forward

unfoldable pub on_client_receive : ErrorCode → Bytes → Forward
on_client_receive ec bytes =
    if is_gone ec then ignores else if failed ec then ends else to_server bytes

unfoldable pub on_client_forward : ErrorCode → Forward
on_client_forward ec = if failed ec then ends else reads_client

unfoldable pub on_server_receive : ErrorCode → Bytes → Forward
on_server_receive ec bytes = if failed ec then ends else to_client bytes

unfoldable pub on_server_forward : ErrorCode → Forward
on_server_forward ec = if failed ec then ends else reads_server
