-- ===== src/Net/Packet.antt =====
-- aux::packet of packet.hpp. A shared pointer to a sink or to a channel is the number that names it,
-- and the drop function the number of the socket that it is bound to.
use libsimulator.Base.Errors.{ErrorCode, no_error}
use libsimulator.Base.{ℕ, ◌+◌, Bool, true, false, List, [], Option, none, length}
use libsimulator.Net.Address.{Endpoint, no_endpoint}

pub data PacketType : Type 0 where
  uninitialized syn syn_ack ack error payload : PacketType

pub record Packet : Type 0 where
  pub type : PacketType
  pub ec : ErrorCode
  pub buffer : List ℕ
  pub from : Endpoint
  pub overhead : ℕ
  pub hops : List ℕ
  pub channel : Option ℕ
  pub seq_nr : ℕ
  pub byte_counter : ℕ
  pub drop_fun : Option ℕ

-- `packet() = default`
abbrev pub new_packet : Packet
new_packet = record {
  type = PacketType.uninitialized;
  ec = no_error;
  buffer = [];
  from = no_endpoint;
  overhead = 20;
  hops = [];
  channel = none;
  seq_nr = 0;
  byte_counter = 0;
  drop_fun = none;
}

unfoldable pub ok_to_drop : Packet → Bool
ok_to_drop p = elim p.type [
  | PacketType.syn_ack ↦ false
  | PacketType.ack ↦ false
  | PacketType.error ↦ false
  | _ ↦ true
]

-- `int(p.buffer.size() + p.overhead)`
abbrev pub packet_size : Packet → ℕ
packet_size p = length p.buffer + p.overhead
