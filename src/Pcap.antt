-- ===== src/Pcap.antt =====
-- pcap.cpp: the bytes of the packet log. `write` copies a number as the host stores it, which is taken to be
-- with the low byte first; `htons` and `htonl` turn it round. A time is a number of nanoseconds.
pub mod Records
mod Tests
use libsimulator.Base.{
  ℕ, zero, suc, ◌+◌, ◌-◌, ◌*◌, ◌/◌, ◌%◌, Bool, true, false, List, [], ◌∷◌, ◌++◌, Option, none, some,
  length, take, drop, get_or, ◌||◌, ◌==◌, if◌then◌else◌,
}
use libsimulator.Net.Packet.{Packet}
use libsimulator.Net.Address.{Address, Endpoint}

abbrev pub Bytes : Type 0
Bytes = List ℕ

-- A number of so many bytes, with the low byte first and with the high byte first.
abbrev pub le : ℕ → ℕ → Bytes
le zero n = []
le (suc k) n = n % 256 ∷ le k (n / 256)

abbrev pub be : ℕ → ℕ → Bytes
be zero n = []
be (suc k) n = be k (n / 256) ++ n % 256 ∷ []

-- pcap::pcap
unfoldable pub file_header : Bytes
file_header =
    le 4 2712847316 ++ (le 2 2 ++ (le 2 4 ++ (le 4 0 ++ (le 4 0 ++ (le 4 65535 ++ le 4 101)))))

abbrev pub ip_header : ℕ → ℕ → ℕ → ℕ → Bytes
ip_header size protocol source dest =
    69
    ∷ 0
    ∷ (be 2 size ++ (0 ∷ 0 ∷ 0 ∷ 0 ∷ 200 ∷ protocol % 256 ∷ 0 ∷ 0 ∷ (be 4 source ++ be 4 dest)))

-- The assertions on the ports fail: none.
unfoldable pub udp_header : ℕ → ℕ → ℕ → Option Bytes
udp_header size src_port dst_port =
    if src_port == 0 || dst_port == 0
    then none
    else some (be 2 src_port ++ (be 2 dst_port ++ (be 2 (8 + size) ++ (0 ∷ 0 ∷ []))))

unfoldable pub tcp_header : ℕ → ℕ → ℕ → Option Bytes
tcp_header src_port dst_port seq_nr =
    if src_port == 0 || dst_port == 0
    then none
    else some (
        be 2 src_port
        ++ (be 2 dst_port
            ++ (be 4 seq_nr ++ (0 ∷ 0 ∷ 0 ∷ 0 ∷ 80 ∷ 0 ∷ 255 ∷ 255 ∷ 0 ∷ 0 ∷ 0 ∷ 0 ∷ []))))

abbrev pub sim_start_time : ℕ
sim_start_time = 441794304

abbrev pub record_header : ℕ → ℕ → Bytes
record_header now size =
    le 4 (sim_start_time + now / 1000000000)
    ++ (le 4 (now % 1000000000 / 1000) ++ (le 4 size ++ le 4 size))

-- The bytes written, and whether the call then threw, which `to_v4` of an address of version 6 does. The
-- header of the transport comes behind that: none is its failed assertion.
unfoldable pub log_packet :
    ℕ → ℕ → Option Bytes → Bytes → Address → Address → ℕ → Option (Bytes × Bool)
log_packet now protocol none payload (Address.v4 src) (Address.v4 dst) size = none
log_packet now protocol (some transport) payload (Address.v4 src) (Address.v4 dst) size =
    some
      (record_header now size ++ (ip_header size protocol src dst ++ (transport ++ payload)), false)
log_packet now protocol transport payload _ _ size = some (record_header now size, true)

unfoldable pub log_tcp : ℕ → Packet → Endpoint → Endpoint → Option (Bytes × Bool)
log_tcp now p src dst =
    log_packet now 6 (tcp_header p.from.port dst.port p.byte_counter) p.buffer src.address
      dst.address (20 + 20 + length p.buffer)

unfoldable pub log_udp : ℕ → Packet → Endpoint → Endpoint → Option (Bytes × Bool)
log_udp now p src dst =
    log_packet now 17 (udp_header (length p.buffer) p.from.port dst.port) p.buffer src.address
      dst.address (20 + 8 + length p.buffer)
