-- ===== src/Pcap/Tests.antt =====
-- Instances of the theorems about the packet log.
use libsimulator.Base.{◌≡◌, refl, false, some, [], ◌∷◌, ◌++◌, arith, length}
use libsimulator.Net.Address.{Address, Endpoint}
use libsimulator.Net.Packet.{Packet, new_packet}
use libsimulator.Pcap.{Bytes, file_header, log_udp}
use libsimulator.Pcap.Records.{IsDatagram, read_record, read_record-log_udp}

header_length : length file_header ≡ 24
unfolding file_header
header_length = refl

abbrev datagram : Packet
datagram = record new_packet {
  buffer = 1 ∷ 2 ∷ 3 ∷ [];
  from = record { address = Address.v4 1; port = 4000 };
}

abbrev source : Endpoint
source = record { address = Address.v4 1; port = 4000 }

abbrev dest : Endpoint
dest = record { address = Address.v4 2; port = 53 }

read_record-log_udp_example :
    (bytes : Bytes) × (log_udp 0 datagram source dest ≡ some (bytes, false))
    × IsDatagram (read_record (bytes ++ (7 ∷ []))).0 1 2 4000 53 (1 ∷ 2 ∷ 3 ∷ [])
    × ((read_record (bytes ++ (7 ∷ []))).1 ≡ 7 ∷ [])
read_record-log_udp_example =
    read_record-log_udp 0 1 2 datagram 4000 53 (7 ∷ []) (omega arith) (omega arith) (omega arith)
      (omega arith) (omega arith) (omega arith) (omega arith)
