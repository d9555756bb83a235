-- ===== src/Tcp/Order.antt =====
-- The reorder buffer of tcp_socket.cpp: what incoming_packet takes in order, and its ACK.
use libsimulator.Base.{ℕ, zero, suc, List, [], ◌∷◌, ◌++◌, none, some, ◌==◌, if◌then◌else◌, length}
use libsimulator.Net.Packet.{Packet, new_packet, PacketType}
use libsimulator.Tcp.{Socket, State, remote_hops, look_up, delete}

-- The loop that takes packets which arrived early: the reorder buffer, the packets taken and the next
-- number. Each round takes one packet out, so that the size of the buffer is fuel enough.
unfoldable pub take_early : ℕ → List (ℕ × Packet) → ℕ → List (ℕ × Packet) × List Packet × ℕ
take_early zero m seq = (m, [], seq)
take_early (suc fuel) m seq = elim (look_up seq m) [
  | none ↦ (m, [], seq)
  | some p ↦ let r = take_early fuel (delete seq m) (suc seq) in (r.0, p ∷ r.1, r.2)
]

-- `m_reorder_buffer.emplace(p.seq_nr, …)` keeps what stands there.
abbrev pub emplace : Packet → List (ℕ × Packet) → List (ℕ × Packet)
emplace p m = elim (look_up p.seq_nr m) [ none ↦ (p.seq_nr, p) ∷ m | some q ↦ m ]

-- The order of the packets, without the ACK and the reader.
unfoldable pub sequenced : Socket → Packet → Socket
sequenced k p =
    let r = take_early (length k.reorder_buffer) k.reorder_buffer (suc k.next_incoming_seq) in
    if p.seq_nr == k.next_incoming_seq
    then record k {
      incoming_queue = k.incoming_queue ++ p ∷ r.1;
      reorder_buffer = r.0;
      next_incoming_seq = r.2;
    }
    else record k { reorder_buffer = emplace p k.reorder_buffer }

abbrev pub ack_of : State → ℕ → Packet → Packet
ack_of s c p = record new_packet {
  type = PacketType.ack;
  seq_nr = p.seq_nr;
  hops = remote_hops (s.channels c) s.socket.bound_to;
}
