-- ===== src/Tcp/Tests.antt =====
-- Instances of the theorems about TCP sockets, and runs of a connected socket.
use libsimulator.Base.Errors.{no_error, connection_refused}
use libsimulator.Base.{
  ℕ, ◌≡◌, ◌≤◌, ◌<◌, refl, Bool, true, false, List, [], ◌∷◌, none, some, arith, length, take,
}
use libsimulator.Net.Address.{Address, Endpoint, endpoint_eq}
use libsimulator.Net.Packet.{Packet, PacketType, new_packet}
use libsimulator.Net.Hops.{Channel, remote_idx}
use libsimulator.Tcp.{Effect, Socket, State, emit, sent, look_up, delete, send_on}
use libsimulator.Tcp.Write.{
  write_some_impl, write_some_on, send_buffers, send_chunks, window_full, acked, grown, resend,
}
use libsimulator.Tcp.Input.{data_on}
use libsimulator.Tcp.Order.{ack_of, sequenced}
use libsimulator.Tcp.Sends.{payloads, concat}
use libsimulator.Tcp.Segments.{Wrote, write_some_impl-Wrote}
use libsimulator.Tcp.Stream.{stream}
use libsimulator.Tcp.Reassembly.{Ordered, Arrives, arrivals, arrivals-Ordered}
use libsimulator.Tcp.Runs.{payload_of}
use libsimulator.Tcp.Delivery.{Brought, write_some_impl-delivered}
use libsimulator.Tcp.Attempts.{async_connect, on_connects, expected, async_connect-expected}
use libsimulator.Tcp.Wakeup.{data_on_gap}

abbrev client : Endpoint
client = record { address = Address.v4 1; port = 2000 }

abbrev connection : Channel
connection = record {
  hops0 = 5 ∷ [];
  hops1 = 6 ∷ [];
  ep0 = client;
  ep1 = record { address = Address.v4 2; port = 80 };
  visible_ep0 = client;
  visible_ep1 = record { address = Address.v4 2; port = 80 };
  bytes_sent0 = 0;
  bytes_sent1 = 0;
}

-- A socket with an mss of 2 and room for two segments.
abbrev socket : Socket
socket = record {
  this = 1;
  is_open = true;
  is_v4 = true;
  bound_to = client;
  user_bound_to = client;
  forwarder = some 3;
  channel = some 0;
  connect_handler = none;
  mss = 2;
  send_handler = none;
  wait_send_handler = none;
  send_buffer = [];
  incoming_queue = [];
  recv_handler = some 9;
  wait_recv_handler = none;
  recv_buffer = 10 ∷ [];
  recv_null_buffers = false;
  send_null_buffers = false;
  next_outgoing_seq = 0;
  next_incoming_seq = 0;
  last_drop_seq = 0;
  cwnd = 4;
  bytes_in_flight = 0;
  reorder_buffer = [];
  outstanding_packet_sizes = [];
  outgoing_packets = [];
}

abbrev state : State
state = record { socket = socket; channels = λ c. connection; log = [] }

abbrev keeps : List Effect → Packet → Bool
keeps log p = false

two_segments :
    let r = write_some_impl keeps state ((1 ∷ 2 ∷ 3 ∷ 4 ∷ 5 ∷ []) ∷ []) in
    (r.1 ≡ no_error) × (r.2 ≡ 4)
unfolding write_some_impl write_some_on send_buffers send_chunks send_on remote_idx endpoint_eq
two_segments = (refl, refl)

write_some_impl-Wrote_example :
    Wrote keeps state
      (concat ((1 ∷ 2 ∷ 3 ∷ 4 ∷ 5 ∷ []) ∷ []))
      (write_some_impl keeps state ((1 ∷ 2 ∷ 3 ∷ 4 ∷ 5 ∷ []) ∷ []))
write_some_impl-Wrote_example =
    write_some_impl-Wrote keeps state ((1 ∷ 2 ∷ 3 ∷ 4 ∷ 5 ∷ []) ∷ []) (omega arith)

abbrev packet : ℕ → Packet
packet n = record new_packet { type = PacketType.payload; buffer = n ∷ []; seq_nr = n }

abbrev shuffled : List Packet
shuffled = packet 1 ∷ packet 0 ∷ packet 2 ∷ packet 1 ∷ []

all_arrive : (i : ℕ) → 0 ≤ i → i < 3 → Arrives i shuffled
all_arrive i l h = ground arith

arrivals-Ordered_example :
    Ordered [] 0 (arrivals socket shuffled) × (3 ≤ (arrivals socket shuffled).next_incoming_seq)
unfolding look_up
arrivals-Ordered_example = arrivals-Ordered socket shuffled 3 tt refl all_arrive

abbrev gapped : State
gapped = record state { socket = record socket { reorder_buffer = (1, packet 1) ∷ [] } }

data_on_gap_example :
    (data_on 0 gapped (packet 0)
      ≡ some (record (emit gapped (sent (ack_of gapped 0 (packet 0)))) {
        socket = sequenced gapped.socket (packet 0);
      }))
    × (1 < length (sequenced gapped.socket (packet 0)).incoming_queue)
    × ((sequenced gapped.socket (packet 0)).recv_handler ≡ some 9)
unfolding look_up
data_on_gap_example = data_on_gap 0 gapped (packet 0) (packet 1) refl refl

-- The window is full, and a writer waits.
abbrev full : State
full = record state {
  socket = record socket {
    send_handler = some 8;
    bytes_in_flight = 4;
    outstanding_packet_sizes = (0, 2) ∷ (1, 2) ∷ [];
  };
}

-- The ACK makes room for a segment, and the writer still waits.
writer_left_waiting :
    (s : State) × (grown keeps (resend keeps 0 (acked keeps full 0 2) []) 2 ≡ some s)
    × (window_full s ≡ false)
    × (s.socket.send_handler ≡ some 8)
unfolding resend delete grown
writer_left_waiting = (_, refl, refl, refl)

-- Two segments of a byte each, read into buffers of one byte and of none.
abbrev readable : State
readable = record state { socket = record socket { incoming_queue = packet 7 ∷ packet 8 ∷ [] } }

-- Two segments of a write, of which the second comes first and the first twice.
abbrev written : List (List ℕ)
written = (1 ∷ 2 ∷ 3 ∷ 4 ∷ 5 ∷ []) ∷ []

abbrev part : ℕ → List ℕ → Packet
part n bytes = record new_packet { type = PacketType.payload; buffer = bytes; seq_nr = n }

abbrev swapped : List Packet
swapped = part 1 (3 ∷ 4 ∷ []) ∷ part 0 (1 ∷ 2 ∷ []) ∷ part 0 (1 ∷ 2 ∷ []) ∷ []

both_arrive : (i : ℕ) → 0 ≤ i → i < 2 → Arrives i swapped
both_arrive i l h = ground arith

written-Brought :
    Brought socket
      (payloads (write_some_impl keeps state written).0.log)
      0
      (write_some_impl keeps state written).0.socket.next_outgoing_seq
      swapped
unfolding write_some_impl write_some_on send_buffers send_chunks send_on remote_idx endpoint_eq
    payloads payload_of
written-Brought = record {
  nothing_read = refl;
  nothing_early = refl;
  agreed = refl;
  deliveries = ((refl, refl), ((refl, refl), ((refl, refl), tt)));
  all_come = both_arrive;
}

write_some_impl-delivered_example :
    stream (arrivals socket swapped).incoming_queue
    ≡ take (write_some_impl keeps state written).2 (concat written)
unfolding payloads
write_some_impl-delivered_example =
    write_some_impl-delivered keeps state written socket swapped (omega arith) refl written-Brought

-- The first endpoint refuses, the second one answers, and the third one is not tried.
abbrev other : ℕ → Endpoint
other n = record { address = Address.v4 n; port = 80 }

async_connect-expected_example :
    on_connects
      (async_connect (other 1 ∷ other 2 ∷ other 3 ∷ []))
      (connection_refused ∷ no_error ∷ connection_refused ∷ [])
    ≡ record {
      iter = none;
      log =
          expected
            (other 1)
            connection_refused
            ((other 2, no_error) ∷ (other 3, connection_refused) ∷ []);
    }
async_connect-expected_example =
    async_connect-expected (other 1) connection_refused
      ((other 2, no_error) ∷ (other 3, connection_refused) ∷ [])
