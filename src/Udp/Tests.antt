-- ===== src/Udp/Tests.antt =====
-- Instances of the theorems about UDP sockets.
use libsimulator.Base.{
  take, drop, ℕ, ◌≡◌, ◌≤◌, refl, true, false, List, [], ◌∷◌, none, some, length, max, ◌+◌,
}
use libsimulator.Net.Address.{Address, endpoint_eq}
use libsimulator.Net.Packet.{Packet, PacketType, new_packet}
use libsimulator.Udp.{Socket, State, gets, receive_from_impl, send_to_impl}
use libsimulator.Udp.Api.{Call, receives, async_receives, waits, arrives, cancels}
use libsimulator.Udp.Api.Handled
use libsimulator.Udp.Queue.{total, receive_from_impl_cut, send_to_impl_paced}

abbrev datagram : Packet
datagram = record new_packet { type = PacketType.payload; buffer = 1 ∷ 2 ∷ 3 ∷ []; overhead = 28 }

abbrev socket : Socket
socket = record {
  is_open = true;
  is_v4 = true;
  bound_to = record { address = Address.v4 1; port = 4000 };
  user_bound_to = record { address = Address.v4 1; port = 4000 };
  forwarder = some 3;
  dont_fragment = false;
  next_send = 0;
  send_queue_time = 1000;
  send_handler = none;
  wait_send_handler = none;
  recv_timer = none;
  recv_handler = none;
  wait_recv_handler = none;
  recv_buffer = [];
  recv_null_buffers = false;
  incoming_queue = datagram ∷ [];
  queue_size = 3;
}

receive_from_impl_cut_example :
    (after : Socket) × (got : List ℕ) × (cut : List ℕ) × (receive_from_impl socket (2 ∷ [])
      ≡ some (after, gets datagram.from got))
    × (got ≡ take 2 datagram.buffer)
    × (cut ≡ drop 2 datagram.buffer)
    × (after.incoming_queue ≡ [])
    × (after.queue_size ≡ total [] + (0 + length cut))
unfolding endpoint_eq
receive_from_impl_cut_example = receive_from_impl_cut socket 2 [] datagram [] 0 refl refl refl refl

send_to_impl_paced_example :
    (send_to_impl (λ n. 10) (socket, []) 500 1500 (3 ∷ []) (4 ∷ []) (1 ∷ [])).0.0.next_send
    ≤ max 0 (500 + 1000 + 10)
send_to_impl_paced_example =
    send_to_impl_paced (λ n. 10) (socket, []) 500 1500 (3 ∷ []) (4 ∷ []) (1 ∷ [])

-- A writer waits for the queue of the network card.
abbrev waiting : State
waiting = (record socket { wait_send_handler = some 8; recv_timer = some 500 }, [])

-- A datagram is read, a read waits and gets the next one, and a wait is cancelled.
abbrev calls : List Call
calls = receives (2 ∷ []) ∷ async_receives (8 ∷ []) 5 ∷ arrives datagram ∷ waits 6 ∷ cancels ∷ []
