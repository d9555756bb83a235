-- ===== src/Udp.antt =====
-- udp_socket.cpp: the receiving and sending of datagrams. A handler is named by a number, a buffer is
-- given by its size, and the effects of a call are a log. The path MTU, the route to the destination with
-- the outgoing route of the node in front, and the time that a packet takes on the wire, which is computed in
-- floating point, are arguments; the packet log is left out.
pub mod Queue
pub mod Control
pub mod Api
pub mod Abort
mod Tests
use libsimulator.Base.Errors.{
  ErrorCode, no_error, would_block, bad_descriptor, invalid_argument, message_size, failed,
  is_would_block,
}
use libsimulator.Base.{
  ℕ, zero, suc, ◌+◌, ◌-◌, ◌*◌, min, max, Bool, true, false, not, ◌&&◌, ◌||◌, List, [], ◌∷◌, ◌++◌,
  Option, none, some, ltb, leb, ◌==◌, if◌then◌else◌, length, take, drop, is_some,
}
use libsimulator.Net.Packet.{Packet, new_packet, PacketType, packet_size}
use libsimulator.Net.Address.{Endpoint, no_endpoint, endpoint_eq}
use libsimulator.Net.Hops.{Route}

pub record Socket : Type 0 where
  pub is_open : Bool
  pub is_v4 : Bool
  pub bound_to : Endpoint
  pub user_bound_to : Endpoint
  -- the number of the sink_forwarder, if there is one
  pub forwarder : Option ℕ
  pub dont_fragment : Bool
  -- m_next_send and m_send_queue_time, in nanoseconds
  pub next_send : ℕ
  pub send_queue_time : ℕ
  pub send_handler : Option ℕ
  pub wait_send_handler : Option ℕ
  -- the time that the pending wait of m_recv_timer ends at, which then calls m_wait_send_handler
  pub recv_timer : Option ℕ
  pub recv_handler : Option ℕ
  pub wait_recv_handler : Option ℕ
  pub recv_buffer : List ℕ
  pub recv_null_buffers : Bool
  pub incoming_queue : List Packet
  pub queue_size : ℕ

pub data Effect : Type 0 where
  -- a handler is posted, of a read with the sender and the bytes or of a wait
  received : ℕ → ErrorCode → Option Endpoint → List ℕ → Effect
  notified : ℕ → ErrorCode → Effect
  -- forward_packet
  sent : Packet → Effect
  -- a call is posted of what m_send_handler or m_wait_send_handler holds when it is made
  calls_send calls_wait_send : ErrorCode → Effect

abbrev pub State : Type 0
State = Socket × List Effect

-- The copy loop: what is read, and what is left of the packet.
unfoldable pub copy_out : List ℕ → List ℕ → List ℕ × List ℕ
copy_out [] bytes = ([], bytes)
copy_out (n ∷ ns) bytes =
    let m = min (length bytes) n in
    let rest = copy_out ns (drop m bytes) in
    elim (drop m bytes) [ [] ↦ (take m bytes, []) | b ∷ bs ↦ (take m bytes ++ rest.0, rest.1) ]

pub data Received : Type 0 where
  fails : ErrorCode → Received
  gets : Endpoint → List ℕ → Received

-- receive_from_impl behind its assertion. The whole packet leaves the queue; of the bytes counted, those that were read.
unfoldable pub receive_open : Socket → List ℕ → Socket × Received
receive_open k bufs =
    if not k.is_open
    then (k, fails bad_descriptor)
    else if endpoint_eq k.bound_to no_endpoint
    then (k, fails invalid_argument)
    else elim k.incoming_queue [
      | [] ↦ (k, fails would_block)
      | p ∷ ps ↦
          let r = copy_out bufs p.buffer in
          (
            record k { incoming_queue = ps; queue_size = k.queue_size - length r.0 },
            gets p.from r.0,
          )
    ]

-- `assert(!bufs.empty())` fails in the case of none.
unfoldable pub receive_from_impl : Socket → List ℕ → Option (Socket × Received)
receive_from_impl k [] = none
receive_from_impl k (b ∷ bs) = some (receive_open k (b ∷ bs))

abbrev pub emit : State → Effect → State
emit s e = (s.0, s.1 ++ e ∷ [])

abbrev pub clear_recv : Socket → Socket
clear_recv k = record k { recv_handler = none; recv_buffer = []; recv_null_buffers = false }

unfoldable pub completed : State → ℕ → List ℕ → Socket × Received → State
completed s handler bufs (k, gets from bytes) =
    (clear_recv k, s.1 ++ received handler no_error (some from) bytes ∷ [])
completed s handler bufs (k, fails ec) =
    if is_would_block ec
    then (
      record k { recv_buffer = bufs; recv_handler = some handler; recv_null_buffers = false },
      s.1,
    )
    else (clear_recv k, s.1 ++ received handler ec none [] ∷ [])

unfoldable pub async_receive_from_impl : State → List ℕ → ℕ → Option State
async_receive_from_impl s bufs handler = elim (receive_from_impl s.0 bufs) [
  | none ↦ none
  | some r ↦ some (completed s handler bufs r)
]

unfoldable pub async_wait_receive_impl : State → ℕ → State
async_wait_receive_impl s handler =
    if not s.0.is_open
    then emit s (notified handler bad_descriptor)
    else if endpoint_eq s.0.bound_to no_endpoint
    then emit s (notified handler invalid_argument)
    else elim s.0.incoming_queue [
      | p ∷ ps ↦ emit s (notified handler no_error)
      | [] ↦ (record s.0 { recv_null_buffers = true; wait_recv_handler = some handler }, s.1)
    ]

-- A call with a null handler is undefined: none.
unfoldable pub maybe_wakeup_reader : State → Option State
maybe_wakeup_reader s =
    if not (length s.0.incoming_queue == 1)
      || not (is_some s.0.recv_handler) && not (is_some s.0.wait_recv_handler)
    then some s
    else if s.0.recv_null_buffers
    then elim s.0.wait_recv_handler [
      | none ↦ none
      | some h ↦ some (async_wait_receive_impl (record s.0 { wait_recv_handler = none }, s.1) h)
    ]
    else elim s.0.recv_handler [
      | none ↦ none
      | some h ↦ async_receive_from_impl (record s.0 { recv_handler = none }, s.1) s.0.recv_buffer h
    ]

abbrev pub max_queue_size : ℕ
max_queue_size = 256 * 1024

abbrev pub queued : Socket → Packet → Socket
queued k p = record k {
  incoming_queue = k.incoming_queue ++ p ∷ [];
  queue_size = k.queue_size + length p.buffer;
}

unfoldable pub incoming_packet : State → Packet → Option State
incoming_packet s p =
    if ltb max_queue_size (s.0.queue_size + packet_size p)
    then some s
    else maybe_wakeup_reader (queued s.0 p, s.1)

abbrev pub new_datagram : Socket → Route → List ℕ → Packet
new_datagram k hops bytes = record new_packet {
  type = PacketType.payload;
  buffer = bytes;
  from = k.bound_to;
  overhead = 28;
  hops = hops;
}

-- The end of send_to_impl, on the route to the destination and the outgoing route.
unfoldable pub deliver : (ℕ → ℕ) → State → ℕ → Route → Route → List ℕ → State
deliver wire_time s now [] out bytes = s
deliver wire_time s now (h ∷ hops) out bytes =
    let p = new_datagram s.0 (out ++ h ∷ hops) bytes in
    (
      record s.0 { next_send = max now s.0.next_send + wire_time (packet_size p) },
      s.1 ++ sent p ∷ [],
    )

-- send_to_impl of a bound socket: `ec` and the number of bytes.
unfoldable pub send_to_impl :
    (ℕ → ℕ) → State → ℕ → ℕ → Route → Route → List ℕ → State × ErrorCode × ℕ
send_to_impl wire_time s now mtu hops out bytes =
    if length bytes == 0
    then (s, invalid_argument, 0)
    else if ltb 65535 (length bytes)
    then (s, message_size, 0)
    else if s.0.dont_fragment && ltb mtu (length bytes)
    then (s, no_error, length bytes)
    else if ltb (now + s.0.send_queue_time) s.0.next_send
    then (s, would_block, 0)
    else (deliver wire_time s now hops out bytes, no_error, length bytes)
