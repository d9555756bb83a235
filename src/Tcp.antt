-- ===== src/Tcp.antt =====
-- tcp_socket.cpp: the state of a socket and its sending side. A handler is named by a number, and so
-- is the channel, which both ends share: `State` holds the store of channels, the socket, and what it
-- did to the outside in order. The first hop of a route is a queue: it drops a packet at once or
-- keeps it, which the parameter `drops` decides from what happened so far. m_queue_size is left out: it
-- is counted down and never read. So is the packet log.
pub mod Early
pub mod Fill
pub mod Order
pub mod Sends
pub mod Cancel
pub mod Input
pub mod Write
pub mod Runs
pub mod Cuts
pub mod Segments
pub mod Delivery
pub mod Window
pub mod Connect
pub mod Attempts
pub mod Api
pub mod Stream
pub mod Reassembly
pub mod Wakeup
mod Tests
use libsimulator.Base.Errors.{
  ErrorCode, no_error, operation_aborted, would_block, bad_descriptor, not_connected,
}
use libsimulator.Base.{
  ℕ, zero, suc, ◌+◌, ◌*◌, ◌/◌, ◌%◌, ◌^◌, min, Bool, true, false, ◌&&◌, List, [], ◌∷◌, ◌++◌, Option,
  none, some, ltb, leb, ◌==◌, if◌then◌else◌, length, take, drop, update,
}
use libsimulator.Net.Address.{Endpoint}
use libsimulator.Net.Packet.{Packet, new_packet, PacketType}
use libsimulator.Net.Hops.{Route, Channel, remote_idx, self_idx}

pub record Socket : Type 0 where
  -- the number that the drop function of its packets is bound to
  pub this : ℕ
  pub is_open : Bool
  pub is_v4 : Bool
  pub bound_to : Endpoint
  pub user_bound_to : Endpoint
  -- the sink_forwarder, which is the end of the routes to the socket
  pub forwarder : Option ℕ
  pub channel : Option ℕ
  pub connect_handler : Option ℕ
  pub mss : ℕ
  pub send_handler : Option ℕ
  pub wait_send_handler : Option ℕ
  pub send_buffer : List (List ℕ)
  pub incoming_queue : List Packet
  pub recv_handler : Option ℕ
  pub wait_recv_handler : Option ℕ
  -- the sizes of the buffers
  pub recv_buffer : List ℕ
  pub recv_null_buffers : Bool
  pub send_null_buffers : Bool
  pub next_outgoing_seq : ℕ
  pub next_incoming_seq : ℕ
  pub last_drop_seq : ℕ
  pub cwnd : ℕ
  pub bytes_in_flight : ℕ
  pub reorder_buffer : List (ℕ × Packet)
  pub outstanding_packet_sizes : List (ℕ × ℕ)
  pub outgoing_packets : List Packet

pub data Effect : Type 0 where
  -- forward_packet
  sent : Packet → Effect
  -- a handler is posted: of a read with the bytes that it got, of a write with the number of
  -- bytes, of a wait or a connect
  has_read : ℕ → ErrorCode → List ℕ → Effect
  has_written : ℕ → ErrorCode → ℕ → Effect
  notified : ℕ → ErrorCode → Effect
  -- m_recv_timer.cancel()
  recv_timer_cancelled : Effect
  -- m_connect_timer is started, with the time in milliseconds, for a handler and its error code
  connect_timer_started : ℕ → ℕ → ErrorCode → Effect

pub record State : Type 0 where
  pub socket : Socket
  pub channels : ℕ → Channel
  pub log : List Effect

abbrev pub emit : State → Effect → State
emit s e = record s { log = s.log ++ e ∷ [] }

-- `m_channel->hops[remote]`, where an index of -1 is undefined and here gives no hops.
abbrev pub remote_hops : Channel → Endpoint → Route
remote_hops c self = elim (remote_idx c self) [
  | none ↦ []
  | some i ↦ if i == 0 then c.hops0 else c.hops1
]

-- `m_channel->bytes_sent[idx]`
abbrev pub bytes_sent : Channel → Endpoint → ℕ
bytes_sent c self = elim (self_idx c self) [
  | none ↦ 0
  | some i ↦ if i == 0 then c.bytes_sent0 else c.bytes_sent1
]

-- `m_channel->bytes_sent[idx] += …` on 32 bits
abbrev pub count_sent : Channel → Endpoint → ℕ → Channel
count_sent c self n = elim (self_idx c self) [
  | none ↦ c
  | some i ↦
      if i == 0
      then record c { bytes_sent0 = (c.bytes_sent0 + n) % 2 ^ 32 }
      else record c { bytes_sent1 = (c.bytes_sent1 + n) % 2 ^ 32 }
]

-- A map from sequence numbers: `m[k] = v`, `find` and `erase`.
unfoldable pub put {ℓ} : {A : Type ℓ} → ℕ → A → List (ℕ × A) → List (ℕ × A)
put k v [] = (k, v) ∷ []
put k v ((j, w) ∷ m) = if j == k then (k, v) ∷ m else (j, w) ∷ put k v m

unfoldable pub look_up {ℓ} : {A : Type ℓ} → ℕ → List (ℕ × A) → Option A
look_up k [] = none
look_up k ((j, w) ∷ m) = if j == k then some w else look_up k m

unfoldable pub delete {ℓ} : {A : Type ℓ} → ℕ → List (ℕ × A) → List (ℕ × A)
delete k [] = []
delete k ((j, w) ∷ m) = if j == k then m else (j, w) ∷ delete k m

-- `m_cwnd /= 2; if (m_cwnd < m_mss) m_cwnd = m_mss`
abbrev pub halved : ℕ → ℕ → ℕ
halved cwnd mss = if ltb (cwnd / 2) mss then mss else cwnd / 2

-- `m_last_drop_seq > 0 && p.seq_nr < m_last_drop_seq + packets_in_cwnd`
abbrev pub recently_cut : Socket → Packet → Bool
recently_cut k p = ltb 0 k.last_drop_seq && ltb p.seq_nr (k.last_drop_seq + k.cwnd / k.mss)

-- packet_dropped on the channel `c`.
unfoldable pub dropped_on : ℕ → State → Packet → State
dropped_on c s p =
    let k = s.socket in
    let back = record p { hops = remote_hops (s.channels c) k.bound_to } in
    let kept = record k { outgoing_packets = k.outgoing_packets ++ back ∷ [] } in
    if recently_cut k p
    then record s { socket = kept }
    else record s { socket = record kept { cwnd = halved k.cwnd k.mss; last_drop_seq = p.seq_nr } }

-- A null m_channel is undefined, and here it is none.
unfoldable pub packet_dropped : State → Packet → Option State
packet_dropped s p = elim s.socket.channel [ none ↦ none | some c ↦ some (dropped_on c s p) ]

-- send_packet up to forward_packet.
abbrev pub accounted : ℕ → State → Packet → State
accounted c s p =
    let k = s.socket in
    let n = length p.buffer in
    record s {
      socket = record k {
        bytes_in_flight = k.bytes_in_flight + n;
        outstanding_packet_sizes = put p.seq_nr n k.outstanding_packet_sizes;
      };
      channels = update s.channels c (count_sent (s.channels c) k.bound_to n);
    }

abbrev pub numbered : ℕ → State → Packet → Packet
numbered c s p = record p { byte_counter = bytes_sent (s.channels c) s.socket.bound_to }

-- The hop that drops a packet moves the drop function out and calls it; a packet that has none
-- is gone.
unfoldable pub returned : ℕ → State → Packet → State
returned c s p = elim p.drop_fun [
  | none ↦ s
  | some f ↦ dropped_on c s (record p { drop_fun = none })
]

module _ (drops : List Effect → Packet → Bool) where
  unfoldable pub send_on : ℕ → State → Packet → State
  send_on c s p =
      let s' = emit (accounted c s p) (sent (numbered c s p)) in
      if drops s.log (numbered c s p) then returned c s' (numbered c s p) else s'
