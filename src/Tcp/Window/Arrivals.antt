-- ===== src/Tcp/Window/Arrivals.antt =====
-- The window through reads, the arrivals of packets and the end of a connection.
use libsimulator.Base.{
  ℕ, refl, Bool, List, [], ◌∷◌, Option, none, some, arith, ◌==◌, ltb, not, ◌&&◌, ◌||◌, length, sum,
  option_rule, if_rule, is_some,
}
use libsimulator.Base.Errors.{ErrorCode, would_block, failed, is_would_block}
use libsimulator.Net.Packet.{Packet, PacketType}
use libsimulator.Tcp.{Effect, State, Socket, look_up}
use libsimulator.Tcp.Write.{ack_on, abort_send_handlers}
use libsimulator.Tcp.Input.{
  read_queue, read_some_impl, async_read_some_impl, async_wait_read_impl, maybe_wakeup_reader,
  available, drain, data_on, connected, incoming_packet,
}
use libsimulator.Tcp.Order.{sequenced}
use libsimulator.Tcp.Cancel.{cancel, reset_state, abort_recv_handlers}
use libsimulator.Tcp.Window.{InWindow, InWindow?, outstanding, same_window}
use libsimulator.Tcp.Window.Calls.{Good, maybe_wakeup_writer-InWindow, ack_on-InWindow}

-- A read changes neither the window nor what is outstanding.
queue-InWindow : (s : State) (bufs : List ℕ) → Good s → Good (read_queue s bufs).0
queue-InWindow s bufs w =
    option_rule (λ (r : State × ErrorCode × List ℕ). Good r.0)
      (drain s.socket.incoming_queue bufs []).error
      (λ _. same_window s.socket _ refl refl refl refl w)
      (λ ec _. same_window s.socket _ refl refl refl refl w)

pub read_some_impl-InWindow : (s : State) (bufs : List ℕ) → Good s → Good (read_some_impl s bufs).0
unfolding read_some_impl
read_some_impl-InWindow s bufs w =
    if_rule P (sum bufs == 0) (λ _. w)
      (λ _.
        if_rule P (not s.socket.is_open) (λ _. w)
          (λ _.
            if_rule P (not (is_some s.socket.channel)) (λ _. w)
              (λ _.
                if_rule P (is_some s.socket.connect_handler) (λ _. w)
                  (λ _. by_queue s.socket.incoming_queue))))
  where
    P : State × ErrorCode × List ℕ → Type 0
    P r = Good r.0

    by_queue :
        (q : List Packet)
        → Good
            (elim q as (λ x. State × ErrorCode × List ℕ) [
              | [] ↦ (s, would_block, [])
              | p ∷ ps ↦ read_queue s bufs
            ]).0
    by_queue [] = w
    by_queue (p ∷ ps) = queue-InWindow s bufs w

pub async_read_some_impl-InWindow :
    (s : State) (bufs : List ℕ) (handler : ℕ) → Good s → Good (async_read_some_impl s bufs handler)
unfolding async_read_some_impl
async_read_some_impl-InWindow s bufs handler w =
    let r = read_some_impl s bufs in
    let w' = read_some_impl-InWindow s bufs w in
    if_rule Good (sum bufs == 0) (λ _. w)
      (λ _.
        if_rule Good (is_would_block r.1) (λ _. same_window r.0.socket _ refl refl refl refl w')
          (λ _.
            if_rule Good (failed r.1) (λ _. same_window r.0.socket _ refl refl refl refl w')
              (λ _. same_window r.0.socket _ refl refl refl refl w')))

pub async_wait_read_impl-InWindow :
    (s : State) (handler : ℕ) → Good s → Good (async_wait_read_impl s handler)
unfolding async_wait_read_impl
async_wait_read_impl-InWindow s handler w =
    if_rule Good (failed (available s).0 || ltb 0 (available s).1)
      (λ _. same_window s.socket _ refl refl refl refl w)
      (λ _. same_window s.socket _ refl refl refl refl w)

maybe_wakeup_reader-InWindow : (s : State) → Good s → InWindow? (maybe_wakeup_reader s)
unfolding maybe_wakeup_reader
maybe_wakeup_reader-InWindow s w =
    if_rule InWindow?
      (not (length s.socket.incoming_queue == 1)
        || not (is_some s.socket.recv_handler) && not (is_some s.socket.wait_recv_handler))
      (λ _. w)
      (λ _.
        if_rule InWindow? s.socket.recv_null_buffers
          (λ _.
            option_rule InWindow? s.socket.wait_recv_handler (λ _. tt)
              (λ h _.
                async_wait_read_impl-InWindow
                  (record s { socket = record s.socket { wait_recv_handler = none } }) h
                  (same_window s.socket _ refl refl refl refl w)))
          (λ _.
            option_rule InWindow? s.socket.recv_handler (λ _. tt)
              (λ h _.
                async_read_some_impl-InWindow
                  (record s { socket = record s.socket { recv_handler = none } })
                  s.socket.recv_buffer h (same_window s.socket _ refl refl refl refl w))))

sequenced-InWindow : (k : Socket) (p : Packet) → InWindow k → InWindow (sequenced k p)
unfolding sequenced
sequenced-InWindow k p w =
    if_rule InWindow (p.seq_nr == k.next_incoming_seq) (λ _. same_window k _ refl refl refl refl w)
      (λ _. same_window k _ refl refl refl refl w)

data_on-InWindow : (c : ℕ) (s : State) (p : Packet) → Good s → InWindow? (data_on c s p)
unfolding data_on
data_on-InWindow c s p w =
    let w' = sequenced-InWindow s.socket p w in
    if_rule InWindow? (p.seq_nr == s.socket.next_incoming_seq)
      (λ _. maybe_wakeup_reader-InWindow _ w') (λ _. w')

pub abort_recv_handlers-InWindow : (s : State) → Good s → Good (abort_recv_handlers s)
unfolding abort_recv_handlers
abort_recv_handlers-InWindow s w =
    same_window s.socket _ (ground arith) (ground arith) (ground arith) (ground arith) w

pub abort_send_handlers-InWindow : (s : State) → Good s → Good (abort_send_handlers s)
unfolding abort_send_handlers
abort_send_handlers-InWindow s w =
    same_window s.socket _ (ground arith) (ground arith) (ground arith) (ground arith) w

pub cancel-InWindow : (s : State) → Good s → Good (cancel s)
unfolding cancel
cancel-InWindow s w =
    let s1 = abort_send_handlers (abort_recv_handlers s) in
    let w1 = abort_send_handlers-InWindow _ (abort_recv_handlers-InWindow s w) in
    option_rule Good s1.socket.connect_handler (λ _. w1)
      (λ h _. same_window s1.socket _ refl refl refl refl w1)

-- The reset starts with an empty network and the default mss.
pub reset_state-InWindow : (s : State) → Good (reset_state s)
unfolding reset_state outstanding
reset_state-InWindow s =
    cancel-InWindow _
      (record { mss_pos = omega arith; mss_fits = omega arith; counted = omega arith })

module _ (drops : List Effect → Packet → Bool) where
  connected-InWindow : (s : State) → Good s → InWindow? (connected drops s)
  unfolding connected
  connected-InWindow s w =
      option_rule InWindow? s.socket.connect_handler (λ _. tt)
        (λ h _. maybe_wakeup_writer-InWindow drops _ (same_window s.socket _ refl refl refl refl w))

  pub incoming_packet-InWindow :
      (s : State) (p : Packet) → Good s → InWindow? (incoming_packet drops s p)
  unfolding incoming_packet
  incoming_packet-InWindow s p w = by_type p.type
    where
      by_channel :
          (f : ℕ → Option State)
          → ((c : ℕ) → InWindow? (f c))
          → InWindow? (elim s.socket.channel [ none ↦ none | some c ↦ f c ])
      by_channel f h = option_rule InWindow? s.socket.channel (λ _. tt) (λ c _. h c)

      by_type :
          (t : PacketType)
          → InWindow? (elim t as (λ x. Option State) [
            | PacketType.uninitialized ↦ none
            | PacketType.syn ↦ some s
            | PacketType.syn_ack ↦ connected drops s
            | PacketType.ack ↦ elim s.socket.channel [
              | none ↦ none
              | some c ↦ elim (look_up p.seq_nr s.socket.outstanding_packet_sizes) [
                | none ↦ none
                | some n ↦ ack_on drops c s p.seq_nr n
              ]
            ]
            | PacketType.error ↦ elim s.socket.channel [ none ↦ none | some c ↦ data_on c s p ]
            | PacketType.payload ↦ elim s.socket.channel [ none ↦ none | some c ↦ data_on c s p ]
          ])
      by_type PacketType.uninitialized = tt
      by_type PacketType.syn = w
      by_type PacketType.syn_ack = connected-InWindow s w
      by_type PacketType.ack = by_channel _ (λ c.
          option_rule InWindow? (look_up p.seq_nr s.socket.outstanding_packet_sizes) (λ _. tt)
            (λ n e. ack_on-InWindow drops c s p.seq_nr n e w))
      by_type PacketType.error = by_channel _ (λ c. data_on-InWindow c s p w)
      by_type PacketType.payload = by_channel _ (λ c. data_on-InWindow c s p w)
