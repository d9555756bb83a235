-- ===== src/Tcp/Write.antt =====
-- The writing operations of tcp_socket.cpp and the handling of ACKs.
use libsimulator.Base.Errors.{
  ErrorCode, no_error, operation_aborted, would_block, bad_descriptor, not_connected, failed,
  is_would_block,
}
use libsimulator.Base.{
  ℕ, zero, suc, ◌+◌, ◌*◌, ◌/◌, ◌-◌, min, Bool, true, false, not, ◌&&◌, List, [], ◌∷◌, Option, none,
  some, ltb, leb, ◌==◌, if◌then◌else◌, length, take, drop, is_some,
}
use libsimulator.Net.Packet.{Packet, new_packet, PacketType}
use libsimulator.Net.Hops.{Route}
use libsimulator.Tcp.{Effect, State, emit, has_written, notified, remote_hops, send_on, delete}

-- `m_bytes_in_flight + m_mss > m_cwnd`
abbrev pub window_full : State → Bool
window_full s = ltb s.socket.cwnd (s.socket.bytes_in_flight + s.socket.mss)

-- What a write came to: the bytes sent and, if it returned early, the error code.
pub record Written : Type 0 where
  pub state : State
  pub ret : ℕ
  pub stop : Option ErrorCode

abbrev pub new_segment : State → Route → List ℕ → Packet
new_segment s hops bytes = record new_packet {
  type = PacketType.payload;
  buffer = bytes;
  from = s.socket.bound_to;
  overhead = 40;
  hops = hops;
  seq_nr = s.socket.next_outgoing_seq;
  drop_fun = some s.socket.this;
}

-- `m_next_outgoing_seq++`
abbrev pub next_seq : State → State
next_seq s = record s {
  socket = record s.socket { next_outgoing_seq = suc s.socket.next_outgoing_seq };
}

-- `if (m_send_handler) post(…)`
abbrev post_write : State → Option ℕ → ErrorCode → ℕ → State
post_write s none ec n = s
post_write s (some h) ec n = emit s (has_written h ec n)

abbrev pub post_notice : State → Option ℕ → ErrorCode → State
post_notice s none ec = s
post_notice s (some h) ec = emit s (notified h ec)

abbrev pub clear_send : State → State
clear_send s = record s { socket = record s.socket { send_handler = none; send_buffer = [] } }

unfoldable pub abort_send_handlers : State → State
abort_send_handlers s =
    let s1 = post_write s s.socket.send_handler operation_aborted 0 in
    let s2 = post_notice s1 s.socket.wait_send_handler operation_aborted in
    record s2 {
      socket = record s2.socket {
        send_handler = none;
        wait_send_handler = none;
        send_buffer = [];
        send_null_buffers = false;
      };
    }

abbrev blocked : State → ErrorCode → State × ErrorCode × ℕ
blocked s ec = (s, ec, 0)

abbrev pub finished : Written → State × ErrorCode × ℕ
finished r = elim r.stop [ none ↦ (r.state, no_error, r.ret) | some ec ↦ (r.state, ec, r.ret) ]

module _ (drops : List Effect → Packet → Bool) where
  abbrev pub send_segment : ℕ → State → Route → List ℕ → State
  send_segment c s hops bytes = send_on drops c (next_seq s) (new_segment s hops bytes)

  -- The loop over one buffer. Each round sends a byte at least, if the mss is not 0, so that the
  -- size of the buffer is fuel enough.
  unfoldable pub send_chunks : ℕ → ℕ → State → Route → List ℕ → ℕ → Written
  send_chunks zero c s hops ptr ret = record { state = s; ret = ret; stop = none }
  send_chunks (suc fuel) c s hops [] ret = record { state = s; ret = ret; stop = none }
  send_chunks (suc fuel) c s hops (b ∷ bs) ret =
      let n = min (length (b ∷ bs)) s.socket.mss in
      let s' = send_segment c s hops (take n (b ∷ bs)) in
      elim (window_full s') [
        | true ↦ record {
          state = s';
          ret = ret + n;
          stop = some (if ret + n == 0 then would_block else no_error);
        }
        | false ↦ send_chunks fuel c s' hops (drop n (b ∷ bs)) (ret + n)
      ]

  -- The loop over the buffers.
  unfoldable pub send_buffers : ℕ → State → Route → List (List ℕ) → ℕ → Written
  send_buffers c s hops [] ret = record { state = s; ret = ret; stop = none }
  send_buffers c s hops (b ∷ bs) ret =
      let r = send_chunks (length b) c s hops b ret in
      elim (is_some r.stop) [ true ↦ r | false ↦ send_buffers c r.state hops bs r.ret ]

  unfoldable pub write_some_on : ℕ → State → List (List ℕ) → State × ErrorCode × ℕ
  write_some_on c s bufs =
      if is_some s.socket.connect_handler
      then blocked s would_block
      else elim (remote_hops (s.channels c) s.socket.bound_to) [
        | [] ↦ blocked s not_connected
        | h ∷ hs ↦
            if window_full s
            then blocked s would_block
            else finished (send_buffers c s (h ∷ hs) bufs 0)
      ]

  -- write_some_impl: the state, `ec` and the number of bytes.
  unfoldable pub write_some_impl : State → List (List ℕ) → State × ErrorCode × ℕ
  write_some_impl s bufs =
      if not s.socket.is_open then blocked s bad_descriptor else elim s.socket.channel [
        | none ↦ blocked s not_connected
        | some c ↦ write_some_on c s bufs
      ]

  unfoldable pub async_write_some_impl : State → List (List ℕ) → ℕ → State
  async_write_some_impl s bufs handler =
      let (s', ec, n) = write_some_impl s bufs in
      if is_would_block ec
      then record s' {
        socket = record s'.socket { send_handler = some handler; send_buffer = bufs };
      }
      else if failed ec
      then clear_send (emit s' (has_written handler ec 0))
      else clear_send (emit s' (has_written handler no_error n))

  unfoldable pub async_wait_write_impl : State → ℕ → State
  async_wait_write_impl s handler =
      if not s.socket.is_open
      then emit s (notified handler bad_descriptor)
      else if not (is_some s.socket.channel)
      then emit s (notified handler not_connected)
      else if not (is_some s.socket.connect_handler) && not (window_full s)
      then emit s (notified handler no_error)
      else record s {
        socket = record s.socket { wait_send_handler = some handler; send_null_buffers = true };
      }

  -- The handler is moved out before the call. A call with a null handler, which happens when one
  -- kind of handler waits and the flag names the other, is left undefined by the source: none.
  unfoldable pub maybe_wakeup_writer : State → Option State
  maybe_wakeup_writer s =
      if not (is_some s.socket.send_handler) && not (is_some s.socket.wait_send_handler)
      then some s
      else if s.socket.send_null_buffers
      then elim s.socket.wait_send_handler [
        | none ↦ none
        | some h ↦ some (
            async_wait_write_impl
              (record s { socket = record s.socket { wait_send_handler = none } }) h)
      ]
      else elim s.socket.send_handler [
        | none ↦ none
        | some h ↦ some (
            async_write_some_impl (record s { socket = record s.socket { send_handler = none } })
              s.socket.send_buffer h)
      ]

  -- The loop that sends dropped packets again, over the list that it takes them from. A packet that
  -- is dropped again within it has no drop function and does not come back to the list.
  unfoldable pub resend : ℕ → State → List Packet → State
  resend c s [] = record s { socket = record s.socket { outgoing_packets = [] } }
  resend c s (p ∷ ps) =
      let rest =
        resend c
          (send_on drops c (record s { socket = record s.socket { outgoing_packets = ps } }) p)
          ps in
      if leb (s.socket.bytes_in_flight + length p.buffer) s.socket.cwnd
      then rest
      else record s { socket = record s.socket { outgoing_packets = p ∷ ps } }

  -- `m_cwnd += m_mss * acked_bytes / m_cwnd`, where an overflow of int is undefined: none.
  unfoldable pub grown : State → ℕ → Option State
  grown s acked =
      let cwnd = s.socket.cwnd + s.socket.mss * acked / s.socket.cwnd in
      if leb (s.socket.mss * acked) 2147483647 && leb cwnd 2147483647
      then some (record s { socket = record s.socket { cwnd = cwnd } })
      else none

  -- `m_outstanding_packet_sizes.erase(it); m_bytes_in_flight -= acked_bytes`
  abbrev pub acked : State → ℕ → ℕ → State
  acked s seq_nr n = record s {
    socket = record s.socket {
      outstanding_packet_sizes = delete seq_nr s.socket.outstanding_packet_sizes;
      bytes_in_flight = s.socket.bytes_in_flight - n;
    };
  }

  -- The case of an ACK. `was_writeable` holds what the code gives it: that the window is full.
  unfoldable pub ack_on : ℕ → State → ℕ → ℕ → Option State
  ack_on c s seq_nr n =
      let was_writeable = window_full s in
      let s1 = acked s seq_nr n in
      elim (grown (resend c s1 s1.socket.outgoing_packets) n) [
        | none ↦ none
        | some s2 ↦
            if not was_writeable && not (window_full s2) then maybe_wakeup_writer s2 else some s2
      ]
