-- ===== src/Tcp/Input.antt =====
-- The reading operations of tcp_socket.cpp and incoming_packet.
use libsimulator.Base.Errors.{
  ErrorCode, no_error, would_block, bad_descriptor, not_connected, eof, failed, is_would_block,
}
use libsimulator.Base.{
  ℕ, ◌+◌, ◌-◌, min, Bool, true, false, not, ◌&&◌, ◌||◌, List, [], ◌∷◌, ◌++◌, Option, none, some,
  ltb, ◌==◌, if◌then◌else◌, length, take, drop, is_some, sum,
}
use libsimulator.Net.Packet.{Packet, new_packet, PacketType}
use libsimulator.Net.Address.{Endpoint}
use libsimulator.Tcp.{Effect, State, emit, sent, has_read, notified, remote_hops, send_on, look_up}
use libsimulator.Tcp.Write.{maybe_wakeup_writer, ack_on, next_seq}
use libsimulator.Tcp.Cancel.{reset_state, is_bound, forget_endpoint}
use libsimulator.Tcp.Order.{sequenced, ack_of}

abbrev pub is_error : Packet → Bool
is_error p = elim p.type [ PacketType.error ↦ true | _ ↦ false ]

-- available over the incoming queue: `ec` and the number.
unfoldable pub available_in : List Packet → ℕ → ErrorCode × ℕ
available_in [] ret = (no_error, ret)
available_in (p ∷ ps) ret =
    let rest = available_in ps (ret + length p.buffer) in
    if is_error p then if ltb 0 ret then (no_error, ret) else (p.ec, 0) else rest

unfoldable pub available : State → ErrorCode × ℕ
available s =
    if not s.socket.is_open
    then (bad_descriptor, 0)
    else if not (is_some s.socket.channel)
    then (not_connected, 0)
    else available_in s.socket.incoming_queue 0

-- The copy loop for one packet: the sizes of what is left of the buffers, the bytes copied, and those
-- left in the packet.
unfoldable pub fill : List ℕ → List ℕ → List ℕ × List ℕ × List ℕ
fill [] bytes = ([], [], bytes)
fill (n ∷ ns) bytes =
    let copied = take (min (length bytes) n) bytes in
    let left = drop (min (length bytes) n) bytes in
    let bufs = if n - min (length bytes) n == 0 then ns else (n - min (length bytes) n) ∷ ns in
    let next = fill ns left in
    elim left [ [] ↦ (bufs, copied, []) | b ∷ bs ↦ (next.0, copied ++ next.1, next.2) ]

-- What the loop over the incoming queue came to: the queue, the bytes in the buffers, and an error that
-- stood in front.
pub record Drained : Type 0 where
  pub queue : List Packet
  pub got : List ℕ
  pub error : Option ErrorCode

abbrev with_buffer : Packet → List ℕ → Packet
with_buffer p bytes = record p { buffer = bytes }

unfoldable pub drain : List Packet → List ℕ → List ℕ → Drained
drain [] bufs got = record { queue = []; got = got; error = none }
drain (p ∷ ps) bufs got =
    let r = fill bufs p.buffer in
    let next = drain ps r.0 (got ++ r.1) in
    if is_error p
    then if ltb 0 (length got)
      then record { queue = p ∷ ps; got = got; error = none }
      else record { queue = ps; got = []; error = some p.ec }
    else elim r.2 [
      | [] ↦ elim r.0 [ [] ↦ record { queue = ps; got = got ++ r.1; error = none } | n ∷ ns ↦ next ]
      | b ∷ bs ↦ record { queue = with_buffer p (b ∷ bs) ∷ ps; got = got ++ r.1; error = none }
    ]

abbrev refused : State → ErrorCode → State × ErrorCode × List ℕ
refused s ec = (s, ec, [])

-- `m_recv_buffer = bufs` and the loop.
abbrev pub read_queue : State → List ℕ → State × ErrorCode × List ℕ
read_queue s bufs =
    let r = drain s.socket.incoming_queue bufs [] in
    elim r.error [
      | none ↦ (
        record s { socket = record s.socket { incoming_queue = r.queue; recv_buffer = bufs } },
        no_error,
        r.got,
      )
      | some ec ↦ (
        record s {
          socket = record s.socket { incoming_queue = r.queue; recv_buffer = bufs; channel = none };
        },
        ec,
        [],
      )
    ]

-- read_some_impl: the state, `ec` and the bytes. The iterators into m_recv_buffer that the loop
-- moves do not change the buffer.
unfoldable pub read_some_impl : State → List ℕ → State × ErrorCode × List ℕ
read_some_impl s bufs =
    if sum bufs == 0
    then refused s no_error
    else if not s.socket.is_open
    then refused s bad_descriptor
    else if not (is_some s.socket.channel)
    then refused s not_connected
    else if is_some s.socket.connect_handler
    then refused s would_block
    else elim s.socket.incoming_queue [ [] ↦ refused s would_block | p ∷ ps ↦ read_queue s bufs ]

-- `m_recv_handler = nullptr; m_recv_buffer.clear()`
abbrev pub clear_recv : State → State
clear_recv s = record s { socket = record s.socket { recv_handler = none; recv_buffer = [] } }

unfoldable pub async_read_some_impl : State → List ℕ → ℕ → State
async_read_some_impl s bufs handler =
    let (s', ec, bytes) = read_some_impl s bufs in
    if sum bufs == 0
    then emit s (has_read handler no_error [])
    else if is_would_block ec
    then record s' {
      socket = record s'.socket {
        recv_buffer = bufs;
        recv_handler = some handler;
        recv_null_buffers = false;
      };
    }
    else if failed ec
    then clear_recv (emit s' (has_read handler ec []))
    else clear_recv (emit s' (has_read handler no_error bytes))

unfoldable pub async_wait_read_impl : State → ℕ → State
async_wait_read_impl s handler =
    let (ec, bytes) = available s in
    if failed ec || ltb 0 bytes then clear_recv (emit s (notified handler ec)) else record s {
      socket = record s.socket { wait_recv_handler = some handler; recv_null_buffers = true };
    }

-- A call with a null handler is none, as in maybe_wakeup_writer.
unfoldable pub maybe_wakeup_reader : State → Option State
maybe_wakeup_reader s =
    if not (length s.socket.incoming_queue == 1)
      || not (is_some s.socket.recv_handler) && not (is_some s.socket.wait_recv_handler)
    then some s
    else if s.socket.recv_null_buffers
    then elim s.socket.wait_recv_handler [
      | none ↦ none
      | some h ↦ some (
          async_wait_read_impl (record s { socket = record s.socket { wait_recv_handler = none } })
            h)
    ]
    else elim s.socket.recv_handler [
      | none ↦ none
      | some h ↦ some (
          async_read_some_impl (record s { socket = record s.socket { recv_handler = none } })
            s.socket.recv_buffer h)
    ]

-- The cases of an error and of a payload.
unfoldable pub data_on : ℕ → State → Packet → Option State
data_on c s p =
    let s1 = emit s (sent (ack_of s c p)) in
    let s2 = record s1 { socket = sequenced s1.socket p } in
    if p.seq_nr == s.socket.next_incoming_seq then maybe_wakeup_reader s2 else some s2

module _ (drops : List Effect → Packet → Bool) where
  -- `assert(m_connect_handler)` fails in the case of none.
  unfoldable pub connected : State → Option State
  connected s = elim s.socket.connect_handler [
    | none ↦ none
    | some h ↦ maybe_wakeup_writer drops (record (emit s (notified h no_error)) {
      socket = record s.socket { connect_handler = none };
    })
  ]

  -- incoming_packet. A null channel, the ACK of a packet that is not outstanding, and an
  -- uninitialized packet are undefined: none.
  unfoldable pub incoming_packet : State → Packet → Option State
  incoming_packet s p = elim p.type [
    | PacketType.uninitialized ↦ none
    | PacketType.syn ↦ some s
    | PacketType.syn_ack ↦ connected s
    | PacketType.ack ↦ elim s.socket.channel [
      | none ↦ none
      | some c ↦ elim (look_up p.seq_nr s.socket.outstanding_packet_sizes) [
        | none ↦ none
        | some n ↦ ack_on drops c s p.seq_nr n
      ]
    ]
    | PacketType.error ↦ elim s.socket.channel [ none ↦ none | some c ↦ data_on c s p ]
    | PacketType.payload ↦ elim s.socket.channel [ none ↦ none | some c ↦ data_on c s p ]
  ]

  -- The packet that tells the other side, if there is a connection.
  unfoldable pub say_goodbye : ℕ → State → State
  say_goodbye c s =
      let hops = remote_hops (s.channels c) s.socket.bound_to in
      let p = record new_packet {
        type = PacketType.error;
        ec = eof;
        from = s.socket.bound_to;
        overhead = 40;
        hops = hops;
        seq_nr = s.socket.next_outgoing_seq;
      } in
      elim hops [
        | [] ↦ s
        | h ∷ hs ↦ if is_some s.socket.connect_handler then s else send_on drops c (next_seq s) p
      ]

  -- The connection is given up.
  unfoldable pub disconnected : State → State
  disconnected s = elim s.socket.channel [
    | none ↦ s
    | some c ↦
        let s' = say_goodbye c s in record s' { socket = record s'.socket { channel = none } }
  ]

  -- close, with the endpoint that it unbinds from, if any. The forwarder that it gives up is reset
  -- too: Tcp/Connect does both.
  unfoldable pub close : State → State × Option Endpoint
  close s =
      let s1 = disconnected s in
      (
        reset_state (forget_endpoint s1),
        if is_bound s1.socket then some s1.socket.bound_to else none,
      )
