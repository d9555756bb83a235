-- ===== src/Tcp/Cancel.antt =====
-- cancel of tcp_socket.cpp, and what close resets behind the loss of the endpoint.
use libsimulator.Base.Errors.{operation_aborted}
use libsimulator.Base.{ℕ, ◌*◌, Bool, false, not, [], Option, none, some, if◌then◌else◌}
use libsimulator.Net.Address.{no_endpoint, endpoint_eq}
use libsimulator.Tcp.{Socket, State, emit, has_read, notified, recv_timer_cancelled}
use libsimulator.Tcp.Write.{abort_send_handlers, post_notice}

abbrev pub abort_read : State → Option ℕ → State
abort_read s none = s
abort_read s (some h) = emit s (has_read h operation_aborted [])

unfoldable pub abort_recv_handlers : State → State
abort_recv_handlers s =
    let s1 = abort_read s s.socket.recv_handler in
    let s2 =
      emit (post_notice s1 s.socket.wait_recv_handler operation_aborted) recv_timer_cancelled in
    record s2 {
      socket = record s2.socket {
        recv_handler = none;
        wait_recv_handler = none;
        recv_buffer = [];
        recv_null_buffers = false;
      };
    }

unfoldable pub cancel : State → State
cancel s =
    let s1 = abort_send_handlers (abort_recv_handlers s) in
    elim s1.socket.connect_handler [
      | none ↦ s1
      | some h ↦ record (emit s1 (notified h operation_aborted)) {
        socket = record s1.socket { connect_handler = none; channel = none };
      }
    ]

-- The part of close behind the loss of the endpoint: "reset socket state" and cancel.
unfoldable pub reset_state : State → State
reset_state s = cancel (record s {
  socket = record s.socket {
    is_open = false;
    mss = 1475;
    cwnd = 1475 * 2;
    bytes_in_flight = 0;
    outstanding_packet_sizes = [];
    recv_null_buffers = false;
    send_null_buffers = false;
    next_incoming_seq = 0;
    next_outgoing_seq = 0;
    last_drop_seq = 0;
  };
})

abbrev pub is_bound : Socket → Bool
is_bound k = not (endpoint_eq k.bound_to no_endpoint)

-- Behind the unbinding; the forwarder goes too.
unfoldable pub forget_endpoint : State → State
forget_endpoint s =
    let k = s.socket in
    record s {
      socket = record k {
        bound_to = if is_bound k then no_endpoint else k.bound_to;
        user_bound_to = if is_bound k then no_endpoint else k.user_bound_to;
        forwarder = none;
      };
    }
