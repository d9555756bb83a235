-- ===== src/Udp/Control.antt =====
-- The operations of udp_socket.cpp that reach the tables of the simulation, the end of pending calls, and the
-- waits. `Host` is a socket with the parts of the simulation that they change. m_send_timer is never set.
use libsimulator.Base.Errors.{
  ErrorCode, no_error, operation_aborted, bad_descriptor, address_family_not_supported, failed,
}
use libsimulator.Base.{
  ℕ, ◌+◌, ◌-◌, ◌*◌, ◌/◌, Bool, true, false, not, List, [], ◌∷◌, ◌++◌, Option, none, some, ltb,
  if◌then◌else◌, update,
}
use libsimulator.Net.Address.{Address, Endpoint, no_endpoint, is_v4, endpoint_eq}
use libsimulator.Net.Hops.{Route}
use libsimulator.Ports.{Sockets, unbind_udp_socket, rebind_udp_socket}
use libsimulator.Ports.Node.{node_bind_udp_socket}
use libsimulator.Udp.{
  Socket, State, Effect, received, notified, calls_send, calls_wait_send, emit,
  async_wait_receive_impl, send_to_impl,
}

-- `if (handler) post(…)`
abbrev pub post_if : State → Option ℕ → (ℕ → Effect) → State
post_if s none f = s
post_if s (some h) f = emit s (f h)

-- m_recv_timer.cancel(): the handler of a pending wait is posted with the arguments that are bound to it.
unfoldable pub cancel_recv_timer : State → State
cancel_recv_timer s = elim s.0.recv_timer [
  | none ↦ s
  | some t ↦ (record s.0 { recv_timer = none }, s.1 ++ calls_wait_send no_error ∷ [])
]

unfoldable pub abort_send_handlers : State → State
abort_send_handlers s =
    let s1 = post_if s s.0.send_handler (λ h. calls_send operation_aborted) in
    let s2 = post_if s1 s.0.wait_send_handler (λ h. calls_wait_send operation_aborted) in
    (record s2.0 { send_handler = none; wait_send_handler = none }, s2.1)

unfoldable pub abort_recv_handlers : State → State
abort_recv_handlers s =
    let s1 = post_if s s.0.recv_handler (λ h. received h operation_aborted none []) in
    let s2 = post_if s1 s.0.wait_recv_handler (λ h. notified h operation_aborted) in
    let s3 = cancel_recv_timer s2 in
    (record s3.0 { recv_handler = none; wait_recv_handler = none; recv_buffer = [] }, s3.1)

-- What a posted call runs: a handler with its error code, or a null handler: none.
unfoldable pub called : State → Effect → Option (ℕ × ErrorCode)
called s (calls_send ec) = elim s.0.send_handler [ none ↦ none | some h ↦ some (h, ec) ]
called s (calls_wait_send ec) = elim s.0.wait_send_handler [ none ↦ none | some h ↦ some (h, ec) ]
called s (received h ec from bytes) = some (h, ec)
called s (notified h ec) = some (h, ec)
called s (Effect.sent p) = none

-- The wait of m_recv_timer ends.
unfoldable pub wait_ends : State → State
wait_ends s = cancel_recv_timer s

unfoldable pub cancel : State → State
cancel s = cancel_recv_timer (abort_send_handlers (abort_recv_handlers s))

-- `m_send_queue_time / 2`, where the time is a number of microseconds
abbrev pub half_queue : ℕ → ℕ
half_queue t = t / 1000 / 2 * 1000

-- async_wait for wait_write and for wait_read.
unfoldable pub async_wait_write : State → ℕ → ℕ → State
async_wait_write s now handler =
    let s1 = abort_send_handlers s in
    let half = half_queue s.0.send_queue_time in
    let s2 = cancel_recv_timer s1 in
    if ltb half (s1.0.next_send - now)
    then (
      record s2.0 { recv_timer = some (s1.0.next_send + half); wait_send_handler = some handler },
      s2.1,
    )
    else emit s1 (notified handler no_error)

unfoldable pub async_wait_read : State → ℕ → State
async_wait_read s handler = async_wait_receive_impl (abort_recv_handlers s) handler

pub record Host : Type 0 where
  pub state : State
  pub this : ℕ
  pub ips : List Address
  pub tables : Sockets
  pub forwarders : ℕ → Option ℕ

abbrev pub with_socket : Host → Socket → Host
with_socket h k = record h { state = (k, h.state.1) }

unfoldable pub drop_forwarder : (ℕ → Option ℕ) → Option ℕ → ℕ → Option ℕ
drop_forwarder forwarders none i = forwarders i
drop_forwarder forwarders (some f) i = update forwarders f none i

unfoldable pub bind : Host → Endpoint → Host × ErrorCode
bind h ep =
    let k = h.state.0 in
    let (tables, addr, ec) = node_bind_udp_socket h.ips h.tables h.this ep in
    let failure : Host × ErrorCode = (record h { tables = tables }, ec) in
    let success : Host × ErrorCode = (
      record (with_socket h (record k { bound_to = addr; user_bound_to = addr })) {
        tables = tables;
      },
      no_error,
    ) in
    if not k.is_open
    then (h, bad_descriptor)
    else if (if is_v4 ep.address then not k.is_v4 else k.is_v4)
    then (h, address_family_not_supported)
    else if failed ec
    then failure
    else success

unfoldable pub close : Host → Host
close h =
    let k = h.state.0 in
    let bound = not (endpoint_eq k.bound_to no_endpoint) in
    let k1 = record k {
      bound_to = if bound then no_endpoint else k.bound_to;
      user_bound_to = if bound then no_endpoint else k.user_bound_to;
      is_open = false;
      forwarder = none;
    } in
    record h {
      state = cancel (k1, h.state.1);
      tables = if bound then unbind_udp_socket h.tables h.this k.bound_to else h.tables;
      forwarders = drop_forwarder h.forwarders k.forwarder;
    }

-- open, where the flag says that the protocol is v4 and `f` is the new forwarder.
unfoldable pub open_socket : Host → ℕ → Bool → Host
open_socket h f v4 =
    let h1 = close h in
    record (with_socket h1 (record h1.state.0 { is_open = true; is_v4 = v4; forwarder = some f })) {
      forwarders = update h1.forwarders f (some h.this);
    }

-- send_to: the start of send_to_impl, which binds a socket that is not bound, and the rest of it. The path MTU and
-- the routes are those of the endpoint that the socket is bound to then.
unfoldable pub send_to : (ℕ → ℕ) → Host → ℕ → ℕ → Route → Route → List ℕ → Host × ErrorCode × ℕ
send_to wire_time h now mtu hops out bytes =
    let h1 = record h { state = abort_send_handlers h.state } in
    let first : Host × ErrorCode =
      if endpoint_eq h1.state.0.bound_to no_endpoint then bind h1 no_endpoint else (h1, no_error) in
    let r = send_to_impl wire_time first.0.state now mtu hops out bytes in
    if failed first.1 then (first.0, first.1, 0) else (record first.0 { state = r.0 }, r.1, r.2)

-- The move to a new socket of this number: the host with the new socket, and the socket that is left. The
-- bound handlers and the pending wait go on to name the members of the old one, which is not shown.
unfoldable pub moved : Host → ℕ → Option (Host × Socket)
moved h this =
    let k = h.state.0 in
    let old = record k {
      send_handler = none;
      wait_send_handler = none;
      recv_handler = none;
      wait_recv_handler = none;
      recv_buffer = [];
      recv_timer = none;
      incoming_queue = [];
      forwarder = none;
      is_open = false;
      bound_to = no_endpoint;
    } in
    let h1 = record h {
      this = this;
      forwarders = elim k.forwarder [
        | none ↦ h.forwarders
        | some f ↦ update h.forwarders f (some this)
      ];
    } in
    if endpoint_eq k.bound_to no_endpoint
    then some (h1, old)
    else elim (rebind_udp_socket h.tables this k.bound_to) [
      | none ↦ none
      | some tables ↦ some (record h1 { tables = tables }, old)
    ]
