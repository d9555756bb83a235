-- ===== src/Acceptor.antt =====
-- acceptor.cpp: the listening socket. A socket, a handler and a channel are named by numbers; the
-- handler of the second kind gets a socket of its own, which the acceptor makes. The effects of a
-- call are a log. `route_to` gives the route to the end that initiated a channel, and
-- `connects` the error code of internal_connect on the socket accepted into.
pub mod Order
mod Tests
use libsimulator.Base.Errors.{
  ErrorCode, no_error, operation_aborted, bad_descriptor, invalid_argument, connection_reset,
  failed,
}
use libsimulator.Base.{
  ℕ, zero, suc, ◌+◌, Bool, true, false, not, ◌&&◌, List, [], ◌∷◌, ◌++◌, Option, none, some, ltb,
  if◌then◌else◌, length, is_some,
}
use libsimulator.Net.Packet.{Packet, new_packet, PacketType}
use libsimulator.Net.Address.{Endpoint, no_endpoint, endpoint_eq}
use libsimulator.Net.Hops.{Route}

pub data Handler : Type 0 where
  -- m_accept_handler with the socket to accept into, and m_accept_handler2
  into : ℕ → ℕ → Handler
  fresh : ℕ → Handler

pub record Acceptor : Type 0 where
  pub is_open : Bool
  pub bound_to : Endpoint
  -- the limit of the queue, where none is -1
  pub queue_size_limit : Option ℕ
  pub incoming_conns : List ℕ
  -- at most one of m_accept_handler and m_accept_handler2 is set
  pub waiting : Option Handler

pub data Effect : Type 0 where
  -- forward_packet
  sent : Packet → Effect
  -- a handler is posted
  completed : Handler → ErrorCode → Effect
  -- a channel is attached to the socket of a handler: internal_connect
  attached : Handler → ℕ → Effect

abbrev pub State : Type 0
State = Acceptor × List Effect

-- `if (qs == -1) qs = 20`, with the limit as an option
unfoldable pub listen : Acceptor → Option ℕ → Acceptor × ErrorCode
listen a qs =
    if not a.is_open
    then (a, bad_descriptor)
    else if endpoint_eq a.bound_to no_endpoint
    then (a, invalid_argument)
    else (record a { queue_size_limit = elim qs [ none ↦ some 20 | some n ↦ some n ] }, no_error)

abbrev pub internal_is_listening : Acceptor → Bool
internal_is_listening a = elim a.queue_size_limit [ none ↦ false | some n ↦ ltb 0 n ]

-- Either handler is posted with operation_aborted.
unfoldable pub cancel : State → State
cancel s = elim s.0.waiting [
  | none ↦ s
  | some h ↦ (record s.0 { waiting = none }, s.1 ++ completed h operation_aborted ∷ [])
]

module _ (route_to : ℕ → Route) (connects : Handler → ℕ → ErrorCode) where
  abbrev pub reset_packet : Acceptor → ℕ → Packet
  reset_packet a c = record new_packet {
    from = a.bound_to;
    type = PacketType.error;
    ec = connection_reset;
    overhead = 28;
    hops = route_to c;
  }

  pub resets : Acceptor → List ℕ → List Effect
  resets a [] = []
  resets a (c ∷ cs) = sent (reset_packet a c) ∷ resets a cs

  -- The branch of a closed acceptor: every connection is reset and the handler aborted.
  unfoldable pub drop_all : State → State
  drop_all (a, log) = cancel (record a { incoming_conns = [] }, log ++ resets a a.incoming_conns)

  -- The packet that notifies the other end.
  abbrev pub reply_type : ErrorCode → PacketType
  reply_type ec = if failed ec then PacketType.error else PacketType.syn_ack

  abbrev pub reply : Acceptor → ErrorCode → ℕ → Packet
  reply a ec c = record new_packet {
    from = a.bound_to;
    type = reply_type ec;
    ec = ec;
    overhead = 28;
    hops = route_to c;
    channel = some c;
  }

  -- A handler and a connection meet.
  unfoldable pub accept : State → Handler → ℕ → List ℕ → State
  accept (a, log) h c cs = (
    record a { waiting = none; incoming_conns = cs },
    log ++ attached h c ∷ sent (reply a (connects h c) c) ∷ completed h (connects h c) ∷ [],
  )

  unfoldable pub accept_next : State → Option Handler → List ℕ → State
  accept_next s none conns = s
  accept_next s (some h) [] = s
  accept_next s (some h) (c ∷ cs) = accept s h c cs

  unfoldable pub check_accept_queue : State → State
  check_accept_queue s =
      if s.0.is_open then accept_next s s.0.waiting s.0.incoming_conns else drop_all s

  -- The three kinds of async_accept: a handler that waits is aborted, and the new one waits. The
  -- socket to accept into is closed before, if it is open, which is not shown.
  unfoldable pub async_accept : State → Handler → State
  async_accept s h =
      let s1 = cancel s in check_accept_queue (record s1.0 { waiting = some h }, s1.1)

  -- incoming_packet of a SYN.
  unfoldable pub incoming_syn : State → ℕ → State
  incoming_syn (a, log) c =
      check_accept_queue (record a { incoming_conns = a.incoming_conns ++ c ∷ [] }, log)
