-- ===== src/Udp/Api.antt =====
-- The calls of a UDP socket in include/simulator/simulator.hpp, which abort what waits and pass on to
-- udp_socket.cpp, and those that throw the error instead of returning it.
pub mod Handled
pub mod Once
use libsimulator.Base.Errors.{ErrorCode, no_error, failed}
use libsimulator.Base.{ℕ, ◌+◌, Bool, List, [], ◌∷◌, ◌++◌, Option, none, some, if◌then◌else◌}
use libsimulator.Net.Address.{Endpoint}
use libsimulator.Net.Hops.{Route}
use libsimulator.Net.Packet.{Packet}
use libsimulator.Udp.{
  State, Received, fails, gets, receive_from_impl, async_receive_from_impl, incoming_packet,
}
use libsimulator.Udp.Control.{
  Host, abort_recv_handlers, async_wait_read, cancel, bind, close, open_socket, send_to,
}

-- `if (ec) throw boost::system::system_error(ec)`
pub data Outcome (A : Type 0) : Type 0 where
  returns : A → Outcome A
  throws : ErrorCode → Outcome A

abbrev pub or_throw : {A : Type 0} → ErrorCode → A → Outcome A
or_throw ec a = if failed ec then throws ec else returns a

-- `assert(!b.empty())` fails in the case of none.
unfoldable pub receive_from : State → List ℕ → Option (State × Received)
receive_from s bufs =
    let s1 = abort_recv_handlers s in
    elim (receive_from_impl s1.0 bufs) [ none ↦ none | some (k, r) ↦ some ((k, s1.1), r) ]

abbrev pub outcome_of : Received → Outcome (Endpoint × List ℕ)
outcome_of (fails ec) = throws ec
outcome_of (gets from bytes) = returns (from, bytes)

unfoldable pub receive_from_throwing : State → List ℕ → Option (State × Outcome (Endpoint × List ℕ))
receive_from_throwing s bufs = elim (receive_from s bufs) [
  | none ↦ none
  | some (s', r) ↦ some (s', outcome_of r)
]

-- async_receive and the two kinds of async_receive_from.
unfoldable pub async_receive_from : State → List ℕ → ℕ → Option State
async_receive_from s bufs handler = async_receive_from_impl (abort_recv_handlers s) bufs handler

unfoldable pub send_to_throwing : (ℕ → ℕ) → Host → ℕ → ℕ → Route → Route → List ℕ → Host × Outcome ℕ
send_to_throwing wire_time h now mtu hops out bytes =
    let (h', ec, n) = send_to wire_time h now mtu hops out bytes in (h', or_throw ec n)

unfoldable pub bind_throwing : Host → Endpoint → Host × Outcome (Unit {0})
bind_throwing h ep = let (h', ec) = bind h ep in (h', or_throw ec tt)

-- open and close report no error, since their `ec` is left as it is.
unfoldable pub open_throwing : Host → ℕ → Bool → Host × Outcome (Unit {0})
open_throwing h f v4 = (open_socket h f v4, or_throw no_error tt)

unfoldable pub close_throwing : Host → Host × Outcome (Unit {0})
close_throwing h = (close h, or_throw no_error tt)

unfoldable pub cancel_throwing : State → State × Outcome (Unit {0})
cancel_throwing s = (cancel s, or_throw no_error tt)

-- What happens to the receiving side of a socket.
pub data Call : Type 0 where
  receives : List ℕ → Call
  async_receives : List ℕ → ℕ → Call
  waits : ℕ → Call
  arrives : Packet → Call
  cancels : Call

unfoldable pub apply : Call → State → Option State
apply (receives bufs) s = elim (receive_from s bufs) [ none ↦ none | some (s', r) ↦ some s' ]
apply (async_receives bufs handler) s = async_receive_from s bufs handler
apply (waits handler) s = some (async_wait_read s handler)
apply (arrives p) s = incoming_packet s p
apply cancels s = some (cancel s)

unfoldable pub apply_all : List Call → State → Option State
apply_all [] s = some s
apply_all (c ∷ cs) s = elim (apply c s) [ none ↦ none | some s' ↦ apply_all cs s' ]
