-- ===== src/SocketBase.antt =====
-- socket_base of include/simulator/simulator.hpp, which both kinds of socket are built on: the endpoints, the
-- routes and the options. The names and values of the platform's options are arguments.
use libsimulator.Base.Errors.{ErrorCode, no_error, bad_descriptor}
use libsimulator.Base.{
  ℕ, ◌*◌, ◌/◌, ◌≡◌, refl, if_rule, arith, Bool, true, false, not, [], ◌∷◌, Option, none, some, ◌==◌,
  if◌then◌else◌,
}
use libsimulator.Net.Address.{Address, Endpoint, no_endpoint}
use libsimulator.Net.Hops.{Route, append}

pub record SocketBase : Type 0 where
  pub is_open : Bool
  pub bound_to : Endpoint
  pub user_bound_to : Endpoint
  -- the number of the sink_forwarder, if there is one
  pub forwarder : Option ℕ

-- Both give the endpoint and `ec`, where no_error is an `ec` that is left alone.
unfoldable pub local_endpoint : SocketBase → Endpoint × ErrorCode
local_endpoint s = if s.is_open then (s.user_bound_to, no_error) else (no_endpoint, bad_descriptor)

unfoldable pub local_bound_to : SocketBase → Endpoint × ErrorCode
local_bound_to s = if s.is_open then (s.bound_to, no_error) else (no_endpoint, bad_descriptor)

pub local_bound_to_open :
    (s : SocketBase) → s.is_open ≡ true → local_bound_to s ≡ (s.bound_to, no_error)
unfolding local_bound_to
local_bound_to_open s o =
    if_rule (λ (r : Endpoint × ErrorCode). r ≡ (s.bound_to, no_error)) s.is_open (λ _. refl)
      (λ h. ground arith)

pub local_bound_to_shut :
    (s : SocketBase) → s.is_open ≡ false → local_bound_to s ≡ (no_endpoint, bad_descriptor)
unfolding local_bound_to
local_bound_to_shut s o =
    if_rule (λ (r : Endpoint × ErrorCode). r ≡ (no_endpoint, bad_descriptor)) s.is_open
      (λ h. ground arith) (λ _. refl)

-- The route of the io_context, where none is undefined, with the forwarder behind it;
-- `assert(m_forwarder)` fails in the case of none.
unfoldable pub get_incoming_route : (Address → Option Route) → SocketBase → Option Route
get_incoming_route incoming s = elim s.forwarder [
  | none ↦ none
  | some f ↦ elim (incoming s.bound_to.address) [ none ↦ none | some r ↦ some (append r (f ∷ [])) ]
]

unfoldable pub get_outgoing_route : (Address → Option Route) → SocketBase → Option Route
get_outgoing_route outgoing s = outgoing s.bound_to.address

pub record Options : Type 0 where
  pub non_blocking : Bool
  pub dont_fragment : Bool
  pub max_receive_queue_size : ℕ
  -- in microseconds
  pub send_queue_time : ℕ

-- What the platform calls its options; none is a macro that is not defined.
pub record Platform : Type 0 where
  pub dontfrag : Option ℕ
  pub dontfragment : Option ℕ
  pub mtu_discover : Option ℕ
  pub pmtudisc_do : ℕ

unfoldable pub is_option : Option ℕ → ℕ → Bool
is_option none name = false
is_option (some n) name = name == n

-- The template set_option, for the name of the option and its value.
unfoldable pub set_option : Platform → Options → ℕ → ℕ → Options
set_option pf o name value =
    let o1 =
      if is_option pf.dontfrag name then record o { dont_fragment = not (value == 0) } else o in
    let o2 =
      if is_option pf.dontfragment name
      then record o1 { dont_fragment = not (value == 0) }
      else o1 in
    if is_option pf.mtu_discover name
    then record o2 { dont_fragment = value == pf.pmtudisc_do }
    else o2

abbrev pub nic_bandwidth : ℕ
nic_bandwidth = 100000000

unfoldable pub set_receive_buffer_size : Options → ℕ → Options
set_receive_buffer_size o value = record o { max_receive_queue_size = value }

-- The quotient of the two floating-point numbers, cut to an integer, is exact for a size of 31 bits.
unfoldable pub set_send_buffer_size : Options → ℕ → Options
set_send_buffer_size o value = record o { send_queue_time = value * 1000000 / nic_bandwidth }

unfoldable pub get_receive_buffer_size : Options → ℕ
get_receive_buffer_size o = o.max_receive_queue_size

unfoldable pub set_non_blocking : Options → Bool → Options
set_non_blocking o b = record o { non_blocking = b }
