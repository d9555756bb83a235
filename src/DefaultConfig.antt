-- ===== src/DefaultConfig.antt =====
-- default_config.cpp: one queue for the network, and one each way for every address, made when it is first
-- asked for. A queue is named by a number, and the parameters that it was made with are kept.
pub mod Routes
mod Tests
use libsimulator.Base.Errors.{ErrorCode, no_error, host_not_found}
use libsimulator.Base.{
  ℕ, ◌≡◌, ◌<◌, ◌+◌, ◌*◌, Bool, true, false, List, [], ◌∷◌, ◌++◌, Option, none, some, arith,
  if◌then◌else◌,
}
use libsimulator.Net.Address.{Address, address_eq}
use libsimulator.Net.Hops.{Route}
use libsimulator.Http.{Text, text_eq}
use libsimulator.Proxy.Url.{codes}
use libsimulator.Network.{Config}

-- The bandwidth in bytes per second, the delay in nanoseconds, the size in bytes, and the name.
pub record Parameters : Type 0 where
  pub bandwidth : ℕ
  pub delay : ℕ
  pub size : ℕ
  pub name : Text

abbrev pub Modems : Type 0
Modems = List (Address × ℕ)

pub record DefaultConfig : Type 0 where
  pub network : Option ℕ
  pub outgoing : Modems
  pub incoming : Modems
  -- the queues made so far
  pub made : List (ℕ × Parameters)
  -- the number of the next queue
  pub next : ℕ

abbrev pub milliseconds : ℕ → ℕ
milliseconds n = n * 1000000

-- `std::make_shared<queue>(…)`
abbrev pub made_queue : DefaultConfig → Parameters → DefaultConfig
made_queue c q = record c { made = c.made ++ (c.next, q) ∷ []; next = c.next + 1 }

unfoldable pub build : DefaultConfig → DefaultConfig
build c =
    record (made_queue c
      (record { bandwidth = 0; delay = milliseconds 30; size = 0; name = codes "network" })) {
        network = some c.next;
      }

unfoldable pub clear : DefaultConfig → DefaultConfig
clear c = record c { network = none; outgoing = []; incoming = [] }

-- Without build the hop is a null pointer: none.
unfoldable pub channel_route : DefaultConfig → Option Route
channel_route c = elim c.network [ none ↦ none | some n ↦ some (n ∷ []) ]

unfoldable pub find_modem : Address → Modems → Option ℕ
find_modem a [] = none
find_modem a ((b, n) ∷ m) = if address_eq b a then some n else find_modem a m

abbrev pub modem_in : Parameters
modem_in = record {
  bandwidth = 800 * 1000;
  delay = milliseconds 1;
  size = 200 * 1000;
  name = codes "DSL modem in";
}

abbrev pub modem_out : Parameters
modem_out = record {
  bandwidth = 200 * 1000;
  delay = milliseconds 1;
  size = 200 * 1000;
  name = codes "DSL modem out";
}

unfoldable pub incoming_route : DefaultConfig → Address → DefaultConfig × Route
incoming_route c a = elim (find_modem a c.incoming) [
  | some n ↦ (c, n ∷ [])
  | none ↦ (record (made_queue c modem_in) { incoming = (a, c.next) ∷ c.incoming }, c.next ∷ [])
]

unfoldable pub outgoing_route : DefaultConfig → Address → DefaultConfig × Route
outgoing_route c a = elim (find_modem a c.outgoing) [
  | some n ↦ (c, n ∷ [])
  | none ↦ (record (made_queue c modem_out) { outgoing = (a, c.next) ∷ c.outgoing }, c.next ∷ [])
]

unfoldable pub path_mtu : Address → Address → ℕ
path_mtu a b = 1475

-- The time in nanoseconds, the addresses and `ec`.
unfoldable pub hostname_lookup : Text → ℕ × List Address × ErrorCode
hostname_lookup hostname =
    if text_eq hostname (codes "localhost")
    then (1000, Address.v6 1 ∷ Address.v4 2130706433 ∷ [], no_error)
    else (milliseconds 100, [], host_not_found)

pub path_mtu-pos : (a b : Address) → 0 < path_mtu a b
unfolding path_mtu
path_mtu-pos a b = omega arith

-- What a simulation relies on, once the network is built.
unfoldable pub config_of : ℕ → Config
config_of network = record {
  channel_route = λ a b. network ∷ [];
  path_mtu = path_mtu;
  hostname_lookup = λ a name. hostname_lookup name;
  mtu_pos = path_mtu-pos;
}
