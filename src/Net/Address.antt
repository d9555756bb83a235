-- ===== src/Net/Address.antt =====
-- boost::asio::ip::address and the endpoints of basic_endpoint, with their equality.
use libsimulator.Base.{ℕ, ◌≡◌, ◌↔◌, refl, Bool, true, false, ◌&&◌, ◌==◌, arith}

pub data Address : Type 0 where
  v4 v6 : ℕ → Address

pub record Endpoint : Type 0 where
  pub address : Address
  pub port : ℕ

-- `address()`, and both `address_v4::any()`
abbrev pub any_v4 : Address
any_v4 = Address.v4 0

abbrev pub any_v6 : Address
any_v6 = Address.v6 0

-- `endpoint()`
abbrev pub no_endpoint : Endpoint
no_endpoint = record { address = any_v4; port = 0 }

abbrev pub is_v4 : Address → Bool
is_v4 (Address.v4 a) = true
is_v4 (Address.v6 a) = false

abbrev pub address_eq : Address → Address → Bool
address_eq (Address.v4 a) (Address.v4 b) = a == b
address_eq (Address.v6 a) (Address.v6 b) = a == b
address_eq (Address.v4 a) (Address.v6 b) = false
address_eq (Address.v6 a) (Address.v4 b) = false

unfoldable pub endpoint_eq : Endpoint → Endpoint → Bool
endpoint_eq x y = address_eq x.address y.address && x.port == y.port

pub address_eq_iff : (x y : Address) → (address_eq x y ≡ true) ↔ (x ≡ y)
address_eq_iff (Address.v4 a) (Address.v4 b) = ground arith
address_eq_iff (Address.v6 a) (Address.v6 b) = ground arith
address_eq_iff (Address.v4 a) (Address.v6 b) = ground arith
address_eq_iff (Address.v6 a) (Address.v4 b) = ground arith

pub endpoint_eq_iff : (x y : Endpoint) → (endpoint_eq x y ≡ true) ↔ (x ≡ y)
unfolding endpoint_eq
endpoint_eq_iff x y = ground (arith, address_eq_iff x.address y.address)

pub endpoint_eq_self : (x : Endpoint) → endpoint_eq x x ≡ true
endpoint_eq_self x = (endpoint_eq_iff x x).1 refl
