-- ===== src/Ports/Table.antt =====
-- The laws of the tables.
use libsimulator.Base.{
  ℕ, ◌≡◌, Bool, false, ◌&&◌, [], ◌∷◌, Option, none, some, arith, ◌==◌, if◌then◌else◌, is_some,
}
use libsimulator.Net.Address.{Endpoint, endpoint_eq, endpoint_eq_iff}
use libsimulator.Ports.{Table, find, erase, assign, unbind_in}

abbrev pub owns : Option ℕ → ℕ → Bool
owns none socket = false
owns (some s) socket = s == socket

pub find-erase :
    (k e : Endpoint) (t : Table) → find e (erase k t) ≡ (if endpoint_eq k e then none else find e t)
unfolding find erase
find-erase k e [] = ground arith
find-erase k e ((x, s) ∷ t) =
    ground (arith, find-erase k e t, endpoint_eq_iff x k, endpoint_eq_iff x e, endpoint_eq_iff k e)

pub find-assign :
    (k e : Endpoint) (socket : ℕ) (t : Table)
    → find e (assign k socket t)
      ≡ (if endpoint_eq k e && is_some (find e t) then some socket else find e t)
unfolding find assign
find-assign k e socket [] = ground arith
find-assign k e socket ((x, s) ∷ t) =
    ground (
      arith,
      find-assign k e socket t,
      endpoint_eq_iff x k,
      endpoint_eq_iff x e,
      endpoint_eq_iff k e,
    )

-- `unbind` takes the entry away if it names the socket, and nothing else.
pub find-unbind_in :
    (t : Table) (socket : ℕ) (ep e : Endpoint)
    → find e (unbind_in t socket ep)
      ≡ (if endpoint_eq ep e && owns (find ep t) socket then none else find e t)
unfolding unbind_in
find-unbind_in t socket ep e = ground (arith, find-erase ep e t)
