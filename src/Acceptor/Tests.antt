-- ===== src/Acceptor/Tests.antt =====
-- Instances of the theorem about acceptors.
use libsimulator.Base.Errors.{no_error}
use libsimulator.Base.{◌≡◌, refl, inl, true, List, [], ◌∷◌, none, some}
use libsimulator.Net.Address.{Address}
use libsimulator.Acceptor.{State, into, fresh}
use libsimulator.Acceptor.Order.{
  served, Call, accepts, syn, apply_all, all_conns, Idle, apply_all-in_order,
}

abbrev listening : State
listening = (
  record {
    is_open = true;
    bound_to = record { address = Address.v4 1; port = 80 };
    queue_size_limit = some 20;
    incoming_conns = [];
    waiting = none;
  },
  [],
)

abbrev calls : List Call
calls = syn 5 ∷ syn 6 ∷ accepts (into 1 2) ∷ accepts (fresh 3) ∷ accepts (fresh 4) ∷ syn 7 ∷ []

apply_all-in_order_example :
    (all_conns (λ c. []) (λ h c. no_error) (apply_all (λ c. []) (λ h c. no_error) listening calls)
      ≡ 5 ∷ 6 ∷ 7 ∷ [])
    × Idle (λ c. []) (λ h c. no_error) (apply_all (λ c. []) (λ h c. no_error) listening calls)
unfolding served
apply_all-in_order_example =
    apply_all-in_order (λ c. []) (λ h c. no_error) listening calls refl (inl refl)
