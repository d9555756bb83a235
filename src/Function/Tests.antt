-- ===== src/Function/Tests.antt =====
-- Programs of `function` objects, and instances of the theorems on them.
use libsimulator.Base.{ℕ, ◌+◌, ◌≡◌, refl, true, false, List, [], ◌∷◌, Option, none, some}
use libsimulator.Function.{
  Op, construct, move_construct, move_assign, destroy, call, apply, apply_all, construct_from,
  allocate_handler, take_from, move_assign_to, clear, destruct, invoke, dealloc_impl, call_impl,
  release, take_out, remove, deallocate, World, move_bind, call_bound,
}
use libsimulator.Function.Ownership.{IsOwned, total}
use libsimulator.Function.Once.{Program, brought, start, start-IsOwned, apply_all-IsOwned}

-- A handler is moved along and called, one is replaced, one is not stored for lack of memory, and
-- the move of another throws.
abbrev program : List Op
program =
    construct 0 (some 70) false 1
    ∷ move_construct 1 0
    ∷ construct 2 (some 80) false 2
    ∷ move_assign 2 1
    ∷ construct 3 none false 3
    ∷ construct 3 (some 90) true 4
    ∷ call 2
    ∷ destroy 0
    ∷ destroy 1
    ∷ destroy 2
    ∷ []

abbrev called_by : Option World → List ℕ
called_by none = []
called_by (some w) = w.called

called_once : called_by (apply_all program start) ≡ 1 ∷ []
unfolding apply apply_all construct_from allocate_handler take_from move_assign_to clear destruct
    invoke dealloc_impl call_impl release take_out remove deallocate
called_once = refl

-- An argument that is bound is the one that is passed, whatever the call is given.
bound : call_bound (move_bind (λ (n : ℕ). n + 1) 4) true ≡ 5
bound = refl

program-Program : Program program start
unfolding apply apply_all construct_from allocate_handler take_from move_assign_to clear destruct
    invoke dealloc_impl call_impl release take_out remove deallocate
program-Program = (
  (refl, refl),
  (
    (refl, refl),
    (
      (refl, refl),
      ((refl, refl), ((refl, tt), ((refl, refl), (refl, (refl, (refl, (refl, tt))))))),
    ),
  ),
)

apply_all-IsOwned_example :
    (after : World) × (apply_all program start ≡ some after)
    × IsOwned after
    × ((k : ℕ) → total k after ≡ total k start + brought program k)
apply_all-IsOwned_example = apply_all-IsOwned program start start-IsOwned program-Program
