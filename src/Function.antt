-- ===== src/Function.antt =====
-- include/simulator/function.hpp, with the allocators of include/simulator/mallocator.hpp: the owning
-- pointers to type-erased handlers, over a heap. A handler is a number, an address is what malloc
-- returned, and a variable stands for an object of the class `function`. What C++ leaves undefined,
-- and a failed assertion, is none.
pub mod Ownership
pub mod Moves
pub mod Operations
pub mod Once
mod Tests
use libsimulator.Base.{ℕ, Bool, List, [], ◌∷◌, Option, none, some, ◌==◌, if◌then◌else◌, update}

-- An object of the class `function`: not constructed, or with its m_callable.
pub data Var : Type 0 where
  dead : Var
  holds : Option ℕ → Var

pub record World : Type 0 where
  -- what malloc gave out and free has not taken back
  pub blocks : List ℕ
  -- the function_impl objects, with their address and their handler
  pub objects : List (ℕ × ℕ)
  pub vars : ℕ → Var
  -- the handlers that were called, and those destroyed uncalled, the last one first
  pub called : List ℕ
  pub dropped : List ℕ

-- The old value, and what the variable holds now.
abbrev pub exchange_ {ℓ} : {A : Type ℓ} → A → A → A × A
exchange_ var new_val = (var, new_val)

abbrev pub set_var : World → ℕ → Var → World
set_var w i v = record w { vars = update w.vars i v }

unfoldable pub remove : ℕ → List ℕ → Option (List ℕ)
remove p [] = none
remove p (q ∷ qs) =
    if q == p then some qs else elim (remove p qs) [ none ↦ none | some rest ↦ some (q ∷ rest) ]

unfoldable pub take_out : ℕ → List (ℕ × ℕ) → Option (ℕ × List (ℕ × ℕ))
take_out p [] = none
take_out p ((q, h) ∷ os) =
    if q == p
    then some (h, os)
    else elim (take_out p os) [ none ↦ none | some (k, rest) ↦ some (k, (q, h) ∷ rest) ]

-- `std::free`, of a block that malloc gave out.
unfoldable pub deallocate : ℕ → World → Option World
deallocate p w = elim (remove p w.blocks) [
  | none ↦ none
  | some bs ↦ some (record w { blocks = bs })
]

-- The pointer is none if an exception is thrown; then the handler, which was passed by value, is
-- destroyed. `malloc` is the result of allocate, and `throws` says whether moving the handler throws.
unfoldable pub allocate_handler : Option ℕ → Bool → ℕ → World → Option (Option ℕ × World)
allocate_handler none throws h w = some (none, record w { dropped = h ∷ w.dropped })
allocate_handler (some p) throws h w =
    let w1 = record w { blocks = p ∷ w.blocks } in
    if throws
    then elim (deallocate p w1) [
      | none ↦ none
      | some w2 ↦ some (none, record w2 { dropped = h ∷ w2.dropped })
    ]
    else some (some p, record w1 { objects = (p, h) ∷ w1.objects })

-- The handler is moved out of the object, which is destroyed and its memory given back.
unfoldable pub release : ℕ → World → Option (ℕ × World)
release mem w = elim (take_out mem w.objects) [
  | none ↦ none
  | some (h, rest) ↦ elim (deallocate mem (record w { objects = rest })) [
    | none ↦ none
    | some w' ↦ some (h, w')
  ]
]

unfoldable pub call_impl : ℕ → World → Option World
call_impl mem w = elim (release mem w) [
  | none ↦ none
  | some (h, w') ↦ some (record w' { called = h ∷ w'.called })
]

unfoldable pub dealloc_impl : ℕ → World → Option World
dealloc_impl mem w = elim (release mem w) [
  | none ↦ none
  | some (h, w') ↦ some (record w' { dropped = h ∷ w'.dropped })
]

abbrev clear_at : Var → ℕ → World → Option World
clear_at dead i w = none
clear_at (holds none) i w = some w
clear_at (holds (some p)) i w = elim (dealloc_impl p w) [
  | none ↦ none
  | some w' ↦ some (set_var w' i (holds none))
]

unfoldable pub clear : ℕ → World → Option World
clear i w = clear_at (w.vars i) i w

-- `m_callable = exchange_(other.m_callable, nullptr)`
abbrev pub take_from_at : Var → ℕ → ℕ → World → Option World
take_from_at dead i j w = none
take_from_at (holds p) i j w =
    let (old, now) = exchange_ p none in some (set_var (set_var w j (holds now)) i (holds old))

unfoldable pub take_from : ℕ → ℕ → World → Option World
take_from i j w = take_from_at (w.vars j) i j w

abbrev pub store_new : ℕ → Option ℕ × World → World
store_new i (none, w) = w
store_new i (some p, w) = set_var w i (holds (some p))

unfoldable pub construct_from : ℕ → Option ℕ → Bool → ℕ → World → Option World
construct_from i malloc throws h w = elim (allocate_handler malloc throws h w) [
  | none ↦ none
  | some r ↦ some (store_new i r)
]

unfoldable pub move_assign_to : ℕ → ℕ → World → Option World
move_assign_to i j w =
    if j == i then some w else elim (clear i w) [ none ↦ none | some w' ↦ take_from i j w' ]

unfoldable pub destruct : ℕ → World → Option World
destruct i w = elim (clear i w) [ none ↦ none | some w' ↦ some (set_var w' i dead) ]

-- `operator()`: the pointer is gone before the handler runs.
abbrev call_at : Var → ℕ → World → Option World
call_at dead i w = none
call_at (holds none) i w = none
call_at (holds (some p)) i w = call_impl p (set_var w i (holds none))

unfoldable pub invoke : ℕ → World → Option World
invoke i w = call_at (w.vars i) i w

pub data Op : Type 0 where
  -- from a handler, with what malloc returns and whether its move throws
  construct : ℕ → Option ℕ → Bool → ℕ → Op
  default_construct : ℕ → Op
  move_construct move_assign : ℕ → ℕ → Op
  assign_null destroy call : ℕ → Op

unfoldable pub apply : Op → World → Option World
apply (construct i malloc throws h) w = construct_from i malloc throws h w
apply (default_construct i) w = some (set_var w i (holds none))
apply (move_construct i j) w = take_from i j w
apply (move_assign i j) w = move_assign_to i j w
apply (assign_null i) w = clear i w
apply (destroy i) w = destruct i w
apply (call i) w = invoke i w

unfoldable pub apply_all : List Op → World → Option World
apply_all [] w = some w
apply_all (o ∷ os) w = elim (apply o w) [ none ↦ none | some w' ↦ apply_all os w' ]

-- move_binder: the arguments that were bound, and a call that ignores its own.
pub record MoveBinder (A R : Type 0) : Type 0 where
  pub args : A
  pub callable : A → R

abbrev pub move_bind : {A R : Type 0} → (A → R) → A → MoveBinder A R
move_bind c a = record { args = a; callable = c }

abbrev pub call_bound : {A R Ignored : Type 0} → MoveBinder A R → Ignored → R
call_bound b ignored = b.callable b.args
