-- ===== src/Function/Once.antt =====
-- Over any program of `function` objects: every handler is called once or destroyed once, and its
-- memory is given back exactly then.
use libsimulator.Base.{
  ℕ, ◌+◌, ◌≡◌, inl, inr, refl, sym, ap, subst, ◌∙◌, true, false, List, [], ◌∷◌, none, some, arith,
  ◌==◌, if◌then◌else◌, count, zero_or_suc,
}
use libsimulator.Function.{
  Var, dead, holds, World, set_var, invoke, Op, construct, default_construct, move_construct,
  move_assign, assign_null, destroy, call, apply, apply_all,
}
use libsimulator.Function.Ownership.{addresses, handlers, IsOwned, total, Kept}
use libsimulator.Function.Moves.{
  no_more, invoke-Kept, is_alive, is_holding, clear-Cleared, emptied-IsOwned,
}
use libsimulator.Function.Operations.{
  Fresh, construct_from-Kept, destruct-Kept, take_from-Kept, move_assign_to-Kept,
}

-- What a program may do: it constructs what is not there, uses what is, and calls what holds a
-- handler.
abbrev pub Allowed : Op → World → Type 0
Allowed (construct i malloc throws h) w = (w.vars i ≡ dead) × Fresh malloc w
Allowed (default_construct i) w = w.vars i ≡ dead
Allowed (move_construct i j) w = (w.vars i ≡ dead) × (is_alive (w.vars j) ≡ true)
Allowed (move_assign i j) w = (is_alive (w.vars i) ≡ true) × (is_alive (w.vars j) ≡ true)
Allowed (assign_null i) w = is_alive (w.vars i) ≡ true
Allowed (destroy i) w = is_alive (w.vars i) ≡ true
Allowed (call i) w = is_holding (w.vars i) ≡ true

abbrev pub Program : List Op → World → Type 0
Program [] w = Unit {0}
Program (o ∷ os) w = Allowed o w × elim (apply o w) [ none ↦ Unit {0} | some w' ↦ Program os w' ]

abbrev pub brings : Op → ℕ → ℕ
brings (construct i malloc throws h) k = if h == k then 1 else 0
brings _ k = 0

abbrev pub brought : List Op → ℕ → ℕ
brought [] k = 0
brought (o ∷ os) k = brings o k + brought os k

apply-Kept : (o : Op) (w : World) → IsOwned w → Allowed o w → Kept w (brings o) (apply o w)
unfolding apply
apply-Kept (construct i malloc throws h) w v a = construct_from-Kept w i malloc throws h v a.0 a.1
apply-Kept (default_construct i) w v a = record {
  after = set_var w i (holds none);
  ok = refl;
  owned =
      emptied-IsOwned i (holds none) v (λ p e. ground (arith, a, e)) (λ p e. cc) refl refl
        (λ k. refl);
  counted = λ k. omega arith;
}
apply-Kept (move_construct i j) w v a =
    take_from-Kept w i j v a.1 (λ p e. ground (arith, a.0, e)) (ground (arith, a))
apply-Kept (move_assign i j) w v a = move_assign_to-Kept w i j v a.0 a.1
apply-Kept (assign_null i) w v a = (clear-Cleared i w v a).kept
apply-Kept (destroy i) w v a = destruct-Kept w i v a
apply-Kept (call i) w v a = by_var (w.vars i) refl a
  where
    by_var : (u : Var) → w.vars i ≡ u → is_holding u ≡ true → Kept w no_more (invoke i w)
    by_var dead e h = cc
    by_var (holds none) e h = cc
    by_var (holds (some p)) e h = invoke-Kept v e

-- Whatever a program does with `function` objects, as long as it constructs what is not there, uses
-- what is, calls what holds a handler, and malloc returns memory that is not in use: no operation
-- fails, so that nothing is freed twice or used after it; the memory holds exactly the objects, each
-- of which one variable holds; and every handler that was brought has been called or destroyed, or
-- waits, as often as it was brought.
pub apply_all-IsOwned :
    (os : List Op) (w : World)
    → IsOwned w
    → Program os w
    → (after : World) × (apply_all os w ≡ some after)
      × IsOwned after
      × ((k : ℕ) → total k after ≡ total k w + brought os k)
unfolding apply_all
apply_all-IsOwned [] w v p = (w, refl, v, λ k. omega arith)
apply_all-IsOwned (o ∷ os) w v p =
    let s = apply-Kept o w v p.0 in
    let r = apply_all-IsOwned os s.after s.owned (rw s.ok at p.1) in
    (r.0, rw (s.ok, apply_all) r.1, r.2, λ k. omega (arith, r.3 k, s.counted k))

-- Before any object is constructed.
abbrev pub start : World
start = record { blocks = []; objects = []; vars = λ i. dead; called = []; dropped = [] }

pub start-IsOwned : IsOwned start
start-IsOwned = record {
  blocks = refl;
  single = λ p. omega arith;
  owned = λ i p e. cc;
  unique = λ i j p e f. cc;
  reachable = λ p h. absurd (omega arith);
}

no_blocks : (bs : List ℕ) → ((p : ℕ) → count p bs ≡ 0) → bs ≡ []
no_blocks [] h = refl
no_blocks (b ∷ bs) h = absurd (ground (arith, h b))

-- When no variable holds a handler at the end of such a program, all the memory has been given back,
-- and every handler was called or destroyed exactly as often as it was brought.
pub apply_all-freed :
    (os : List Op)
    → Program os start
    → (after : World) → apply_all os start ≡ some after
    → ((i : ℕ) → is_holding (after.vars i) ≡ false)
    → (after.blocks ≡ []) × ((k : ℕ) → count k after.called + count k after.dropped ≡ brought os k)
apply_all-freed os p after e none_holds =
    let r = apply_all-IsOwned os start start-IsOwned p in
    let same : r.0 ≡ after = cc (r.1, e) in
    let v = subst IsOwned same r.2 in
    let gone = no_blocks after.blocks (λ q. empty q v) in
    (
      gone,
      λ k.
          count_lem k (subst (λ w. total k w ≡ brought os k) same (omega (arith, r.3 k)))
            (objects_gone after.objects (sym v.blocks ∙ gone)),
    )
  where
    empty : (q : ℕ) → IsOwned after → count q after.blocks ≡ 0
    empty q v = elim (zero_or_suc (count q after.blocks)) [
      | inl z ↦ z
      | inr s ↦ let r = v.reachable q (omega (arith, s.1)) in cc (ap is_holding r.1, none_holds r.0)
    ]

    objects_gone : (os : List (ℕ × ℕ)) → addresses os ≡ [] → os ≡ []
    objects_gone [] h = refl
    objects_gone (o ∷ os) h = cc

    count_lem :
        (k : ℕ)
        → total k after ≡ brought os k
        → after.objects ≡ []
        → count k after.called + count k after.dropped ≡ brought os k
    count_lem k h z = omega (arith, h, ap (λ os. count k (handlers os)) z)
