-- ===== src/Function/Ownership.antt =====
-- Every handler has one owner: what the operations of a `function` keep of the heap.
use libsimulator.Base.{
  ℕ, ◌+◌, ◌≤◌, ◌<◌, ◌≡◌, ◌≢◌, inl, inr, sym, subst, ◌∙◌, false, List, [], ◌∷◌, Option, some, map,
  arith, ◌==◌, ==_iff, if◌then◌else◌, update, count, Bool-cases,
}
use libsimulator.Function.{Var, holds, World, remove, take_out}

abbrev pub addresses : List (ℕ × ℕ) → List ℕ
addresses os = map (λ o. o.0) os

abbrev pub handlers : List (ℕ × ℕ) → List ℕ
handlers os = map (λ o. o.1) os

-- One object of this address is taken out, and its block.
pub record TakenOut (p : ℕ) (os : List (ℕ × ℕ)) : Type 0 where
  pub handler : ℕ
  pub rest : List (ℕ × ℕ)
  pub found : take_out p os ≡ some (handler, rest)
  pub freed : remove p (addresses os) ≡ some (addresses rest)
  pub blocks :
      (q : ℕ) → count q (addresses os) ≡ count q (addresses rest) + (if p == q then 1 else 0)
  pub others :
      (k : ℕ) → count k (handlers os) ≡ count k (handlers rest) + (if handler == k then 1 else 0)

pub take_out-TakenOut : (p : ℕ) (os : List (ℕ × ℕ)) → 0 < count p (addresses os) → TakenOut p os
unfolding take_out remove
take_out-TakenOut p [] h = absurd (omega arith)
take_out-TakenOut p ((q, k) ∷ os) h = elim (Bool-cases (q == p)) [
  | inl e ↦ record {
    handler = k;
    rest = os;
    found = rw e;
    freed = rw e;
    blocks = λ r. ground arith;
    others = λ r. ground arith;
  }
  | inr e ↦
      let t = take_out-TakenOut p os (ground arith) in
      record {
        handler = t.handler;
        rest = (q, k) ∷ t.rest;
        found = rw (e, t.found);
        freed = rw (e, t.freed);
        blocks = λ r. ground (arith, t.blocks r);
        others = λ r. ground (arith, t.others r);
      }
]

-- The memory holds exactly the objects, each at its own address, and each is held by exactly one
-- variable, which holds nothing else.
pub record IsOwned (w : World) : Type 0 where
  pub blocks : w.blocks ≡ addresses w.objects
  pub single : (p : ℕ) → count p w.blocks ≤ 1
  pub owned : (i p : ℕ) → w.vars i ≡ holds (some p) → 0 < count p w.blocks
  pub unique : (i j p : ℕ) → w.vars i ≡ holds (some p) → w.vars j ≡ holds (some p) → i ≡ j
  pub reachable : (p : ℕ) → 0 < count p w.blocks → (i : ℕ) × (w.vars i ≡ holds (some p))

-- How often a handler was called, was destroyed and waits.
abbrev pub total : ℕ → World → ℕ
total k w = count k w.called + count k w.dropped + count k (handlers w.objects)

-- An operation that brings handlers succeeds, keeps the heap in order and loses none.
pub record Kept (w : World) (brought : ℕ → ℕ) (r : Option World) : Type 0 where
  pub after : World
  pub ok : r ≡ some after
  pub owned : IsOwned after
  pub counted : (k : ℕ) → total k after ≡ total k w + brought k

abbrev pub Empty : Var → Type 0
Empty v = (p : ℕ) → v ≢ holds (some p)

-- A pointer that a variable holds after another was emptied, it held before.
pub update-holds :
    (vs vs' : ℕ → Var) (i : ℕ) (v : Var)
    → Empty v
    → ((k : ℕ) → vs' k ≡ update vs i v k)
    → (k q : ℕ) → vs' k ≡ holds (some q)
    → ((k == i) ≡ false) × (vs k ≡ holds (some q))
update-holds vs vs' i v empty vars k q e = elim (Bool-cases (k == i)) [
  | inl t ↦ absurd (empty q (rw t at (sym (vars k) ∙ e)))
  | inr t ↦ (t, rw t at (sym (vars k) ∙ e))
]

-- The object of one variable is gone, and its block.
pub freed-IsOwned :
    {w w' : World} (i p : ℕ) (v : Var)
    → IsOwned w
    → w.vars i ≡ holds (some p)
    → Empty v
    → w'.blocks ≡ addresses w'.objects
    → ((q : ℕ) → count q w.blocks ≡ count q w'.blocks + (if p == q then 1 else 0))
    → ((k : ℕ) → w'.vars k ≡ update w.vars i v k)
    → IsOwned w'
freed-IsOwned {w} {w'} i p v o held empty blocks counts vars = record {
  blocks = blocks;
  single = λ q. omega (arith, counts q, o.single q);
  owned = λ k q e. kept k q e;
  unique = λ k l q e f. o.unique k l q (old k q e).1 (old l q f).1;
  reachable = λ q h.
      let r = o.reachable q (omega (arith, counts q)) in
      (
        r.0,
        elim (Bool-cases (r.0 == i)) [
          | inl e ↦
              absurd (gone q h (subst (λ k. w.vars k ≡ holds (some q)) ((==_iff r.0 i).0 e) r.1))
          | inr e ↦ vars r.0 ∙ rw e r.1
        ],
      );
}
  where
    old : (k q : ℕ) → w'.vars k ≡ holds (some q) → ((k == i) ≡ false) × (w.vars k ≡ holds (some q))
    old = update-holds w.vars w'.vars i v empty vars

    gone : (q : ℕ) → 0 < count q w'.blocks → w.vars i ≡ holds (some q) → ⊥
    gone q h e = ground (arith, counts q, o.single q, held, e)

    kept : (k q : ℕ) → w'.vars k ≡ holds (some q) → 0 < count q w'.blocks
    kept k q e = ground (
      arith,
      counts q,
      o.owned k q (old k q e).1,
      (old k q e).0,
      o.unique i k q,
      (old k q e).1,
      held,
    )
