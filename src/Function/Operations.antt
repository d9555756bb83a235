-- ===== src/Function/Operations.antt =====
-- The construction, the move and the destruction of a `function` keep the heap in order.
use libsimulator.Base.{
  ℕ, ◌≡◌, inl, inr, refl, ap, Bool, true, false, ◌∷◌, Option, none, some, arith, ◌==◌, ==_self,
  if◌then◌else◌, update, count, Bool-cases,
}
use libsimulator.Function.{
  Var, dead, holds, World, set_var, remove, deallocate, allocate_handler, take_from, construct_from,
  move_assign_to, destruct,
}
use libsimulator.Function.Ownership.{IsOwned, Kept, Empty}
use libsimulator.Function.Moves.{
  no_more, is_alive, clear-Cleared, emptied-IsOwned, take_from-IsOwned,
}

-- What malloc returns is not in use.
abbrev pub Fresh : Option ℕ → World → Type 0
Fresh none w = Unit
Fresh (some p) w = count p w.blocks ≡ 0

abbrev pub one : ℕ → ℕ → ℕ
one h k = if h == k then 1 else 0

-- A new object at a fresh address, held by a variable that was not there.
constructed-IsOwned :
    (w : World) (i p h : ℕ)
    → IsOwned w
    → w.vars i ≡ dead
    → count p w.blocks ≡ 0
    → IsOwned (record w {
      blocks = p ∷ w.blocks;
      objects = (p, h) ∷ w.objects;
      vars = update w.vars i (holds (some p));
    })
constructed-IsOwned w i p h o gone fresh = record {
  blocks = ap (p ∷◌) o.blocks;
  single = λ q. ground (arith, o.single q, fresh);
  owned = λ k q e. ground (arith, e, o.owned k q);
  unique = λ k l q e f. ground (arith, e, f, o.unique k l q, o.owned k q, o.owned l q, fresh);
  reachable = λ q m. elim (Bool-cases (p == q)) [
    | inl t ↦ (i, ground (arith, t))
    | inr t ↦ let r = o.reachable q (ground (arith, m, t)) in (r.0, ground (arith, r.1, gone))
  ];
}

pub construct_from-Kept :
    (w : World) (i : ℕ) (malloc : Option ℕ) (throws : Bool) (h : ℕ)
    → IsOwned w
    → w.vars i ≡ dead
    → Fresh malloc w
    → Kept w (one h) (construct_from i malloc throws h w)
unfolding construct_from allocate_handler deallocate remove
construct_from-Kept w i none throws h o gone fresh = record {
  after = record w { dropped = h ∷ w.dropped };
  ok = refl;
  owned = record {
    blocks = o.blocks;
    single = o.single;
    owned = o.owned;
    unique = o.unique;
    reachable = o.reachable;
  };
  counted = λ k. omega arith;
}
construct_from-Kept w i (some p) true h o gone fresh = record {
  after = record w { dropped = h ∷ w.dropped };
  ok = ground (arith, ==_self p);
  owned = record {
    blocks = o.blocks;
    single = o.single;
    owned = o.owned;
    unique = o.unique;
    reachable = o.reachable;
  };
  counted = λ k. omega arith;
}
construct_from-Kept w i (some p) false h o gone fresh = record {
  after = record w {
    blocks = p ∷ w.blocks;
    objects = (p, h) ∷ w.objects;
    vars = update w.vars i (holds (some p));
  };
  ok = refl;
  owned = constructed-IsOwned w i p h o gone fresh;
  counted = λ k. omega arith;
}

pub destruct-Kept :
    (w : World) (i : ℕ) → IsOwned w → is_alive (w.vars i) ≡ true → Kept w no_more (destruct i w)
unfolding destruct
destruct-Kept w i o alive =
    let c = clear-Cleared i w o alive in
    record {
      after = set_var c.kept.after i dead;
      ok = ground (arith, c.kept.ok);
      owned =
          emptied-IsOwned i dead c.kept.owned (λ p e. ground (arith, c.vars i, e, ==_self i))
            (λ p e. cc) refl refl (λ k. refl);
      counted = c.kept.counted;
    }

pub take_from-Kept :
    (w : World) (i j : ℕ)
    → IsOwned w
    → is_alive (w.vars j) ≡ true
    → Empty (w.vars i)
    → (j == i) ≡ false
    → Kept w no_more (take_from i j w)
unfolding take_from
take_from-Kept w i j o alive empty ne = by_var (w.vars j) refl alive
  where
    by_var : (v : Var) → w.vars j ≡ v → is_alive v ≡ true → Kept w no_more (take_from i j w)
    by_var dead e h = cc
    by_var (holds p) e h = record {
      after = set_var (set_var w j (holds none)) i (holds p);
      ok = rw e;
      owned = take_from-IsOwned i j p o e empty ne;
      counted = λ k. omega arith;
    }

pub move_assign_to-Kept :
    (w : World) (i j : ℕ)
    → IsOwned w
    → is_alive (w.vars i) ≡ true
    → is_alive (w.vars j) ≡ true
    → Kept w no_more (move_assign_to i j w)
unfolding move_assign_to
move_assign_to-Kept w i j o alive there = elim (Bool-cases (j == i)) [
  | inl e ↦ record { after = w; ok = rw e; owned = o; counted = λ k. omega arith }
  | inr e ↦
      let c = clear-Cleared i w o alive in
      let t =
        take_from-Kept c.kept.after i j c.kept.owned (ground (arith, c.vars j, there, e))
          (λ p f. ground (arith, c.vars i, f, ==_self i)) e in
      record {
        after = t.after;
        ok = ground (arith, e, c.kept.ok, t.ok);
        owned = t.owned;
        counted = λ k. omega (arith, t.counted k, c.kept.counted k);
      }
]
