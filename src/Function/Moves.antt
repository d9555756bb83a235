-- ===== src/Function/Moves.antt =====
-- The operations of a `function` one by one: none fails, and the heap stays in order.
use libsimulator.Base.{
  ℕ, ◌+◌, ◌≤◌, ◌<◌, ◌≡◌, inl, inr, refl, sym, ap, subst, ◌∙◌, Bool, true, false, ◌∷◌, Option, none,
  some, arith, ◌==◌, ==_iff, ==_self, if◌then◌else◌, update, count, Bool-cases,
}
use libsimulator.Function.{
  Var, dead, holds, World, set_var, deallocate, release, call_impl, dealloc_impl, clear, invoke,
}
use libsimulator.Function.Ownership.{
  addresses, handlers, take_out-TakenOut, IsOwned, Kept, Empty, freed-IsOwned, update-holds,
}

-- The object that a variable holds is taken out of memory, whatever becomes of its handler.
pub record Released (w : World) (p : ℕ) : Type 0 where
  pub handler : ℕ
  pub after : World
  pub ok : release p w ≡ some (handler, after)
  pub vars : after.vars ≡ w.vars
  pub called : after.called ≡ w.called
  pub dropped : after.dropped ≡ w.dropped
  pub blocks : after.blocks ≡ addresses after.objects
  pub counts : (q : ℕ) → count q w.blocks ≡ count q after.blocks + (if p == q then 1 else 0)
  pub others :
      (k : ℕ)
      → count k (handlers w.objects)
        ≡ count k (handlers after.objects) + (if handler == k then 1 else 0)

pub release-Released :
    (w : World) (p : ℕ) → w.blocks ≡ addresses w.objects → 0 < count p w.blocks → Released w p
unfolding release deallocate
release-Released w p b h =
    let t = take_out-TakenOut p w.objects (subst (λ bs. 0 < count p bs) b h) in
    record {
      handler = t.handler;
      after = record w { objects = t.rest; blocks = addresses t.rest };
      ok = ground (arith, t.found, b, t.freed);
      vars = refl;
      called = refl;
      dropped = refl;
      blocks = refl;
      counts = λ q. rw b (t.blocks q);
      others = t.others;
    }

abbrev pub no_more : ℕ → ℕ
no_more k = 0

-- A call or a deletion of what a variable holds, which holds nothing then.
module _ {w : World} {i p : ℕ} (o : IsOwned w) (held : w.vars i ≡ holds (some p)) where
  pub invoke-Kept : Kept w no_more (invoke i w)
  unfolding invoke call_impl
  invoke-Kept =
      let r = release-Released (set_var w i (holds none)) p o.blocks (o.owned i p held) in
      record {
        after = record r.after { called = r.handler ∷ r.after.called };
        ok = ground (arith, held, r.ok);
        owned =
            freed-IsOwned i p (holds none) o held (λ q e. cc) r.blocks r.counts
              (λ k. ap (λ vs. vs k) r.vars);
        counted = λ k. ground (arith, r.others k, ap (count k) r.called, ap (count k) r.dropped);
      }

abbrev pub is_alive : Var → Bool
is_alive dead = false
is_alive (holds p) = true

abbrev pub is_holding : Var → Bool
is_holding (holds (some p)) = true
is_holding _ = false

-- Clearing, which also tells what becomes of the variables.
pub record Cleared (i : ℕ) (w : World) : Type 0 where
  pub kept : Kept w no_more (clear i w)
  pub vars : (k : ℕ) → kept.after.vars k ≡ update w.vars i (holds none) k

pub clear-Cleared : (i : ℕ) (w : World) → IsOwned w → is_alive (w.vars i) ≡ true → Cleared i w
unfolding clear dealloc_impl
clear-Cleared i w o alive = by_var (w.vars i) refl alive
  where
    by_var : (v : Var) → w.vars i ≡ v → is_alive v ≡ true → Cleared i w
    by_var dead e h = cc
    by_var (holds none) e h = record {
      kept = record { after = w; ok = rw e; owned = o; counted = λ k. omega arith };
      vars = λ k. ground (arith, e, ==_iff k i);
    }
    by_var (holds (some p)) e h =
        let r = release-Released w p o.blocks (o.owned i p e) in
        record {
          kept = record {
            after = record r.after {
              dropped = r.handler ∷ r.after.dropped;
              vars = update r.after.vars i (holds none);
            };
            ok = ground (arith, e, r.ok);
            owned =
                freed-IsOwned i p (holds none) o e (λ q f. cc) r.blocks r.counts
                  (λ k. ap (λ vs. update vs i (holds none) k) r.vars);
            counted =
                λ k. ground (arith, r.others k, ap (count k) r.called, ap (count k) r.dropped);
          };
          vars = λ k. ap (λ vs. update vs i (holds none) k) r.vars;
        }

-- A variable that holds nothing becomes another that holds nothing.
pub emptied-IsOwned :
    {w w' : World} (i : ℕ) (v : Var)
    → IsOwned w
    → Empty (w.vars i)
    → Empty v
    → w'.blocks ≡ w.blocks
    → w'.objects ≡ w.objects
    → ((k : ℕ) → w'.vars k ≡ update w.vars i v k)
    → IsOwned w'
emptied-IsOwned {w} {w'} i v o was empty blocks objects vars = record {
  blocks = blocks ∙ o.blocks ∙ ap addresses (sym objects);
  single = λ q. subst (λ bs. count q bs ≤ 1) (sym blocks) (o.single q);
  owned = λ k q e. subst (λ bs. 0 < count q bs) (sym blocks) (o.owned k q (old k q e).1);
  unique = λ k l q e f. o.unique k l q (old k q e).1 (old l q f).1;
  reachable = λ q h.
      let r = o.reachable q (subst (λ bs. 0 < count q bs) blocks h) in
      (
        r.0,
        elim (Bool-cases (r.0 == i)) [
          | inl e ↦ absurd (was q (subst (λ k. w.vars k ≡ holds (some q)) ((==_iff r.0 i).0 e) r.1))
          | inr e ↦ vars r.0 ∙ rw e r.1
        ],
      );
}
  where
    old : (k q : ℕ) → w'.vars k ≡ holds (some q) → ((k == i) ≡ false) × (w.vars k ≡ holds (some q))
    old = update-holds w.vars w'.vars i v empty vars

-- What one variable holds passes to another that held nothing.
pub take_from-IsOwned :
    {w : World} (i j : ℕ) (p : Option ℕ)
    → IsOwned w
    → w.vars j ≡ holds p
    → Empty (w.vars i)
    → (j == i) ≡ false
    → IsOwned (set_var (set_var w j (holds none)) i (holds p))
take_from-IsOwned {w} i j p o held empty ne = record {
  blocks = o.blocks;
  single = o.single;
  owned = λ k q e. o.owned (source k) q (old k q e);
  unique = λ k l q e f. back k l q e f (o.unique (source k) (source l) q (old k q e) (old l q f));
  reachable = λ q h. let r = o.reachable q h in target r.0 q r.1;
}
  where
    source : ℕ → ℕ
    source k = if k == i then j else k

    old :
        (k q : ℕ)
        → update (update w.vars j (holds none)) i (holds p) k ≡ holds (some q)
        → w.vars (source k) ≡ holds (some q)
    old k q e = elim (Bool-cases (k == i)) [
      | inl t ↦ rw t (held ∙ (rw t at e))
      | inr t ↦ elim (Bool-cases (k == j)) [
        | inl u ↦ cc (rw (t, u) at e)
        | inr u ↦ rw t (rw (t, u) at e)
      ]
    ]

    back :
        (k l q : ℕ)
        → update (update w.vars j (holds none)) i (holds p) k ≡ holds (some q)
        → update (update w.vars j (holds none)) i (holds p) l ≡ holds (some q)
        → source k ≡ source l
        → k ≡ l
    back k l q e f h = ground (arith, e, f, h)

    target :
        (k q : ℕ)
        → w.vars k ≡ holds (some q)
        → (l : ℕ) × (update (update w.vars j (holds none)) i (holds p) l ≡ holds (some q))
    target k q e = elim (Bool-cases (k == j)) [
      | inl t ↦ (
        i,
        rw (==_self i) (sym held ∙ subst (λ m. w.vars m ≡ holds (some q)) ((==_iff k j).0 t) e),
      )
      | inr t ↦ (
        k,
        elim (Bool-cases (k == i)) [
          | inl u ↦ absurd (empty q (subst (λ m. w.vars m ≡ holds (some q)) ((==_iff k i).0 u) e))
          | inr u ↦ rw (u, t) e
        ],
      )
    ]
