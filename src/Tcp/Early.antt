-- ===== src/Tcp/Early.antt =====
-- The loop that takes the packets that arrived early, and the numbers it takes.
use libsimulator.Base.{
  ℕ, zero, suc, ◌≡◌, ◌≤◌, ◌<◌, ◌⊎◌, inl, inr, refl, true, List, [], ◌∷◌, none, some, arith, ◌==◌,
  length, if_rule, option_rule, All, is_some,
}
use libsimulator.Net.Packet.{Packet}
use libsimulator.Tcp.Runs.{Run, stop, go, Run_le}
use libsimulator.Tcp.{look_up, delete}
use libsimulator.Tcp.Order.{take_early}

abbrev pub Has : ℕ → List (ℕ × Packet) → Type 0
Has i m = is_some (look_up i m) ≡ true

abbrev pub Lacks : ℕ → List (ℕ × Packet) → Type 0
Lacks i m = look_up i m ≡ none

-- Each packet stands under its own number.
abbrev pub Keyed : List (ℕ × Packet) → Type 0
Keyed = All (λ e. e.1.seq_nr ≡ e.0)

pub look_up-Keyed :
    (i : ℕ) (m : List (ℕ × Packet)) (p : Packet) → Keyed m → look_up i m ≡ some p → p.seq_nr ≡ i
unfolding look_up
look_up-Keyed i [] p k e = ground arith
look_up-Keyed i ((j, q) ∷ m) p k e = ground (arith, look_up-Keyed i m p k.1, k.0)

pub delete-Keyed : (i : ℕ) (m : List (ℕ × Packet)) → Keyed m → Keyed (delete i m)
unfolding delete
delete-Keyed i [] k = tt
delete-Keyed i ((j, q) ∷ m) k = if_rule Keyed (j == i) (λ _. k.1) (λ _. (k.0, delete-Keyed i m k.1))

pub length-delete :
    (i : ℕ) (m : List (ℕ × Packet)) (p : Packet)
    → look_up i m ≡ some p
    → suc (length (delete i m)) ≡ length m
unfolding look_up delete
length-delete i [] p e = ground arith
length-delete i ((j, q) ∷ m) p e = ground (arith, length-delete i m p)

pub look_up-delete :
    (i k : ℕ) (m : List (ℕ × Packet))
    → is_some (look_up k m) ≡ true
    → (k ≡ i) ⊎ (is_some (look_up k (delete i m)) ≡ true)
unfolding look_up delete
look_up-delete i k [] e = ground arith
look_up-delete i k ((j, q) ∷ m) e = ground (arith, look_up-delete i k m)

-- What the loop over the early packets comes to.
pub record Taken (m : List (ℕ × Packet)) (seq : ℕ) (r : List (ℕ × Packet) × List Packet × ℕ)
    : Type 0 where
  pub run : Run seq r.1 r.2
  pub keyed : Keyed r.0
  pub gap : look_up r.2 r.0 ≡ none
  pub kept : (i : ℕ) → is_some (look_up i m) ≡ true → (i < r.2) ⊎ (is_some (look_up i r.0) ≡ true)

pub take_early-Taken :
    (fuel : ℕ) (m : List (ℕ × Packet)) (seq : ℕ)
    → Keyed m
    → length m ≤ fuel
    → Taken m seq (take_early fuel m seq)
unfolding take_early look_up
take_early-Taken zero [] seq k h = record {
  run = stop;
  keyed = tt;
  gap = refl;
  kept = λ i e. inr e;
}
take_early-Taken zero (x ∷ m) seq k h = ground arith
take_early-Taken (suc fuel) m seq k h =
    option_rule (Taken m seq) (look_up seq m)
      (λ e. record { run = stop; keyed = k; gap = e; kept = λ i x. inr x })
      (λ p e.
        let r =
          take_early-Taken fuel (delete seq m) (suc seq) (delete-Keyed seq m k)
            (omega (arith, length-delete seq m p e)) in
        record {
          run = go (look_up-Keyed seq m p k e) r.run;
          keyed = r.keyed;
          gap = r.gap;
          kept = λ i x. elim (look_up-delete seq i m x) [
            | inl q ↦ inl (omega (arith, q, Run_le r.run))
            | inr y ↦ r.kept i y
          ];
        })
