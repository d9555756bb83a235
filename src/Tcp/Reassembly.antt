-- ===== src/Tcp/Reassembly.antt =====
-- The order in which a socket takes the packets that arrive.
use libsimulator.Base.{
  ℕ, suc, ◌≡◌, ◌≤◌, ◌<◌, ◌⊎◌, inl, inr, refl, sym, ap, subst, ◌∙◌, true, false, List, [], ◌∷◌, ◌++◌,
  append-nil, append_assoc, none, arith, ◌==◌, ==_iff, length, if_rule, option_rule, All, is_some,
  le_or_lt,
}
use libsimulator.Net.Packet.{Packet}
use libsimulator.Tcp.Runs.{Run, stop, go, Run-append, Run_le}
use libsimulator.Tcp.{Socket, look_up}
use libsimulator.Tcp.Order.{take_early, emplace, sequenced}
use libsimulator.Tcp.Early.{Has, Lacks, Keyed, take_early-Taken}

abbrev pub arrivals : Socket → List Packet → Socket
arrivals k [] = k
arrivals k (p ∷ ps) = arrivals (sequenced k p) ps

-- The packet of this number was taken in order, or waits in the reorder buffer.
abbrev pub Came : Socket → ℕ → Type 0
Came k i = (i < k.next_incoming_seq) ⊎ (is_some (look_up i k.reorder_buffer) ≡ true)

pub record Ordered (queue : List Packet) (first : ℕ) (k : Socket) : Type 0 where
  pub taken : List Packet
  pub added : k.incoming_queue ≡ queue ++ taken
  pub run : Run first taken k.next_incoming_seq
  pub keyed : Keyed k.reorder_buffer
  pub gap : look_up k.next_incoming_seq k.reorder_buffer ≡ none

emplace-look_up :
    (p : Packet) (m : List (ℕ × Packet)) (i : ℕ)
    → is_some (look_up i m) ≡ true
    → is_some (look_up i (emplace p m)) ≡ true
unfolding look_up
emplace-look_up p m i e = option_rule (Has i) (look_up p.seq_nr m) (λ _. ground arith) (λ q _. e)

emplace_new : (p : Packet) (m : List (ℕ × Packet)) → is_some (look_up p.seq_nr (emplace p m)) ≡ true
unfolding look_up
emplace_new p m =
    option_rule (Has p.seq_nr) (look_up p.seq_nr m) (λ _. ground arith) (λ q e. ap is_some e)

emplace-Keyed : (p : Packet) (m : List (ℕ × Packet)) → Keyed m → Keyed (emplace p m)
emplace-Keyed p m k = option_rule Keyed (look_up p.seq_nr m) (λ _. (refl, k)) (λ q _. k)

emplace-gap :
    (p : Packet) (m : List (ℕ × Packet)) (n : ℕ)
    → look_up n m ≡ none
    → (p.seq_nr == n) ≡ false
    → look_up n (emplace p m) ≡ none
unfolding look_up
emplace-gap p m n e h = option_rule (Lacks n) (look_up p.seq_nr m) (λ _. ground arith) (λ q _. e)

-- One arrival keeps the order and every packet that came, and its own packet came.
record Advances (queue : List Packet) (first : ℕ) (k k' : Socket) (p : Packet) : Type 0 where
  ordered : Ordered queue first k'
  kept : (i : ℕ) → Came k i → Came k' i
  came : Came k' p.seq_nr

sequenced-Advances :
    (queue : List Packet) (first : ℕ) (k : Socket) (p : Packet)
    → Ordered queue first k
    → Advances queue first k (sequenced k p) p
unfolding sequenced
sequenced-Advances queue first k p o =
    let m = k.reorder_buffer in
    let r = take_early-Taken (length m) m (suc k.next_incoming_seq) o.keyed (omega arith) in
    if_rule (λ k'. Advances queue first k k' p) (p.seq_nr == k.next_incoming_seq)
      (λ h.
        let at = (==_iff p.seq_nr k.next_incoming_seq).0 h in
        record {
          ordered = record {
            taken = o.taken ++ p ∷ (take_early (length m) m (suc k.next_incoming_seq)).1;
            added =
                ap (λ q. q ++ p ∷ (take_early (length m) m (suc k.next_incoming_seq)).1) o.added
                ∙ append_assoc queue o.taken _;
            run = Run-append o.run (go at r.run);
            keyed = r.keyed;
            gap = r.gap;
          };
          kept =
              λ i c. elim c [ inl x ↦ inl (omega (arith, x, Run_le r.run)) | inr x ↦ r.kept i x ];
          came = inl (omega (arith, at, Run_le r.run));
        })
      (λ h. record {
        ordered = record {
          taken = o.taken;
          added = o.added;
          run = o.run;
          keyed = emplace-Keyed p m o.keyed;
          gap = emplace-gap p m k.next_incoming_seq o.gap h;
        };
        kept = λ i c. elim c [ inl x ↦ inl x | inr x ↦ inr (emplace-look_up p m i x) ];
        came = inr (emplace_new p m);
      })

arrivals-kept :
    (queue : List Packet) (first : ℕ) (k : Socket) (ps : List Packet)
    → Ordered queue first k
    → Ordered queue first (arrivals k ps)
      × ((i : ℕ) → Came k i → Came (arrivals k ps) i)
      × All (λ p. Came (arrivals k ps) p.seq_nr) ps
arrivals-kept queue first k [] o = (o, λ i c. c, tt)
arrivals-kept queue first k (p ∷ ps) o =
    let a = sequenced-Advances queue first k p o in
    let (o', kept, came) = arrivals-kept queue first (sequenced k p) ps a.ordered in
    (o', λ i c. kept i (a.kept i c), (kept p.seq_nr a.came, came))

-- A packet of this number is in the list.
abbrev pub Arrives : ℕ → List Packet → Type 0
Arrives i [] = ⊥
Arrives i (p ∷ ps) = (p.seq_nr ≡ i) ⊎ Arrives i ps

Arrives-Came :
    (k : Socket) (ps : List Packet) (i : ℕ)
    → All (λ p. Came k p.seq_nr) ps
    → Arrives i ps
    → Came k i
Arrives-Came k [] i c a = elim a [ ]
Arrives-Came k (p ∷ ps) i c (inl e) = subst (Came k) e c.0
Arrives-Came k (p ∷ ps) i c (inr a) = Arrives-Came k ps i c.1 a

-- Packets that arrive in any order, with duplicates, at a socket that lacks the next one and holds
-- early ones under their own numbers: the incoming queue grows by packets with consecutive
-- numbers from the next one on, and if every number from there up to a bound has arrived, all of them
-- up to it have been taken.
pub arrivals-Ordered :
    (k : Socket) (ps : List Packet) (n : ℕ)
    → Keyed k.reorder_buffer
    → look_up k.next_incoming_seq k.reorder_buffer ≡ none
    → ((i : ℕ) → k.next_incoming_seq ≤ i → i < n → Arrives i ps)
    → Ordered k.incoming_queue k.next_incoming_seq (arrivals k ps)
      × (n ≤ (arrivals k ps).next_incoming_seq)
arrivals-Ordered k ps n keyed gap all =
    let (o, kept, came) =
      arrivals-kept k.incoming_queue k.next_incoming_seq k ps
        (record { taken = []; added = sym (append-nil _); run = stop; keyed = keyed; gap = gap }) in
    (
      o,
      elim (le_or_lt n (arrivals k ps).next_incoming_seq) [
        | inl h ↦ h
        | inr h ↦
            elim (Arrives-Came (arrivals k ps) ps (arrivals k ps).next_incoming_seq came
              (all (arrivals k ps).next_incoming_seq (Run_le o.run) h)) [
                | inl x ↦ omega arith
                | inr x ↦ ground (arith, o.gap)
              ]
      ],
    )
