-- ===== src/Tcp/Runs.antt =====
-- Sequences of packets with consecutive sequence numbers, and the bytes that they carry.
use libsimulator.Base.{
  ℕ, suc, ◌≡◌, ◌≤◌, refl, sym, ap, ap₂, ◌∙◌, List, [], ◌∷◌, ◌++◌, append_assoc, Option, none, some,
  arith, ◌==◌, if◌then◌else◌, All,
}
use libsimulator.Net.Packet.{Packet}

-- Packets with consecutive numbers, from the first number up to, not including, the second.
pub data Run : ℕ → List Packet → ℕ → Type 0 where
  stop : {n : ℕ} → Run n [] n
  go :
      {n m : ℕ} {p : Packet} {ps : List Packet} → p.seq_nr ≡ n → Run (suc n) ps m → Run n (p ∷ ps) m

pub Run-append : {n m k : ℕ} {ps qs : List Packet} → Run n ps m → Run m qs k → Run n (ps ++ qs) k
Run-append stop b = b
Run-append (go e a) b = go e (Run-append a b)

pub Run_le : {n m : ℕ} {ps : List Packet} → Run n ps m → n ≤ m
Run_le stop = omega arith
Run_le (go e a) = omega (arith, Run_le a)

-- The payloads, one behind the other.
unfoldable pub content : List Packet → List ℕ
content [] = []
content (p ∷ ps) = p.buffer ++ content ps

pub content-append : (xs ys : List Packet) → content (xs ++ ys) ≡ content xs ++ content ys
unfolding content
content-append [] ys = refl
content-append (x ∷ xs) ys =
    ap (x.buffer ++◌) (content-append xs ys) ∙ sym (append_assoc x.buffer (content xs) (content ys))

-- The payload of the packet with this number.
unfoldable pub payload_of : ℕ → List Packet → Option (List ℕ)
payload_of i [] = none
payload_of i (p ∷ ps) = if p.seq_nr == i then some p.buffer else payload_of i ps

-- The packet carries what the packet of its number in the list carries.
abbrev pub IsCopy : List Packet → Packet → Type 0
IsCopy sent p = payload_of p.seq_nr sent ≡ some p.buffer

Run-copies :
    {n m : ℕ} {ps : List Packet} (q : Packet) (qs : List Packet)
    → Run n ps m
    → suc q.seq_nr ≤ n
    → All (IsCopy (q ∷ qs)) ps
    → All (IsCopy qs) ps
unfolding payload_of
Run-copies q qs stop l c = tt
Run-copies {n} q qs (go {p = p} {ps = ps} e r) l c =
    (ground (arith, c.0), Run-copies q qs r (omega arith) c.1)

-- Packets in sequence that are copies of packets in the same sequence carry the same bytes, if they go as
-- far.
pub Run-content :
    {n m k : ℕ} {ps qs : List Packet}
    → Run n ps m
    → Run n qs k
    → All (IsCopy qs) ps
    → k ≤ m
    → content ps ≡ content qs
unfolding content payload_of
Run-content stop stop c h = refl
Run-content stop (go e b) c h = ground (arith, Run_le b)
Run-content (go e a) stop c h = ground (arith, c.0)
Run-content (go {p = p} {ps = ps} e a) (go {p = q} {ps = qs} f b) c h =
    ap₂ ◌++◌ (ground (arith, c.0)) (Run-content a b (Run-copies q qs a (omega arith) c.1) h)
