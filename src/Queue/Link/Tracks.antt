-- ===== src/Queue/Link/Tracks.antt =====
-- The two specifications of a link over its logs: first in first out with a delay, and the rate.
use libsimulator.Base.{ℕ, ◌+◌, ◌≤◌, ◌≡◌, refl, List, [], ◌∷◌, ◌++◌, arith}
use libsimulator.Net.Packet.{Packet}
use libsimulator.Queue.{TimedPacket}

-- What was accepted is what departed, in the same order and each at least `latency` later, followed
-- by what is queued.
abbrev pub Tracks : ℕ → List (Packet × ℕ) → List (Packet × ℕ) → List TimedPacket → Type 0
Tracks latency [] [] [] = Unit
Tracks latency ((p, at) ∷ ins) ((d, gone) ∷ ds) q =
    (d ≡ p) × (at + latency ≤ gone) × Tracks latency ins ds q
Tracks latency ((p, at) ∷ ins) [] (x ∷ q) =
    (x.pkt ≡ p) × (x.ts ≡ at + latency) × Tracks latency ins [] q
Tracks latency _ _ _ = ⊥

module _ (latency : ℕ) where
  pub Tracks-enqueue :
      (ins ds : List (Packet × ℕ)) (q : List TimedPacket) (p : Packet) (now : ℕ)
      → Tracks latency ins ds q
      → Tracks latency (ins ++ (p, now) ∷ []) ds (q ++ record { ts = now + latency; pkt = p } ∷ [])
  Tracks-enqueue [] [] [] p now h = (refl, refl, tt)
  Tracks-enqueue (a ∷ ins) (d ∷ ds) q p now h = (h.0, h.1, Tracks-enqueue ins ds q p now h.2)
  Tracks-enqueue (a ∷ ins) [] (x ∷ q) p now h = (h.0, h.1, Tracks-enqueue ins [] q p now h.2)
  Tracks-enqueue [] [] (x ∷ q) p now h = absurd h
  Tracks-enqueue [] (d ∷ ds) q p now h = absurd h
  Tracks-enqueue (a ∷ ins) [] [] p now h = absurd h

  pub Tracks-depart :
      (ins ds : List (Packet × ℕ)) (x : TimedPacket) (q : List TimedPacket) (now : ℕ)
      → x.ts ≤ now
      → Tracks latency ins ds (x ∷ q)
      → Tracks latency ins (ds ++ (x.pkt, now) ∷ []) q
  Tracks-depart [] [] x q now le h = absurd h
  Tracks-depart [] (d ∷ ds) x q now le h = absurd h
  Tracks-depart (a ∷ ins) [] x q now le h = (h.0, omega (arith, h.1), h.2)
  Tracks-depart (a ∷ ins) (d ∷ ds) x q now le h = (h.0, h.1, Tracks-depart ins ds x q now le h.2)

module _ (cost : Packet → ℕ) where
  -- Each departure is at least the cost of the packet behind the one before it.
  abbrev pub Spaced : ℕ → List (Packet × ℕ) → Type 0
  Spaced before [] = Unit
  Spaced before ((p, gone) ∷ ds) = (before + cost p ≤ gone) × Spaced gone ds

  abbrev pub last_time : ℕ → List (Packet × ℕ) → ℕ
  last_time before [] = before
  last_time before ((p, gone) ∷ ds) = last_time gone ds

  pub Spaced-depart :
      (before : ℕ) (ds : List (Packet × ℕ)) (p : Packet) (now : ℕ)
      → last_time before ds + cost p ≤ now
      → Spaced before ds
      → Spaced before (ds ++ (p, now) ∷ [])
  Spaced-depart before [] p now le h = (le, tt)
  Spaced-depart before ((d, gone) ∷ ds) p now le h = (h.0, Spaced-depart gone ds p now le h.1)

  pub last_time-depart :
      (before : ℕ) (ds : List (Packet × ℕ)) (p : Packet) (now : ℕ)
      → last_time before (ds ++ (p, now) ∷ []) ≡ now
  last_time-depart before [] p now = refl
  last_time-depart before ((d, gone) ∷ ds) p now = last_time-depart gone ds p now
