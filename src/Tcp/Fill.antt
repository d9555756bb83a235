-- ===== src/Tcp/Fill.antt =====
-- The copy loop of a read for one packet.
use libsimulator.Base.{
  ℕ, ◌≡◌, ◌⊎◌, inl, inr, refl, ap, ◌∙◌, ◌+◌, ◌-◌, min, List, [], ◌∷◌, ◌++◌, append_assoc, arith,
  ◌==◌, if◌then◌else◌, length, take, drop, take-append-drop, length-take, length-drop,
  length-append, sum,
}
use libsimulator.Tcp.Input.{fill}

-- All the bytes are copied, or the buffers are full.
pub record Filled (bufs bytes : List ℕ) (r : List ℕ × List ℕ × List ℕ) : Type 0 where
  pub whole : r.1 ++ r.2 ≡ bytes
  pub room : length r.1 + sum r.0 ≡ sum bufs
  pub full : (r.2 ≡ []) ⊎ (sum r.0 ≡ 0)

pub fill-Filled : (bufs bytes : List ℕ) → Filled bufs bytes (fill bufs bytes)
unfolding fill
fill-Filled [] bytes = record { whole = refl; room = omega arith; full = inr refl }
fill-Filled (n ∷ ns) bytes =
    let m = min (length bytes) n in
    by_left (fill-Filled ns) (drop m bytes) (take-append-drop m bytes) (length-take m bytes)
      (length-drop m bytes)
  where
    by_left :
        ((l : List ℕ) → Filled ns l (fill ns l))
        → (left : List ℕ) → take (min (length bytes) n) bytes ++ left ≡ bytes
        → length (take (min (length bytes) n) bytes) ≡ min (min (length bytes) n) (length bytes)
        → length left ≡ length bytes - min (length bytes) n
        → Filled (n ∷ ns) bytes (
            let next : List ℕ × List ℕ × List ℕ = fill ns left in
            elim left [
              | [] ↦ (
                if n - min (length bytes) n == 0 then ns else (n - min (length bytes) n) ∷ ns,
                take (min (length bytes) n) bytes,
                [],
              )
              | b ∷ bs ↦ (next.0, take (min (length bytes) n) bytes ++ next.1, next.2)
            ])
    by_left ih [] w lt ld = record { whole = w; room = ground arith; full = inl refl }
    by_left ih (b ∷ bs) w lt ld =
        let r = ih (b ∷ bs) in
        record {
          whole =
              append_assoc _ (fill ns (b ∷ bs)).1 (fill ns (b ∷ bs)).2
              ∙ ap (take (min (length bytes) n) bytes ++◌) r.whole
              ∙ w;
          room = omega (
            arith,
            r.room,
            length-append (take (min (length bytes) n) bytes) (fill ns (b ∷ bs)).1,
          );
          full = r.full;
        }
