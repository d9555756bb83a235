-- ===== src/Timers/Queue.antt =====
-- The sorted timer queue: what insertion and removal do to the order and to the entries.
use libsimulator.Base.{
  ℕ, ◌+◌, ◌-◌, ◌≤◌, ◌<◌, ◌≡◌, refl, List, [], ◌∷◌, arith, ◌==◌, if◌then◌else◌, count, update,
}
use libsimulator.Timers.{insert_timer, erase_timer}

-- In order of expiry, with no entry below `lo`.
abbrev pub IsSortedFrom : (ℕ → ℕ) → ℕ → List ℕ → Type 0
IsSortedFrom key lo [] = Unit
IsSortedFrom key lo (x ∷ xs) = (lo ≤ key x) × IsSortedFrom key (key x) xs

module _ (key : ℕ → ℕ) where
  pub IsSortedFrom-mono :
      (lo hi : ℕ) (xs : List ℕ) → lo ≤ hi → IsSortedFrom key hi xs → IsSortedFrom key lo xs
  IsSortedFrom-mono lo hi [] h s = tt
  IsSortedFrom-mono lo hi (x ∷ xs) h s = (omega arith, s.1)

  pub insert_timer-IsSortedFrom :
      (lo t : ℕ) (xs : List ℕ)
      → lo ≤ key t
      → IsSortedFrom key lo xs
      → IsSortedFrom key lo (insert_timer key t xs)
  unfolding insert_timer
  insert_timer-IsSortedFrom lo t [] h s = (h, tt)
  insert_timer-IsSortedFrom lo t (x ∷ xs) h s =
      ground (arith, insert_timer-IsSortedFrom (key x) t xs)

  pub erase_timer-IsSortedFrom :
      (lo t : ℕ) (xs : List ℕ) → IsSortedFrom key lo xs → IsSortedFrom key lo (erase_timer key t xs)
  unfolding erase_timer
  erase_timer-IsSortedFrom lo t [] s = tt
  erase_timer-IsSortedFrom lo t (x ∷ xs) s =
      ground
        (arith, erase_timer-IsSortedFrom (key x) t xs s.1, IsSortedFrom-mono lo (key x) xs s.0 s.1)

  pub count-insert_timer :
      (i t : ℕ) (xs : List ℕ)
      → count i (insert_timer key t xs) ≡ (if t == i then 1 else 0) + count i xs
  unfolding insert_timer
  count-insert_timer i t [] = refl
  count-insert_timer i t (x ∷ xs) = ground (arith, count-insert_timer i t xs)

  -- Behind an entry that expires later, the queue holds no timer that expires before.
  pub count_above : (lo t : ℕ) (xs : List ℕ) → key t < lo → IsSortedFrom key lo xs → count t xs ≡ 0
  count_above lo t [] h s = refl
  count_above lo t (x ∷ xs) h s = ground (arith, count_above (key x) t xs)

  pub count-erase_timer :
      (lo i t : ℕ) (xs : List ℕ)
      → IsSortedFrom key lo xs
      → count i (erase_timer key t xs) ≡ (if t == i then count i xs - 1 else count i xs)
  unfolding erase_timer
  count-erase_timer lo i t [] s = ground arith
  count-erase_timer lo i t (x ∷ xs) s =
      ground (arith, count-erase_timer (key x) i t xs s.1, count_above (key x) t xs)

-- A timer that is not queued may be given another expiry.
pub IsSortedFrom-update :
    (key : ℕ → ℕ) (t v lo : ℕ) (xs : List ℕ)
    → count t xs ≡ 0
    → IsSortedFrom key lo xs
    → IsSortedFrom (update key t v) lo xs
IsSortedFrom-update key t v lo [] c s = tt
IsSortedFrom-update key t v lo (x ∷ xs) c s = ground (arith, IsSortedFrom-update key t v (key x) xs)
