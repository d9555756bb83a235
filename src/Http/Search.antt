-- ===== src/Http/Search.antt =====
-- What `find` finds, and the framing of requests that it decides.
use libsimulator.Base.{
  ℕ, zero, suc, ◌≡◌, ◌≤◌, ◌<◌, refl, sym, ap, subst, ◌+◌, true, false, ◌&&◌, [], ◌∷◌, ◌++◌, Option,
  some, arith, ◌==◌, length, drop, if_rule, option_rule, ==_iff,
}
use libsimulator.Http.{Text, find, starts_with}

-- The text begins with the needle.
pub Begins : Text → Text → Type 0
Begins needle hay = (rest : Text) × (hay ≡ needle ++ rest)

starts_with-Begins : (needle hay : Text) → starts_with needle hay ≡ true → Begins needle hay
unfolding starts_with Begins
starts_with-Begins [] [] e = ([], refl)
starts_with-Begins (n ∷ ns) [] e = ground arith
starts_with-Begins [] (x ∷ xs) e = (x ∷ xs, refl)
starts_with-Begins (n ∷ ns) (x ∷ xs) e =
    let (rest, q) = starts_with-Begins ns xs (ground arith) in
    (
      rest,
      subst (λ m. x ∷ xs ≡ m ∷ (ns ++ rest)) (sym ((==_iff n x).0 (ground arith))) (ap (x ∷◌) q),
    )

starts_with-append :
    (needle xs ys : Text) → starts_with needle xs ≡ true → starts_with needle (xs ++ ys) ≡ true
unfolding starts_with
starts_with-append [] [] [] e = refl
starts_with-append [] [] (y ∷ ys) e = refl
starts_with-append (n ∷ ns) [] ys e = ground arith
starts_with-append [] (x ∷ xs) ys e = refl
starts_with-append (n ∷ ns) (x ∷ xs) ys e = ground (arith, starts_with-append ns xs ys)

-- The offset is that of an occurrence, and there is none before it.
pub record Found (needle hay : Text) (i : ℕ) : Type 0 where
  pub here : starts_with needle (drop i hay) ≡ true
  pub within : i + length needle ≤ length hay
  pub first : (j : ℕ) → j < i → starts_with needle (drop j hay) ≡ false

starts_with_le : (needle hay : Text) → starts_with needle hay ≡ true → length needle ≤ length hay
unfolding starts_with
starts_with_le [] hay e = omega arith
starts_with_le (n ∷ ns) [] e = ground arith
starts_with_le (n ∷ ns) (x ∷ xs) e = ground (arith, starts_with_le ns xs)

at_front : (needle hay : Text) (i : ℕ) → starts_with needle hay ≡ true → 0 ≡ i → Found needle hay i
at_front needle hay i h e = subst (Found needle hay) e (record {
  here = h;
  within = omega (arith, starts_with_le needle hay h);
  first = λ j l. ground arith;
})

behind :
    (needle : Text) (x : ℕ) (xs : Text) (k i : ℕ)
    → Found needle xs k
    → starts_with needle (x ∷ xs) ≡ false
    → suc k ≡ i
    → Found needle (x ∷ xs) i
behind needle x xs k i f h e =
    subst (Found needle (x ∷ xs)) e
      (record { here = f.here; within = omega (arith, f.within); first = earlier })
  where
    earlier : (j : ℕ) → j < suc k → starts_with needle (drop j (x ∷ xs)) ≡ false
    earlier zero l = h
    earlier (suc j) l = f.first j (omega arith)

-- An offset that `find` returns is that of an occurrence of the needle that lies within the text, and
-- the needle does not occur before it.
pub find-Found : (needle hay : Text) (i : ℕ) → find needle hay ≡ some i → Found needle hay i
unfolding find
find-Found needle [] i e =
    if_rule (λ (r : Option ℕ). r ≡ some i → Found needle [] i) (starts_with needle [])
      (λ h q. at_front needle [] i h (ground arith)) (λ h q. ground arith) e
find-Found needle (x ∷ xs) i e =
    if_rule (λ (r : Option ℕ). r ≡ some i → Found needle (x ∷ xs) i) (starts_with needle (x ∷ xs))
      (λ h q. at_front needle (x ∷ xs) i h (ground arith))
      (λ h.
        option_rule (λ (r : Option ℕ). r ≡ some i → Found needle (x ∷ xs) i) (find needle xs)
          (λ n q. ground arith)
          (λ k found q. behind needle x xs k i (find-Found needle xs k found) h (ground arith)))
      e

starts_with-long :
    (needle xs ys : Text)
    → length needle ≤ length xs
    → starts_with needle (xs ++ ys) ≡ starts_with needle xs
unfolding starts_with
starts_with-long [] [] [] h = refl
starts_with-long [] [] (y ∷ ys) h = refl
starts_with-long [] (x ∷ xs) ys h = refl
starts_with-long (n ∷ ns) [] ys h = ground arith
starts_with-long (n ∷ ns) (x ∷ xs) ys h = ap (n == x &&◌) (starts_with-long ns xs ys (omega arith))

-- What `find` finds it also finds when more text follows.
pub find-append :
    (needle xs ys : Text) (i : ℕ) → find needle xs ≡ some i → find needle (xs ++ ys) ≡ some i
unfolding find starts_with
find-append [] [] [] i e = e
find-append [] [] (y ∷ ys) i e = e
find-append (n ∷ ns) [] ys i e = ground arith
find-append needle (x ∷ xs) ys i e =
    let f = find-Found needle (x ∷ xs) i e in
    let long = starts_with-long needle (x ∷ xs) ys (omega (arith, f.within)) in
    if_rule (λ (r : Option ℕ). r ≡ some i → find needle (x ∷ (xs ++ ys)) ≡ some i)
      (starts_with needle (x ∷ xs)) (λ h q. ground (arith, long))
      (λ h.
        option_rule (λ (r : Option ℕ). r ≡ some i → find needle (x ∷ (xs ++ ys)) ≡ some i)
          (find needle xs) (λ n q. ground arith)
          (λ k found q. ground (arith, long, find-append needle xs ys k found)))
      e
