-- ===== src/Proxy/Digits.antt =====
-- Texts of digits, and the first and the last place of a character.
use libsimulator.Base.{
  ℕ, suc, ◌≡◌, ◌+◌, ◌-◌, ◌*◌, refl, ap, true, false, [], ◌∷◌, ◌++◌, none, some, arith, ◌==◌, length,
  take, drop, All,
}
use libsimulator.Http.{Text}
use libsimulator.Proxy.Url.{first_of, last_of, is_digit, number_from, skip_spaces, signed, atoi}

-- No character of the text is this one.
abbrev pub Without : ℕ → Text → Type 0
Without c = All (λ x. (x == c) ≡ false)

abbrev pub Digits : Text → Type 0
Digits = All (λ x. is_digit x ≡ true)

pub first_of-append : (c : ℕ) (a r : Text) → Without c a → first_of c (a ++ c ∷ r) ≡ some (length a)
unfolding first_of
first_of-append c [] r w = ground arith
first_of-append c (x ∷ a) r w = ground (arith, first_of-append c a r w.1, w.0)

pub last_of-none : (c : ℕ) (b : Text) → Without c b → last_of c b ≡ none
unfolding last_of
last_of-none c [] w = refl
last_of-none c (x ∷ b) w = ground (arith, last_of-none c b w.1, w.0)

pub last_of-append : (c : ℕ) (a b : Text) → Without c b → last_of c (a ++ c ∷ b) ≡ some (length a)
unfolding last_of
last_of-append c [] b w = ground (arith, last_of-none c b w)
last_of-append c (x ∷ a) b w = ground (arith, last_of-append c a b w)

pub take-append : (a b : Text) → take (length a) (a ++ b) ≡ a
take-append [] b = refl
take-append (x ∷ a) b = ap (x ∷◌) (take-append a b)

pub drop-append : (a b : Text) → drop (length a) (a ++ b) ≡ b
drop-append [] b = refl
drop-append (x ∷ a) b = drop-append a b

pub drop_behind : (a : Text) (c : ℕ) (b : Text) → drop (suc (length a)) (a ++ c ∷ b) ≡ b
drop_behind [] c b = refl
drop_behind (x ∷ a) c b = drop_behind a c b

pub Digits-Without : (c : ℕ) (ds : Text) → is_digit c ≡ false → Digits ds → Without c ds
Digits-Without c [] h d = tt
Digits-Without c (x ∷ ds) h d = (ground (arith, d.0), Digits-Without c ds h d.1)

-- A text that no number goes on with.
abbrev pub Ends : Text → Type 0
Ends r = (n : ℕ) → number_from n r ≡ n

pub number_from-append :
    (n : ℕ) (ds r : Text) → Digits ds → Ends r → number_from n (ds ++ r) ≡ number_from n ds
unfolding number_from
number_from-append n [] r d e = e n
number_from-append n (x ∷ ds) r d e =
    ground (arith, number_from-append (n * 10 + (x - 48)) ds r d.1 e, d.0)

-- Digits in front of a slash, or at the end.
pub atoi-Digits :
    (d : ℕ) (ds r : Text)
    → Digits (d ∷ ds)
    → Ends r
    → atoi ((d ∷ ds) ++ r) ≡ some (number_from 0 (d ∷ ds))
unfolding atoi skip_spaces signed
atoi-Digits d ds r w e = ground (arith, number_from-append 0 (d ∷ ds) r w e, w.0)
