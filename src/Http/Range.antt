-- ===== src/Http/Range.antt =====
-- A request for a range of some content.
use libsimulator.Base.{
  ℕ, zero, suc, ◌+◌, ◌-◌, ◌*◌, ◌/◌, ◌%◌, ◌≡◌, ◌≤◌, ◌<◌, inl, inr, refl, sym, ap, ap₂, subst, ◌∙◌,
  true, [], ◌∷◌, ◌++◌, some, ltb, arith, All-append, Bool-cases,
}
use libsimulator.Base.Int.{ℤ, pos, ◌+ℤ◌, ◌-ℤ◌}
use libsimulator.Http.{Text, crlf, digits, to_string, response_of, send_response}
use libsimulator.Http.Request.{get_header}
use libsimulator.Http.Server.{Headers}
use libsimulator.Http.Content.{
  limit, stoll, text_behind, text_before, range_of, print_int, as_int, low_bits, content_range,
  ranged, content_handler,
}
use libsimulator.Proxy.Url.{codes, is_digit, number_from, skip_spaces}
use libsimulator.Proxy.Digits.{
  Without, Digits, first_of-append, take-append, drop_behind, Digits-Without,
}

number_from-snoc :
    (n : ℕ) (ds : Text) (d : ℕ)
    → Digits ds
    → is_digit d ≡ true
    → number_from n (ds ++ d ∷ []) ≡ number_from n ds * 10 + (d - 48)
unfolding number_from
number_from-snoc n [] d w h = ground (arith, h)
number_from-snoc n (x ∷ ds) d w h =
    ground (arith, w.0, number_from-snoc (n * 10 + (x - 48)) ds d w.1 h)

pub digits-Digits : (fuel n : ℕ) → Digits (digits fuel n)
unfolding digits
digits-Digits zero n = tt
digits-Digits (suc f) n = elim (Bool-cases (ltb n 10)) [
  | inl t ↦ rw t ((ground (arith, t)), tt)
  | inr t ↦ rw t (
      All-append (λ x. is_digit x ≡ true) (digits f (n / 10)) _ (digits-Digits f (n / 10))
        ((ground arith), tt))
]

pub number_from-digits : (fuel n : ℕ) → n < fuel → number_from 0 (digits fuel n) ≡ n
unfolding digits number_from
number_from-digits zero n h = absurd (omega arith)
number_from-digits (suc f) n h = elim (Bool-cases (ltb n 10)) [
  | inl t ↦ rw t (ground (arith, t))
  | inr t ↦ rw t (
      number_from-snoc 0 (digits f (n / 10)) (48 + n % 10) (digits-Digits f (n / 10)) (ground arith)
      ∙ ground (arith, number_from-digits f (n / 10), t))
]

-- The text of a number has a first character.
pub digits-starts : (f n : ℕ) → (d : ℕ) × (ds : Text) × (digits (suc f) n ≡ d ∷ ds)
unfolding digits
digits-starts f n = elim (Bool-cases (ltb n 10)) [
  | inl t ↦ (48 + n, [], rw t)
  | inr t ↦ rw t (by_rest (digits f (n / 10)))
]
  where
    by_rest : (r : Text) → (d : ℕ) × (ds : Text) × (r ++ (48 + n % 10) ∷ [] ≡ d ∷ ds)
    by_rest [] = (48 + n % 10, [], refl)
    by_rest (x ∷ xs) = (x, xs ++ (48 + n % 10) ∷ [], refl)

stoll-Digits :
    (d : ℕ) (ds : Text)
    → Digits (d ∷ ds)
    → number_from 0 (d ∷ ds) < limit
    → stoll (d ∷ ds) ≡ some (pos (number_from 0 (d ∷ ds)))
unfolding stoll skip_spaces
stoll-Digits d ds w h = ground (arith, w.0)

stoll-to_string : (n : ℕ) → n < limit → stoll (to_string n) ≡ some (pos n)
stoll-to_string n h =
    let s = digits-starts n n in
    let v : number_from 0 (s.0 ∷ s.1) ≡ n =
      subst (λ t. number_from 0 t ≡ n) s.2 (number_from-digits (suc n) n (omega arith)) in
    ap stoll s.2
    ∙ stoll-Digits s.0 s.1 (subst Digits s.2 (digits-Digits (suc n) n))
        (subst (λ m. m < limit) (sym v) h)
    ∙ ap (λ m. some (pos m)) v

-- The header of a request for the bytes from `a` to `b`.
abbrev pub range_header : ℕ → ℕ → Text
range_header a b = codes "bytes=" ++ (to_string a ++ 45 ∷ to_string b)

text_before-append : (c : ℕ) (a b : Text) → Without c a → text_before c (a ++ c ∷ b) ≡ a
unfolding text_before
text_before-append c a b w = rw (first_of-append c a b w, text_before) (take-append a (c ∷ b))

text_behind-append : (c : ℕ) (a b : Text) → Without c a → text_behind c (a ++ c ∷ b) ≡ b
unfolding text_behind
text_behind-append c a b w = rw (first_of-append c a b w, text_behind) (drop_behind a c b)

behind_last : (b : ℕ) → pos b +ℤ pos 1 ≡ pos (b + 1)
behind_last b = ground arith

-- The two numbers of a range, from their texts.
range_of_parts :
    (header range : Text) (a b : ℕ)
    → text_behind 61 header ≡ range
    → stoll (text_before 45 range) ≡ some (pos a)
    → stoll (text_behind 45 range) ≡ some (pos b)
    → range_of header ≡ some (pos a, pos (b + 1))
unfolding range_of
range_of_parts header range a b e f g =
    let f' = ap (λ r. stoll (text_before 45 r)) e ∙ f in
    let g' = ap (λ r. stoll (text_behind 45 r)) e ∙ g in
    rw (f', range_of) (rw g' (ap (λ e. some (pos a, e)) (behind_last b)))

range_of-range_header :
    (a b : ℕ) → a < limit → b < limit → range_of (range_header a b) ≡ some (pos a, pos (b + 1))
unfolding codes
range_of-range_header a b h k =
    let w = Digits-Without 45 (to_string a) refl (digits-Digits (suc a) a) in
    range_of_parts (range_header a b) (to_string a ++ 45 ∷ to_string b) a b
      (text_behind-append 61 (98 ∷ 121 ∷ 116 ∷ 101 ∷ 115 ∷ []) (to_string a ++ 45 ∷ to_string b)
        (refl, (refl, (refl, (refl, (refl, tt))))))
      (ap stoll (text_before-append 45 (to_string a) (to_string b) w) ∙ stoll-to_string a h)
      (ap stoll (text_behind-append 45 (to_string a) (to_string b) w) ∙ stoll-to_string b k)

length_of_range : (a b : ℕ) → a ≤ b → pos (b + 1) -ℤ pos a ≡ pos (b + 1 - a)
length_of_range a b h = ground arith

last_of_range : (b : ℕ) → pos (b + 1) -ℤ pos 1 ≡ pos b
last_of_range b = ground arith

-- A number that fits an int is itself as one.
print_as_int : (n : ℕ) → n < 2147483648 → print_int (as_int (pos n)) ≡ to_string n
print_as_int n h =
    let e : low_bits (pos n) ≡ n = omega arith in
    let t : as_int (pos n) ≡ pos n = ground (arith, e) in ap print_int t

abbrev pub range_line : Text → Text → Text → Text
range_line a b n =
    codes "Content-Range: bytes " ++ (a ++ (codes "-" ++ (b ++ (codes "/" ++ (n ++ crlf)))))

print_range :
    (a b : ℕ)
    → a ≤ b
    → content_range (pos a) (pos (b + 1))
      ≡ range_line (to_string a) (to_string b) (to_string (b + 1 - a))
print_range a b h =
    ap₂ (λ x y. range_line (to_string a) (print_int x) (print_int y)) (last_of_range b)
      (length_of_range a b h)

-- A request for the bytes from `a` to `b` of some content, where `b` is not before `a` and the length of the
-- range fits an int: the response has the status 206, states the range and its length, which is also what stands
-- for the total, and ends with what the generator gives for the range.
pub content_handler-range_header :
    (size : ℤ) (gen : ℤ → ℤ → Text) (method req : Text) (headers : Headers) (a b : ℕ)
    → a ≤ b
    → b < limit
    → b + 1 - a < 2147483648
    → get_header (codes "range") headers ≡ some (range_header a b)
    → content_handler size gen method req headers
      ≡ some (
          send_response 206
            (codes "Partial Content")
            (b + 1 - a)
            (range_line (to_string a) (to_string b) (to_string (b + 1 - a)))
          ++ gen (pos a) (pos (b + 1 - a)))
unfolding content_handler ranged send_response
content_handler-range_header size gen method req headers a b h k l e =
    handled
    ∙ ap
        (λ x. some (
          response_of 206 partial (print_int (as_int x)) (content_range (pos a) (pos (b + 1)))
          ++ gen (pos a) x))
        (length_of_range a b h)
    ∙ ap₂ (λ t c. some (response_of 206 partial t c ++ gen (pos a) (pos (b + 1 - a))))
        (print_as_int (b + 1 - a) l) (print_range a b h)
  where
    partial : Text
    partial = codes "Partial Content"

    handled : content_handler size gen method req headers ≡ some (ranged gen (pos a, pos (b + 1)))
    handled = rw (e, content_handler, range_of-range_header a b (omega arith) k)
