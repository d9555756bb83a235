-- ===== src/Graph/Quoting.antt =====
-- A label is read back from between its quotes.
use libsimulator.Base.{
  ℕ, ◌≡◌, ◌≤◌, ◌<◌, ◌≢◌, refl, ap, ◌∙◌, true, false, [], ◌∷◌, ◌++◌, Option, none, some, arith, ◌==◌,
  if◌then◌else◌, All, take, length, length-append, Bool-cases, ==_iff, ==_ne, lt→leb, ◌⊎◌, inl, inr,
}
use libsimulator.Http.{Text}
use libsimulator.Graph.Label.{
  newline, quote, backslash, escape_label, print_at, add_rate, add_size, add_latency, printed,
  queue_label,
}

-- How a reader of the format takes a string up to its closing quote: a backslash with a quote stands
-- for the quote, one with an n for a newline, and any other for itself.
abbrev keep : ℕ → Option (Text × Text) → Option (Text × Text)
keep c none = none
keep c (some r) = some (c ∷ r.0, r.1)

pub read_string : Text → Option (Text × Text)
read_string [] = none
read_string (c ∷ []) = if c == quote then some ([], []) else none
read_string (c ∷ d ∷ ds) =
    let escaped = read_string ds in
    let rest = read_string (d ∷ ds) in
    if c == quote
    then some ([], d ∷ ds)
    else if c == backslash
    then (if d == quote
        then keep quote escaped
        else if d == 110
        then keep newline escaped
        else keep c rest)
    else keep c rest

read_end : (rest : Text) → read_string (quote ∷ rest) ≡ some ([], rest)
unfolding read_string
read_end [] = refl
read_end (d ∷ ds) = refl

read_plain :
    (c : ℕ) (t label rest : Text)
    → (c == quote) ≡ false
    → (c == backslash) ≡ false
    → read_string t ≡ some (label, rest)
    → read_string (c ∷ t) ≡ some (c ∷ label, rest)
unfolding read_string
read_plain c [] label rest q b e = cc
read_plain c (d ∷ ds) label rest q b e = rw (q, b, e)

read_escaped :
    (c d : ℕ) (t label rest : Text)
    → ((d == quote) ≡ true) × (c ≡ quote) ⊎ ((d ≡ 110) × (c ≡ newline))
    → read_string t ≡ some (label, rest)
    → read_string (backslash ∷ d ∷ t) ≡ some (c ∷ label, rest)
unfolding read_string
read_escaped c d t label rest h e = ground (arith, h, e)

-- A label without a backslash, written between quotes, is read back, whatever follows.
pub read_string-escape_label :
    (label rest : Text)
    → All (λ c. c ≢ backslash) label
    → read_string (escape_label label ++ quote ∷ rest) ≡ some (label, rest)
unfolding escape_label
read_string-escape_label [] rest h = read_end rest
read_string-escape_label (c ∷ cs) rest h =
    let ih = read_string-escape_label cs rest h.1 in
    elim (Bool-cases (c == newline)) [
      | inl n ↦ rw n (read_escaped c 110 _ cs rest (inr (refl, (==_iff c newline).0 n)) ih)
      | inr n ↦ elim (Bool-cases (c == quote)) [
        | inl q ↦ rw (n, q) (read_escaped c quote _ cs rest (inl (refl, (==_iff c quote).0 q)) ih)
        | inr q ↦ rw (n, q) (read_plain c _ cs rest q (==_ne c backslash h.0) ih)
      ]
    ]

print_at_beyond : (p : ℕ) (ret s : Text) → 400 < p → print_at (p, ret) s ≡ none
unfolding print_at
print_at_beyond p ret s h = rw (lt→leb p 400 h)

print_at_start : (s : Text) → print_at (0, []) s ≡ some (length s, take 399 s)
unfolding print_at
print_at_start s = ap (λ n. some (n, take 399 s)) (omega arith)

add_rate_beyond :
    (bandwidth p : ℕ) (ret : Text)
    → bandwidth ≢ 0
    → 400 < p
    → add_rate bandwidth (some (p, ret)) ≡ none
add_rate_beyond bandwidth p ret b h = rw (==_ne bandwidth 0 b) (print_at_beyond p ret _ h)

-- The label of a queue with a limited rate and a name of 400 characters or more is written beyond
-- the end of its buffer.
queue_label_long :
    (name : Text) (bandwidth queue_size latency : ℕ)
    → 400 ≤ length name
    → bandwidth ≢ 0
    → queue_label name bandwidth queue_size latency ≡ none
unfolding queue_label
queue_label_long name bandwidth queue_size latency h b =
    ap (λ r. printed (add_latency latency (add_size queue_size (add_rate bandwidth r))))
      (print_at_start (name ++ newline ∷ []))
    ∙ ap (λ r. printed (add_latency latency (add_size queue_size r)))
        (add_rate_beyond bandwidth (length (name ++ newline ∷ [])) _ b
          (omega (arith, length-append name (newline ∷ []))))
