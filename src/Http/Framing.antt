-- ===== src/Http/Framing.antt =====
-- The requests that the server takes off the stream of bytes.
use libsimulator.Base.Errors.{no_error}
use libsimulator.Base.{
  ℕ, zero, suc, ◌≡◌, ◌≤◌, refl, sym, ap, subst, ◌∙◌, ◌+◌, not, [], ◌∷◌, ◌++◌, Option, none, some,
  arith, length, take, drop, option_rule, append_assoc,
}
use libsimulator.Http.{Text, find}
use libsimulator.Http.Request.{HttpRequest, find_request_len, parse_request}
use libsimulator.Http.Server.{
  Server, Action, reads, closes, close_connection, serve, settle, process, respond, on_read,
}
use libsimulator.Http.Search.{find-Found, find-append}

abbrev pub blank_line : Text
blank_line = 13 ∷ 10 ∷ 13 ∷ 10 ∷ []

pub find_request_len-append :
    (xs ys : Text) (n : ℕ)
    → find_request_len xs ≡ some n
    → (find_request_len (xs ++ ys) ≡ some n) × (n ≤ length xs)
unfolding find_request_len
find_request_len-append xs ys n e =
    option_rule
      (λ (r : Option ℕ). r ≡ some n → (find_request_len (xs ++ ys) ≡ some n) × (n ≤ length xs))
      (find blank_line xs) (λ h q. ground arith)
      (λ i found q.
        let f = find-Found blank_line xs i found in
        let at : i + 4 ≡ n = ground arith in
        (
          ap (λ (o : Option ℕ). elim o [ none ↦ none | some k ↦ some (k + 4) ])
                (find-append blank_line xs ys i found)
              ∙ ap some at,
          omega (arith, f.within, at),
        ))
      e

take-append : (n : ℕ) (xs ys : Text) → n ≤ length xs → take n (xs ++ ys) ≡ take n xs
take-append zero xs ys h = refl
take-append (suc n) [] ys h = ground arith
take-append (suc n) (x ∷ xs) ys h = ap (x ∷◌) (take-append n xs ys (omega arith))

-- What is done about a request.
abbrev pub answer : Server → Text → Action
answer s request = elim (parse_request request) [
  | none ↦ closes (not s.stopping)
  | some req ↦ elim (serve s req) [ none ↦ closes (not s.stopping) | some a ↦ a ]
]

abbrev with_buffer : Server → Text → Server
with_buffer s buf = record s { recv_buffer = buf }

parsed-answer :
    (s : Server) (buf request : Text)
    → (elim (parse_request request) as (λ x. Server × Action) [
      | none ↦ close_connection s
      | some req ↦ settle (with_buffer s buf) (serve s req)
    ]).1
      ≡ answer s request
unfolding close_connection
parsed-answer s buf request = by_result (parse_request request)
  where
    by_action :
        (o : Option Action)
        → (settle (with_buffer s buf) o).1
          ≡ elim o as (λ x. Action) [ none ↦ closes (not s.stopping) | some a ↦ a ]
    by_action none = refl
    by_action (some a) = refl

    by_result :
        (r : Option HttpRequest)
        → (elim r as (λ x. Server × Action) [
          | none ↦ close_connection s
          | some req ↦ settle (with_buffer s buf) (serve s req)
        ]).1
          ≡ elim r as (λ x. Action) [
            | none ↦ closes (not s.stopping)
            | some req ↦ elim (serve s req) [ none ↦ closes (not s.stopping) | some a ↦ a ]
          ]
    by_result none = refl
    by_result (some req) = by_action (serve s req)

process-answer :
    (s : Server) (n : ℕ)
    → find_request_len s.recv_buffer ≡ some n
    → (process s).1 ≡ answer s (take n s.recv_buffer)
unfolding process
process-answer s n e =
    option_rule (λ (r : Server × Action). r.1 ≡ answer s (take n s.recv_buffer))
      (find_request_len s.recv_buffer) (λ h. ground arith)
      (λ k h.
        parsed-answer s (drop k s.recv_buffer) (take k s.recv_buffer)
        ∙ ap (λ j. answer s (take j s.recv_buffer)) (ground arith))

process-wait : (s : Server) → find_request_len s.recv_buffer ≡ none → process s ≡ (s, reads)
unfolding process
process-wait s e =
    option_rule (λ (r : Server × Action). r ≡ (s, reads)) (find_request_len s.recv_buffer)
      (λ _. refl) (λ k h. ground arith)

-- While no request is complete, the server keeps the bytes and reads on, and two reads in a row do exactly what
-- one read of all their bytes does.
pub on_read-on_read :
    (s : Server) (a b : Text)
    → find_request_len (s.recv_buffer ++ a) ≡ none
    → (on_read s no_error a ≡ (with_buffer s (s.recv_buffer ++ a), reads))
      × (on_read (on_read s no_error a).0 no_error b ≡ on_read s no_error (a ++ b))
unfolding on_read
on_read-on_read s a b e =
    let waits = process-wait (with_buffer s (s.recv_buffer ++ a)) e in
    (
      waits,
      ap (λ (r : Server × Action). process (with_buffer r.0 (r.0.recv_buffer ++ b))) waits
          ∙ ap (λ buf. process (with_buffer s buf)) (append_assoc s.recv_buffer a b),
    )

-- Once a request is complete, what the server does about it does not depend on how many bytes come with it.
pub on_read-append :
    (s : Server) (a b : Text) (n : ℕ)
    → find_request_len (s.recv_buffer ++ a) ≡ some n
    → (on_read s no_error (a ++ b)).1 ≡ (on_read s no_error a).1
unfolding on_read serve respond
on_read-append s a b n e =
    let longer = find_request_len-append (s.recv_buffer ++ a) b n e in
    let whole = append_assoc s.recv_buffer a b in
    process-answer (with_buffer s (s.recv_buffer ++ (a ++ b))) n
      (subst (λ buf. find_request_len buf ≡ some n) whole longer.0)
    ∙ ap (answer s) (ap (take n) (sym whole) ∙ take-append n (s.recv_buffer ++ a) b longer.1)
    ∙ sym (process-answer (with_buffer s (s.recv_buffer ++ a)) n e)

find_request_len-find :
    (xs : Text) (i : ℕ) → find blank_line xs ≡ some i → find_request_len xs ≡ some (i + 4)
unfolding find_request_len
find_request_len-find xs i e =
    ap (λ (o : Option ℕ). elim o [ none ↦ none | some k ↦ some (k + 4) ]) e

find_request_len-none : (xs : Text) → find blank_line xs ≡ none → find_request_len xs ≡ none
unfolding find_request_len
find_request_len-none xs e = ap (λ (o : Option ℕ). elim o [ none ↦ none | some k ↦ some (k + 4) ]) e

-- However the bytes of a request are split between two reads: as long as no blank line is among the bytes, the
-- server keeps them all and reads on. When the next read brings the blank line, what the server does is
-- what it does about exactly the bytes up to the end of the first blank line, whatever
-- bytes the read brings behind it.
pub on_read-framed :
    (s : Server) (a b c : Text) (i : ℕ)
    → find blank_line (s.recv_buffer ++ a) ≡ none
    → find blank_line (s.recv_buffer ++ (a ++ b)) ≡ some i
    → (on_read s no_error a ≡ (with_buffer s (s.recv_buffer ++ a), reads))
      × ((on_read (on_read s no_error a).0 no_error (b ++ c)).1
          ≡ answer s (take (i + 4) (s.recv_buffer ++ (a ++ b))))
unfolding on_read serve respond
on_read-framed s a b c i n e =
    let (keeps, joined) =
      on_read-on_read s a (b ++ c) (find_request_len-none (s.recv_buffer ++ a) n) in
    let len = find_request_len-find (s.recv_buffer ++ (a ++ b)) i e in
    (
      keeps,
      ap (λ (r : Server × Action). r.1) joined
          ∙ ap (λ t. (on_read s no_error t).1) (sym (append_assoc a b c))
          ∙ on_read-append s (a ++ b) c (i + 4) len
          ∙ process-answer (with_buffer s (s.recv_buffer ++ (a ++ b))) (i + 4) len,
    )
