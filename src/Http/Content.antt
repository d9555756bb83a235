-- ===== src/Http/Content.antt =====
-- http_server.cpp: register_content, with the numbers of a range that std::stoll reads, the
-- registration of handlers, and the opening and the end of the server.
use libsimulator.Base.{
  ℕ, suc, ◌+◌, ◌-◌, ◌%◌, Bool, true, false, List, [], ◌∷◌, ◌++◌, Option, none, some, ltb, leb, ◌==◌,
  if◌then◌else◌, take, drop,
}
use libsimulator.Base.Int.{ℤ, pos, negsuc, sub_ℕ, ◌+ℤ◌, ◌-ℤ◌}
use libsimulator.Base.Errors.{ErrorCode, failed}
use libsimulator.Http.{Text, crlf, to_string, response_of, text_eq}
use libsimulator.Http.Request.{get_header}
use libsimulator.Http.Server.{Server, Handler, Action, reads, close_connection, redirect_handler}
use libsimulator.Proxy.Url.{codes, first_of, is_digit, number_from, skip_spaces}

-- The values of std::int64_t: 2 ^ 63 and more are out of range.
abbrev pub limit : ℕ
limit = 9223372036854775808

-- What is out of range throws: none.
abbrev pub in_range : Bool → ℕ → Option ℤ
in_range negative n =
    if negative
    then if leb n limit then some (sub_ℕ 0 n) else none
    else if ltb n limit
    then some (pos n)
    else none

abbrev pub magnitude : Bool → Text → Option ℤ
magnitude negative [] = none
magnitude negative (c ∷ cs) =
    if is_digit c then in_range negative (number_from 0 (c ∷ cs)) else none

abbrev pub signed_number : Text → Option ℤ
signed_number [] = none
signed_number (c ∷ cs) =
    if c == 45
    then magnitude true cs
    else if c == 43
    then magnitude false cs
    else magnitude false (c ∷ cs)

unfoldable pub stoll : Text → Option ℤ
stoll s = signed_number (skip_spaces s)

-- `s.substr(s.find_first_of(c) + 1)`, which is the whole text where there is no `c`, and
-- `s.substr(0, s.find(c))`.
unfoldable pub text_behind : ℕ → Text → Text
text_behind c s = elim (first_of c s) [ none ↦ s | some i ↦ drop (suc i) s ]

unfoldable pub text_before : ℕ → Text → Text
text_before c s = elim (first_of c s) [ none ↦ s | some i ↦ take i s ]

-- `start` and `end` of a range; the end is one past the last byte. The sum for a last byte of 2^63 - 1, which
-- overflows, is not cut off.
unfoldable pub range_of : Text → Option (ℤ × ℤ)
range_of header =
    let range = text_behind 61 header in
    elim (stoll (text_before 45 range)) [
      | none ↦ none
      | some start ↦ elim (stoll (text_behind 45 range)) [
        | none ↦ none
        | some last ↦ some (start, last +ℤ pos 1)
      ]
    ]

abbrev pub print_int : ℤ → Text
print_int (pos n) = to_string n
print_int (negsuc n) = 45 ∷ to_string (suc n)

-- `int(n)`: the low 32 bits, as a signed number.
abbrev pub low_bits : ℤ → ℕ
low_bits (pos n) = n % 4294967296
low_bits (negsuc n) = 4294967295 - n % 4294967296

abbrev pub as_int : ℤ → ℤ
as_int n = if ltb (low_bits n) 2147483648 then pos (low_bits n) else sub_ℕ (low_bits n) 4294967296

abbrev pub content_range : ℤ → ℤ → Text
content_range start end =
    codes "Content-Range: bytes "
    ++ (print_int start
        ++ (codes "-"
            ++ (print_int (end -ℤ pos 1) ++ (codes "/" ++ (print_int (end -ℤ start) ++ crlf)))))

-- The header of the response and the bytes that the generator gives for the range.
unfoldable pub ranged : (ℤ → ℤ → Text) → ℤ × ℤ → Text
ranged gen (start, end) =
    response_of 206 (codes "Partial Content") (print_int (as_int (end -ℤ start)))
      (content_range start end)
    ++ gen start (end -ℤ start)

unfoldable pub whole : (ℤ → ℤ → Text) → ℤ → Text
whole gen size = response_of 200 (codes "OK") (print_int (as_int size)) [] ++ gen (pos 0) size

unfoldable pub content_handler : ℤ → (ℤ → ℤ → Text) → Handler
content_handler size gen method req headers = elim (get_header (codes "range") headers) [
  | none ↦ some (whole gen size)
  | some range ↦ elim (range_of range) [ none ↦ none | some r ↦ some (ranged gen r) ]
]

-- `m_handlers[path] = …`
unfoldable pub set_handler : Text → Handler → List (Text × Handler) → List (Text × Handler)
set_handler path h [] = (path, h) ∷ []
set_handler path h ((p, g) ∷ hs) =
    if text_eq p path then (p, h) ∷ hs else (p, g) ∷ set_handler path h hs

unfoldable pub register_handler : Server → Text → Handler → Server
register_handler s path h = record s { handlers = set_handler path h s.handlers }

unfoldable pub register_content : Server → Text → ℤ → (ℤ → ℤ → Text) → Server
register_content s path size gen = register_handler s path (content_handler size gen)

unfoldable pub register_redirect : Server → Text → Text → Server
register_redirect s path target = register_handler s path (redirect_handler target)

unfoldable pub register_stall_handler : Server → Text → Server
register_stall_handler s path = record s { stall_handlers = path ∷ s.stall_handlers }

-- on_accept, with m_accepted_connections.
unfoldable pub on_accept : Server → ℕ → ErrorCode → Server × ℕ × Action
on_accept s accepted ec =
    let (s', a) = close_connection s in
    if failed ec then (s', accepted, a) else (s, accepted + 1, reads)

-- stop, behind the closing of the listening socket.
unfoldable pub stop : Server → Server
stop s = record s { stopping = true }
