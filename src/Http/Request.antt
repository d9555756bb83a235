-- ===== src/Http/Request.antt =====
-- parse_request and find_request_len of http_server.cpp. A position is an offset into the request;
-- `throw std::runtime_error("parse failed")` is none.
use libsimulator.Base.{
  ℕ, zero, suc, ◌+◌, ◌-◌, true, false, List, [], ◌∷◌, Option, none, some, ltb, ◌==◌, if◌then◌else◌,
  length, take, drop,
}
use libsimulator.Http.{Text, space, crlf, find, text_eq, normalize, lower_case, trim}

pub record HttpRequest : Type 0 where
  pub method : Text
  pub req : Text
  pub path : Text
  pub headers : List (Text × Text)

-- find_request_len: one past the end of the empty line; -1 is none.
unfoldable pub find_request_len : Text → Option ℕ
find_request_len buf = elim (find (13 ∷ 10 ∷ 13 ∷ 10 ∷ []) buf) [
  | none ↦ none
  | some i ↦ some (i + 4)
]

-- `find(start + from, len - from, needle)` as an offset from `start`
unfoldable pub find_from : ℕ → Text → Text → Option ℕ
find_from from needle s = elim (find needle (drop from s)) [
  | none ↦ none
  | some i ↦ some (from + i)
]

-- The text from one offset up to another.
abbrev pub between : ℕ → ℕ → Text → Text
between a b s = take (b - a) (drop a s)

-- `headers[name] = value`
unfoldable pub set_header : Text → Text → List (Text × Text) → List (Text × Text)
set_header name value [] = (name, value) ∷ []
set_header name value ((n, v) ∷ hs) =
    if text_eq n name then (n, value) ∷ hs else (n, v) ∷ set_header name value hs

unfoldable pub get_header : Text → List (Text × Text) → Option Text
get_header name [] = none
get_header name ((n, v) ∷ hs) = if text_eq n name then some v else get_header name hs

-- One round of the loop over the headers, from the line break before one; the next line break and
-- the headers.
unfoldable pub parse_header : Text → ℕ → List (Text × Text) → Option (ℕ × List (Text × Text))
parse_header s header hs = elim (find_from header (58 ∷ []) s) [
  | none ↦ none
  | some value ↦ elim (find_from (header + 2) crlf s) [
    | none ↦ none
    | some next ↦
        if ltb next value
        then none
        else some (
          next,
          set_header (lower_case (trim (between header value s)))
              (trim (between (suc value) next s)) hs,
        )
  ]
]

-- The loop, which ends at the line break four characters before the end. Each round moves on by two
-- characters at least, so that the length of the request is fuel enough.
unfoldable pub parse_headers :
    ℕ → Text → Option ℕ → List (Text × Text) → Option (List (Text × Text))
parse_headers fuel s none hs = none
parse_headers zero s (some header) hs = none
parse_headers (suc fuel) s (some header) hs = elim (header + 4 == length s) [
  | true ↦ some hs
  | false ↦ elim (parse_header s header hs) [
    | none ↦ none
    | some r ↦ parse_headers fuel s (some r.0) r.1
  ]
]

-- `req.substr(0, req.find_first_of('?'))`
unfoldable pub before_query : Text → Text
before_query req = elim (find (63 ∷ []) req) [ none ↦ req | some i ↦ take i req ]

-- "CONNECT"
abbrev pub connect : Text
connect = 67 ∷ 79 ∷ 78 ∷ 78 ∷ 69 ∷ 67 ∷ 84 ∷ []

abbrev pub path_of : Text → Text → Text
path_of method req = if text_eq method connect then req else normalize (before_query req)

unfoldable pub parse_request : Text → Option HttpRequest
parse_request s = elim (find (space ∷ []) s) [
  | none ↦ none
  | some sp ↦ elim (find_from (suc sp) (space ∷ []) s) [
    | none ↦ none
    | some sp2 ↦
        let method = take sp s in
        let req = between (suc sp) sp2 s in
        elim (parse_headers (length s) s (find_from sp2 crlf s) []) [
          | none ↦ none
          | some hs ↦
              some (record { method = method; req = req; path = path_of method req; headers = hs })
        ]
  ]
]
