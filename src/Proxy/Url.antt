-- ===== src/Proxy/Url.antt =====
-- forward_request of http_proxy.cpp: where the URL of a request leads to.
use Prim.Native.Char.{code}
use Prim.Native.String.{String}
use libsimulator.Base.{
  ℕ, suc, ◌+◌, ◌-◌, ◌*◌, Bool, false, ◌&&◌, ◌||◌, [], ◌∷◌, Option, none, some, ltb, leb, ◌==◌,
  if◌then◌else◌, length, take, drop,
}
use libsimulator.Http.{Text, slash}

-- A literal.
unfoldable pub codes : String → Text
codes String.[] = []
codes (String.◌∷◌ c s) = code c ∷ codes s

-- `find_first_of(c)` and `find_last_of(c)` of a single character
unfoldable pub first_of : ℕ → Text → Option ℕ
first_of c [] = none
first_of c (x ∷ xs) =
    let later : Option ℕ = elim (first_of c xs) [ none ↦ none | some i ↦ some (suc i) ] in
    if x == c then some 0 else later

unfoldable pub last_of : ℕ → Text → Option ℕ
last_of c [] = none
last_of c (x ∷ xs) = elim (last_of c xs) [
  | some i ↦ some (suc i)
  | none ↦ if x == c then some 0 else none
]

abbrev pub is_digit : ℕ → Bool
is_digit c = leb 48 c && leb c 57

-- The digits in front, as a number that goes on from this one.
unfoldable pub number_from : ℕ → Text → ℕ
number_from n [] = n
number_from n (c ∷ cs) =
    let rest = number_from (n * 10 + (c - 48)) cs in if is_digit c then rest else n

abbrev pub is_space : ℕ → Bool
is_space c = c == 32 || leb 9 c && leb c 13

unfoldable pub skip_spaces : Text → Text
skip_spaces [] = []
skip_spaces (c ∷ cs) = let rest = skip_spaces cs in if is_space c then rest else c ∷ cs

-- `atoi`, where none is a number below 0
unfoldable pub signed : Text → Option ℕ
signed [] = some 0
signed (c ∷ cs) =
    if c == 45
    then if number_from 0 cs == 0 then some 0 else none
    else if c == 43
    then some (number_from 0 cs)
    else some (number_from 0 (c ∷ cs))

unfoldable pub atoi : Text → Option ℕ
atoi s = signed (skip_spaces s)

-- The brackets of an address of version 6 are taken off.
unfoldable pub last_is : ℕ → Text → Bool
last_is c [] = false
last_is c (x ∷ []) = x == c
last_is c (x ∷ y ∷ xs) = last_is c (y ∷ xs)

unfoldable pub strip_brackets : Text → Text
strip_brackets [] = []
strip_brackets (c ∷ cs) =
    if leb 2 (suc (length cs)) && (c == 91 && last_is 93 (c ∷ cs))
    then take (length (c ∷ cs) - 2) cs
    else c ∷ cs

-- Where a request goes: the path, the host, and the port, where none fails the assertion.
pub record Destination : Type 0 where
  pub path : Text
  pub host : Text
  pub port : Option ℕ

abbrev pub checked_port : Option ℕ → Option ℕ
checked_port none = none
checked_port (some n) = if ltb n 65535 then some n else none

-- `path_start`, counted from the front of the URL
unfoldable pub path_start : Text → Option ℕ
path_start url = elim (first_of slash (drop 7 url)) [ none ↦ none | some i ↦ some (7 + i) ]

-- `req.req.substr(0, path_start)`
unfoldable pub authority : Text → Option ℕ → Text
authority url none = url
authority url (some i) = take i url

-- `host_end`, if it is not npos and beyond 7
unfoldable pub host_end : Text → Option ℕ
host_end authority = elim (last_of 58 authority) [
  | none ↦ none
  | some i ↦ if leb i 7 then none else some i
]

unfoldable pub path_at : Text → Option ℕ → Text
path_at url none = slash ∷ []
path_at url (some i) = drop i url

unfoldable pub host_at : Text → Option ℕ → Option ℕ → Text
host_at url start none = drop 7 (authority url start)
host_at url start (some i) = take (i - 7) (drop 7 url)

-- `req.req.substr(host_end + 1, path_start)`, whose second argument is a number of characters
unfoldable pub port_text : Text → Option ℕ → ℕ → Text
port_text url none i = drop (suc i) url
port_text url (some n) i = take n (drop (suc i) url)

unfoldable pub port_at : Text → Option ℕ → Option ℕ → Option ℕ
port_at url start none = some 80
port_at url start (some i) = checked_port (atoi (port_text url start i))

-- A URL that begins with "http://".
unfoldable pub target_of : Text → Destination
target_of url =
    let start = path_start url in
    let end = host_end (authority url start) in
    record {
      path = path_at url start;
      host = strip_brackets (host_at url start end);
      port = port_at url start end;
    }
