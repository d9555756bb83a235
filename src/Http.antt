-- ===== src/Http.antt =====
-- The text functions of http_server.cpp. A character is its code and a string the list of them.
pub mod Request
pub mod Server
pub mod Content
pub mod Range
pub mod Search
pub mod Framing
pub mod Paths
mod Tests
use libsimulator.Base.{
  ℕ, zero, suc, ◌+◌, ◌-◌, ◌/◌, ◌%◌, Bool, true, false, not, ◌&&◌, ◌||◌, List, [], ◌∷◌, ◌++◌, Option,
  none, some, ltb, leb, ◌==◌, if◌then◌else◌, length, take, drop,
}

abbrev pub Text : Type 0
Text = List ℕ

abbrev pub space : ℕ
space = 32

abbrev pub slash : ℕ
slash = 47

abbrev pub crlf : Text
crlf = 13 ∷ 10 ∷ []

unfoldable pub text_eq : Text → Text → Bool
text_eq [] [] = true
text_eq [] (y ∷ ys) = false
text_eq (x ∷ xs) [] = false
text_eq (x ∷ xs) (y ∷ ys) = x == y && text_eq xs ys

-- `memcmp(hay, needle, nsize) == 0`, for no more than the text that is left
unfoldable pub starts_with : Text → Text → Bool
starts_with needle [] = elim needle [ [] ↦ true | _ ↦ false ]
starts_with [] (x ∷ xs) = true
starts_with (n ∷ ns) (x ∷ xs) = n == x && starts_with ns xs

-- find: the offset of the first occurrence.
unfoldable pub find : Text → Text → Option ℕ
find needle [] = if starts_with needle [] then some 0 else none
find needle (x ∷ xs) =
    let later : Option ℕ = elim (find needle xs) [ none ↦ none | some i ↦ some (suc i) ] in
    if starts_with needle (x ∷ xs) then some 0 else later

-- `strchr(" \r\n\t", c) != NULL`, which the terminating zero also is
abbrev pub is_blank : ℕ → Bool
is_blank c = c == 32 || (c == 13 || (c == 10 || (c == 9 || c == 0)))

unfoldable pub trim_left : Text → Text
trim_left [] = []
trim_left (c ∷ cs) = let rest : Text = trim_left cs in if is_blank c then rest else c ∷ cs

unfoldable pub trim_right : Text → Text
trim_right [] = []
trim_right (c ∷ cs) =
    let rest : Text = trim_right cs in
    elim rest [ [] ↦ if is_blank c then [] else c ∷ [] | d ∷ ds ↦ c ∷ d ∷ ds ]

-- trim: from the front first, then from the end.
unfoldable pub trim : Text → Text
trim s = trim_right (trim_left s)

-- `tolower` in the "C" locale
abbrev pub to_lower : ℕ → ℕ
to_lower c = if leb 65 c && leb c 90 then c + 32 else c

unfoldable pub lower_case : Text → Text
lower_case [] = []
lower_case (c ∷ cs) = to_lower c ∷ lower_case cs

abbrev pub is_up : Text → Bool
is_up e = text_eq e (46 ∷ 46 ∷ [])

-- `elements.erase(elements.end()-1)`
unfoldable pub pop_back : List Text → List Text
pop_back [] = []
pop_back (e ∷ []) = []
pop_back (e ∷ f ∷ es) = e ∷ pop_back (f ∷ es)

-- `if (element != "..") push_back else if (!empty()) erase`
unfoldable pub push_element : List Text → Text → List Text
push_element elements e = if is_up e then pop_back elements else elements ++ e ∷ []

-- The loop of normalize, with the part of the element read so far. The rest behind the last slash
-- is pushed whatever it is. `c_str` ends at the first zero: a path has none.
unfoldable pub split_path : Text → List Text → Text → List Text
split_path element elements [] = elements ++ element ∷ []
split_path element elements (c ∷ cs) =
    if c == slash
    then split_path [] (push_element elements element) cs
    else split_path (element ++ c ∷ []) elements cs

unfoldable pub join_path : List Text → Text
join_path [] = []
join_path (e ∷ es) = slash ∷ e ++ join_path es

-- `if (*start == '/') ++start`
abbrev pub skip_slash : Text → Text
skip_slash [] = []
skip_slash (c ∷ cs) = if c == slash then cs else c ∷ cs

unfoldable pub normalize : Text → Text
normalize s = join_path (split_path [] [] (skip_slash s))

-- `std::to_string` of a number that is not negative; a number has no more digits than its value
-- plus one.
unfoldable pub digits : ℕ → ℕ → Text
digits zero n = []
digits (suc fuel) n =
    let rest : Text = digits fuel (n / 10) in
    if ltb n 10 then (48 + n) ∷ [] else rest ++ (48 + n % 10) ∷ []

abbrev pub to_string : ℕ → Text
to_string n = digits (suc n) n

-- "HTTP/1.1 "
abbrev pub http_1_1 : Text
http_1_1 = 72 ∷ 84 ∷ 84 ∷ 80 ∷ 47 ∷ 49 ∷ 46 ∷ 49 ∷ 32 ∷ []

-- "content-length: "
abbrev pub content_length : Text
content_length =
    99 ∷ 111 ∷ 110 ∷ 116 ∷ 101 ∷ 110 ∷ 116 ∷ 45 ∷ 108 ∷ 101 ∷ 110 ∷ 103 ∷ 116 ∷ 104 ∷ 58 ∷ 32 ∷ []

-- A response, with its length as a text.
abbrev pub response_of : ℕ → Text → Text → Text → Text
response_of code status_message len extra_header =
    http_1_1
    ++ (to_string code
        ++ (space
            ∷ (status_message
                ++ (crlf ++ (content_length ++ (len ++ (crlf ++ (extra_header ++ crlf))))))))

-- send_response, with the four extra headers joined.
unfoldable pub send_response : ℕ → Text → ℕ → Text → Text
send_response code status_message len extra_header =
    response_of code status_message (to_string len) extra_header
