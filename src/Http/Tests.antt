-- ===== src/Http/Tests.antt =====
-- Instances of the theorems about the HTTP server, and runs of its text functions.
use libsimulator.Base.Errors.{no_error}
use libsimulator.Base.{take, ◌≡◌, refl, true, false, [], ◌∷◌, ◌++◌, some, none, arith}
use libsimulator.Base.Int.{ℤ, pos}
use libsimulator.Http.{
  Text, normalize, join_path, trim, to_string, find, starts_with, digits, split_path, push_element,
  text_eq, pop_back, trim_left, trim_right,
}
use libsimulator.Http.Request.{find_request_len}
use libsimulator.Http.Server.{Server, reads, on_read}
use libsimulator.Http.{send_response}
use libsimulator.Http.Request.{get_header}
use libsimulator.Http.Server.{Headers}
use libsimulator.Http.Content.{content_handler, stoll}
use libsimulator.Http.Range.{range_header, range_line, content_handler-range_header}
use libsimulator.Proxy.Url.{codes, skip_spaces, number_from}
use libsimulator.Http.Framing.{answer, on_read-framed}

-- "/a/../b/.."
abbrev path : Text
path = 47 ∷ 97 ∷ 47 ∷ 46 ∷ 46 ∷ 47 ∷ 98 ∷ 47 ∷ 46 ∷ 46 ∷ []

last_up_stays : normalize path ≡ 47 ∷ 98 ∷ 47 ∷ 46 ∷ 46 ∷ []
unfolding normalize join_path split_path push_element text_eq pop_back
last_up_stays = refl

trims : trim (32 ∷ 65 ∷ 32 ∷ 66 ∷ 13 ∷ []) ≡ 65 ∷ 32 ∷ 66 ∷ []
unfolding trim trim_right trim_left
trims = refl

prints : to_string 206 ≡ 50 ∷ 48 ∷ 54 ∷ []
unfolding digits
prints = refl

abbrev server : Server
server = record {
  recv_buffer = 71 ∷ [];
  handlers = [];
  stall_handlers = [];
  http_1_0 = false;
  keep_alive = true;
  stopping = false;
}

-- "G" was read before, " /" and then the rest of the request line and the empty line arrive.
abbrev first_part : Text
first_part = 32 ∷ 47 ∷ []

abbrev second_part : Text
second_part = 32 ∷ 13 ∷ 10 ∷ 13 ∷ 10 ∷ []

on_read-framed_example :
    (on_read server no_error first_part ≡ (record server { recv_buffer = 71 ∷ first_part }, reads))
    × ((on_read (on_read server no_error first_part).0 no_error (second_part ++ (71 ∷ []))).1
        ≡ answer server (take 8 (71 ∷ [] ++ (first_part ++ second_part))))
unfolding find_request_len find starts_with
on_read-framed_example = on_read-framed server first_part second_part (71 ∷ []) 4 refl refl

-- The content is the alphabet; a request for the third to the sixth letter.
abbrev letters : ℤ → ℤ → Text
letters start n = codes "cdef"

abbrev headers : Headers
headers = (codes "range", range_header 2 5) ∷ []

content_handler-range_header_example :
    content_handler (pos 26) letters (codes "GET") (codes "/alphabet") headers
    ≡ some (
        send_response 206
          (codes "Partial Content")
          4
          (range_line (to_string 2) (to_string 5) (to_string 4))
        ++ codes "cdef")
unfolding get_header text_eq codes
content_handler-range_header_example =
    content_handler-range_header (pos 26) letters (codes "GET") (codes "/alphabet") headers 2 5
      (omega arith) (omega arith) (omega arith) refl

reads_sign : stoll (codes "-500 ") ≡ some (ℤ.negsuc 499)
unfolding stoll skip_spaces codes number_from
reads_sign = refl

empty_throws : stoll [] ≡ none
unfolding stoll skip_spaces
empty_throws = refl
