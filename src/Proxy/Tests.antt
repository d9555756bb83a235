-- ===== src/Proxy/Tests.antt =====
-- Instances of the theorems about the HTTP proxy, and runs of it.
use libsimulator.Base.{◌≡◌, refl, ◌++◌, false, [], ◌∷◌, Option, none, some, arith}
use libsimulator.Net.Address.{Address}
use libsimulator.Http.{Text, slash, to_string, starts_with, find}
use libsimulator.Http.Request.{find_from, parse_headers, parse_request}
use libsimulator.Proxy.Url.{
  codes, first_of, last_of, number_from, last_is, strip_brackets, path_start, authority, host_end,
  path_at, host_at, target_of,
}
use libsimulator.Proxy.Target.{HostOf, target_of-port}
use libsimulator.Proxy.{Proxy, out_request, header_lines, found_host, in_order}

target_of-port_example :
    let t =
      target_of ((codes "http://" ++ (codes "[::1]" ++ 58 ∷ to_string 80)) ++ slash ∷ codes "x") in
    (t.path ≡ slash ∷ codes "x") × HostOf (codes "[::1]") t.host × (t.port ≡ some 80)
unfolding codes
target_of-port_example =
    target_of-port (codes "[::1]") (codes "x") 80 (refl, (refl, (refl, (refl, (refl, tt)))))
      (omega arith)

-- The brackets go, and the port is 80.
bracketed : (strip_brackets (codes "[::1]") ≡ codes "::1") × (number_from 0 (codes "80") ≡ 80)
unfolding codes strip_brackets number_from last_is
bracketed = (refl, refl)

-- Without a port, the last colon of the address itself is taken for the one in front of a port.
misread : (target_of (codes "http://[::1]/")).host ≡ codes "[:"
unfolding codes target_of path_start first_of authority host_end last_of host_at strip_brackets
    last_is
misread = refl

abbrev idle : Proxy
idle = record {
  client_in = [];
  server_out = [];
  writing_to_server = false;
  server_open = false;
  stopping = false;
  log = [];
}

abbrev address_of : Text → Option Address
address_of host = none

-- "GET http://a/ HTTP/1.1" and an empty line
unfoldable get_a : Text
get_a = codes "GET http://a/ HTTP/1.1" ++ 13 ∷ 10 ∷ 13 ∷ 10 ∷ []

-- What the server gets.
rewritten :
    (elim (parse_request get_a) as (λ x. Text) [ none ↦ [] | some req ↦ out_request req ])
    ≡ codes "GET / HTTP/1.1" ++ (13 ∷ 10 ∷ codes "host: a" ++ (13 ∷ 10 ∷ 13 ∷ 10 ∷ []))
unfolding codes get_a parse_request find starts_with find_from parse_headers out_request target_of
    path_start first_of authority host_end last_of host_at path_at strip_brackets header_lines
    found_host in_order
rewritten = refl
