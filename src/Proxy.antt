-- ===== src/Proxy.antt =====
-- http_proxy.cpp: one client at a time, whose requests are rewritten and passed on to a server. Text is a list
-- of character codes; the effects of a handler are a log. `make_address` is Boost's parser of
-- addresses.
pub mod Digits
pub mod Url
pub mod Target
pub mod Forwarding
mod Tests
use libsimulator.Base.Errors.{ErrorCode, failed, is_aborted}
use libsimulator.Base.{
  ℕ, zero, suc, ◌+◌, ◌-◌, ◌*◌, Bool, true, false, not, ◌&&◌, ◌||◌, List, [], ◌∷◌, ◌++◌, Option,
  none, some, ltb, leb, ◌==◌, if◌then◌else◌, length, take, drop,
}
use libsimulator.Net.Address.{Address, Endpoint}
use libsimulator.Http.{Text, slash, crlf, text_eq, starts_with, to_string, send_response}
use libsimulator.Proxy.Url.{codes, Destination, target_of}
use libsimulator.Http.Request.{HttpRequest, find_request_len, parse_request}

pub data Effect : Type 0 where
  -- async_accept, and async_read_some with the room in the buffer
  accepting : Effect
  reading_client : ℕ → Effect
  reading_server : Effect
  -- async_write_some to the server, async_write to the client, and the latter with close_connection
  -- behind it
  writing_server : Text → Effect
  writing_client : Text → Effect
  answering : Text → Effect
  resolving : Text → Text → Effect
  opening : Effect
  connecting : Endpoint → Effect
  closed_client : Effect
  closed_server : Effect
  closed_listener : Effect

pub record Proxy : Type 0 where
  -- the bytes in m_client_in_buffer and m_server_out_buffer
  pub client_in : Text
  pub server_out : Text
  pub writing_to_server : Bool
  -- m_server_connection.is_open()
  pub server_open : Bool
  -- m_close
  pub stopping : Bool
  pub log : List Effect

abbrev pub emit : Proxy → Effect → Proxy
emit p e = record p { log = p.log ++ e ∷ [] }

abbrev pub buffer_size : ℕ
buffer_size = 65536

unfoldable pub close_connection : Proxy → Proxy
close_connection p =
    let q = record p {
      client_in = [];
      server_out = [];
      server_open = false;
      log = p.log ++ closed_client ∷ closed_server ∷ [];
    } in
    if p.stopping then q else emit q accepting

-- The read starts at the front of the buffer.
unfoldable pub on_accept : Proxy → ErrorCode → Proxy
on_accept p ec =
    if is_aborted ec
    then p
    else if failed ec
    then close_connection p
    else emit p (reading_client buffer_size)

unfoldable pub write_server_send_buffer : Proxy → Proxy
write_server_send_buffer p =
    if p.writing_to_server
    then p
    else emit (record p { writing_to_server = true }) (writing_server p.server_out)

unfoldable pub error : Proxy → ℕ → Text → Proxy
error p code message = emit p (answering (send_response code message 0 []))

unfoldable pub open_forward_connection : Proxy → Endpoint → Proxy
open_forward_connection p target = record p {
  server_open = true;
  log = p.log ++ opening ∷ connecting target ∷ [];
}

unfoldable pub on_domain_lookup : Proxy → ErrorCode → List Endpoint → Proxy
on_domain_lookup p ec ips =
    if failed ec then error p 503 (codes "Resource Temporarily Unavailable") else elim ips [
      | [] ↦ error p 503 (codes "Resource Temporarily Unavailable")
      | ip ∷ rest ↦ open_forward_connection p ip
    ]

unfoldable pub on_connected : Proxy → ErrorCode → Proxy
on_connected p ec =
    if failed ec
    then error (emit (record p { server_open = false }) closed_server) 503
        (codes "Service Temporarily Unavailable")
    else emit (write_server_send_buffer p) reading_server

unfoldable pub on_server_write : Proxy → ErrorCode → ℕ → Proxy
on_server_write p ec n =
    let q = record p { writing_to_server = false } in
    if failed ec
    then close_connection q
    else if ltb 0 (length (drop n p.server_out))
    then write_server_send_buffer (record q { server_out = drop n p.server_out })
    else record q { server_out = drop n p.server_out }

unfoldable pub on_server_receive : Proxy → ErrorCode → Text → Proxy
on_server_receive p ec bytes =
    if failed ec then close_connection p else emit p (writing_client bytes)

unfoldable pub on_server_forward : Proxy → ErrorCode → Proxy
on_server_forward p ec = if failed ec then close_connection p else emit p reading_server

unfoldable pub stop : Proxy → Proxy
stop p = emit (record p { stopping = true }) closed_listener

-- The order of `std::map<std::string, std::string>`.
unfoldable pub text_less : Text → Text → Bool
text_less s [] = false
text_less [] (y ∷ ys) = true
text_less (x ∷ xs) (y ∷ ys) = let rest = text_less xs ys in ltb x y || x == y && rest

unfoldable pub insert_header : Text × Text → List (Text × Text) → List (Text × Text)
insert_header h [] = h ∷ []
insert_header (n, v) ((m, w) ∷ hs) =
    let rest = insert_header (n, v) hs in
    if text_less n m then (n, v) ∷ (m, w) ∷ hs else (m, w) ∷ rest

unfoldable pub in_order : List (Text × Text) → List (Text × Text)
in_order [] = []
in_order (h ∷ hs) = insert_header h (in_order hs)

-- The loop over the headers.
unfoldable pub header_lines : List (Text × Text) → Text
header_lines [] = []
header_lines ((n, v) ∷ hs) = n ++ (codes ": " ++ (v ++ (crlf ++ header_lines hs)))

unfoldable pub found_host : List (Text × Text) → Bool
found_host [] = false
found_host ((n, v) ∷ hs) = text_eq n (codes "host") || found_host hs

-- `out_request`
unfoldable pub out_request : HttpRequest → Text
out_request req =
    let t = target_of req.req in
    req.method
    ++ (32
        ∷ (t.path
            ++ (codes " HTTP/1.1"
                ++ (crlf
                    ++ (header_lines (in_order req.headers)
                        ++ ((if found_host req.headers
                              then []
                              else codes "host: " ++ (t.host ++ crlf))
                            ++ crlf))))))

-- What forward_request comes to: an exception, a failed assertion, or the proxy behind it.
pub data Forward : Type 0 where
  thrown undefined : Forward
  forwarded : Proxy → Forward

module _ (make_address : Text → Option Address) where
  -- The end of forward_request, with the request in the buffer.
  unfoldable pub pass_on : Proxy → Text → ℕ → Proxy
  pass_on p host port =
      if p.server_open then write_server_send_buffer p else elim (make_address host) [
        | none ↦ emit p (resolving host (to_string port))
        | some a ↦ open_forward_connection p (record { address = a; port = port })
      ]

  unfoldable pub forward_request : Proxy → HttpRequest → Forward
  forward_request p req =
      let t = target_of req.req in
      let out = p.server_out ++ out_request req in
      if not (starts_with (codes "http://") req.req) then thrown else elim t.port [
        | none ↦ undefined
        | some port ↦
            if ltb buffer_size (length out)
            then thrown
            else forwarded (pass_on (record p { server_out = out }) t.host port)
      ]

  -- The loop over the requests in the buffer. Each request is four characters long at least, so that the
  -- length of the buffer is fuel enough. none is a failed assertion.
  unfoldable pub forward_requests : ℕ → Proxy → Option Proxy
  forward_requests zero p = none
  forward_requests (suc fuel) p = elim (find_request_len p.client_in) [
    | none ↦ some (emit p (reading_client (buffer_size - length p.client_in)))
    | some n ↦ elim (parse_request (take n p.client_in)) [
      | none ↦ some (close_connection p)
      | some req ↦ elim (forward_request p req) [
        | thrown ↦ some (close_connection p)
        | undefined ↦ none
        | forwarded q ↦ forward_requests fuel (record q { client_in = drop n q.client_in })
      ]
    ]
  ]

  unfoldable pub on_read_request : Proxy → ErrorCode → Text → Option Proxy
  on_read_request p ec bytes =
      let q = record p { client_in = p.client_in ++ bytes } in
      if failed ec then some (close_connection p) else forward_requests (suc (length q.client_in)) q
