-- ===== src/Proxy/Forwarding.antt =====
-- What the proxy passes on to the server.
use libsimulator.Base.{
  ℕ, ◌≡◌, ◌≤◌, ◌<◌, true, false, [], ◌++◌, Option, none, some, length, take, drop, ◌⊎◌,
}
use libsimulator.Net.Address.{Address}
use libsimulator.Http.{Text, starts_with}
use libsimulator.Http.Request.{HttpRequest, find_request_len, parse_request}
use libsimulator.Proxy.Url.{codes, target_of}
use libsimulator.Proxy.{Proxy, Forward, thrown, undefined, forwarded, buffer_size, out_request}

-- Requests at the front of a text, written anew one behind the other, and the text behind them.
pub data Rewrites : Text → Text → Text → Type 0 where
  none_yet : {buf : Text} → Rewrites buf buf []
  request :
      {buf left out : Text} (n : ℕ) (req : HttpRequest)
      → find_request_len buf ≡ some n
      → parse_request (take n buf) ≡ some req
      → starts_with (codes "http://") req.req ≡ true
      → Rewrites (drop n buf) left out
      → Rewrites buf left (out_request req ++ out)

-- What is wrong with a request: its URL, or that it does not fit behind the text for the server.
abbrev pub Unfit : Text → HttpRequest → Type 0
Unfit sent req =
    (starts_with (codes "http://") req.req ≡ false)
    ⊎ (buffer_size < length (sent ++ out_request req))

-- The text starts with a request that cannot be parsed or is wrong.
pub data Refused (sent left : Text) : Type 0 where
  malformed :
      (n : ℕ)
      → find_request_len left ≡ some n
      → parse_request (take n left) ≡ none
      → Refused sent left
  unfit :
      (n : ℕ) (req : HttpRequest)
      → find_request_len left ≡ some n
      → parse_request (take n left) ≡ some req
      → Unfit sent req
      → Refused sent left

-- What becomes of the proxy, behind some requests that it takes: a failed assertion on the port of the next
-- one, the end of the connection for the next one, or the requests in the buffer of the server.
pub data Passed (p : Proxy) : Option Proxy → Type 0 where
  bad_port :
      (left out : Text) (n : ℕ) (req : HttpRequest)
      → Rewrites p.client_in left out
      → find_request_len left ≡ some n
      → parse_request (take n left) ≡ some req
      → (target_of req.req).port ≡ none
      → Passed p none
  closed :
      (q : Proxy) (left out : Text)
      → Rewrites p.client_in left out
      → Refused (p.server_out ++ out) left
      → q.client_in ≡ []
      → q.server_out ≡ []
      → q.server_open ≡ false
      → Passed p (some q)
  passed :
      (q : Proxy) (out : Text)
      → Rewrites p.client_in q.client_in out
      → find_request_len q.client_in ≡ none
      → q.server_out ≡ p.server_out ++ out
      → length q.server_out ≤ buffer_size
      → Passed p (some q)

module _ (make_address : Text → Option Address) where
  -- What one request comes to.
  data Sent (p : Proxy) (req : HttpRequest) : Forward → Type 0 where
    throws : Unfit p.server_out req → Sent p req thrown
    asserts : (target_of req.req).port ≡ none → Sent p req undefined
    sends :
        (q : Proxy)
        → starts_with (codes "http://") req.req ≡ true
        → q.client_in ≡ p.client_in
        → q.server_out ≡ p.server_out ++ out_request req
        → length q.server_out ≤ buffer_size
        → Sent p req (forwarded q)
