-- ===== src/Http/Server.antt =====
-- The class http_server: what its handlers do to the connection. The registered handlers are the
-- user's: functions of the method, the target and the headers, in the order of registration. The receive
-- buffer is its first m_bytes_used bytes.
use libsimulator.Base.Errors.{ErrorCode, failed}
use libsimulator.Base.{
  ◌+◌, Bool, true, false, not, ◌||◌, List, [], ◌∷◌, ◌++◌, Option, none, some, if◌then◌else◌, take,
  drop,
}
use libsimulator.Http.{Text, crlf, find, text_eq, lower_case, send_response}
use libsimulator.Http.Request.{HttpRequest, find_request_len, parse_request, get_header}

abbrev pub Headers : Type 0
Headers = List (Text × Text)

-- An exception that a handler throws is none.
abbrev pub Handler : Type 0
Handler = Text → Text → Headers → Option Text

pub record Server : Type 0 where
  pub recv_buffer : Text
  pub handlers : List (Text × Handler)
  pub stall_handlers : List Text
  pub http_1_0 : Bool
  pub keep_alive : Bool
  -- m_close: the server was stopped
  pub stopping : Bool

-- What is done on the connection.
pub data Action : Type 0 where
  -- async_read_some
  reads : Action
  -- nothing: the request stalls
  stalls : Action
  -- async_write of a response, and whether the connection is closed after it
  writes : Text → Bool → Action
  -- on_read is posted with no further bytes
  looks_again : Action
  -- the connection is closed, and whether another one is accepted
  closes : Bool → Action

unfoldable pub handler_of : Text → List (Text × Handler) → Option Handler
handler_of path [] = none
handler_of path ((p, h) ∷ hs) = if text_eq p path then some h else handler_of path hs

unfoldable pub stalled : Text → List Text → Bool
stalled path [] = false
stalled path (p ∷ ps) = text_eq p path || stalled path ps

unfoldable pub close_connection : Server → Server × Action
close_connection s = (record s { recv_buffer = [] }, closes (not s.stopping))

-- "HTTP/1.1" and "HTTP/1.0"
abbrev version_1_1 : Text
version_1_1 = 72 ∷ 84 ∷ 84 ∷ 80 ∷ 47 ∷ 49 ∷ 46 ∷ 49 ∷ []

abbrev version_1_0 : Text
version_1_0 = 72 ∷ 84 ∷ 84 ∷ 80 ∷ 47 ∷ 49 ∷ 46 ∷ 48 ∷ []

unfoldable pub downgrade : Text → Text
downgrade response = elim (find version_1_1 response) [
  | none ↦ response
  | some i ↦ take i response ++ (version_1_0 ++ drop (i + 8) response)
]

-- "close" and "connection"
abbrev close_text : Text
close_text = 99 ∷ 108 ∷ 111 ∷ 115 ∷ 101 ∷ []

abbrev connection_text : Text
connection_text = 99 ∷ 111 ∷ 110 ∷ 110 ∷ 101 ∷ 99 ∷ 116 ∷ 105 ∷ 111 ∷ 110 ∷ []

-- "Connection: close\r\n"
abbrev connection_close : Text
connection_close =
    67 ∷ 111 ∷ 110 ∷ 110 ∷ 101 ∷ 99 ∷ 116 ∷ 105 ∷ 111 ∷ 110 ∷ 58 ∷ 32 ∷ (close_text ++ crlf)

unfoldable pub announce_close : Text → Text
announce_close response = elim (find crlf response) [
  | none ↦ response
  | some i ↦ take (i + 2) response ++ (connection_close ++ drop (i + 2) response)
]

unfoldable pub asks_close : Headers → Bool
asks_close headers = elim (get_header connection_text headers) [
  | none ↦ false
  | some v ↦ text_eq (lower_case v) close_text
]

-- The decision about the connection, and the write.
unfoldable pub respond : Server → HttpRequest → Text → Action
respond s req response =
    if s.http_1_0
    then writes (downgrade response) true
    else if asks_close req.headers || not s.keep_alive
    then writes (announce_close response) true
    else writes response false

-- "Not Found"
abbrev not_found : Text
not_found = 78 ∷ 111 ∷ 116 ∷ 32 ∷ 70 ∷ 111 ∷ 117 ∷ 110 ∷ 100 ∷ []

unfoldable pub serve : Server → HttpRequest → Option Action
serve s req = elim (handler_of req.path s.handlers) [
  | none ↦
      if stalled req.path s.stall_handlers
      then some stalls
      else some (respond s req (send_response 404 not_found 0 []))
  | some h ↦ elim (h req.method req.req req.headers) [
    | none ↦ none
    | some response ↦ some (respond s req response)
  ]
]

-- `catch (std::exception& e)`
abbrev pub settle : Server → Option Action → Server × Action
settle s none = close_connection s
settle s (some a) = (s, a)

-- on_read behind the arrival of the bytes.
unfoldable pub process : Server → Server × Action
process s = elim (find_request_len s.recv_buffer) [
  | none ↦ (s, reads)
  | some n ↦ elim (parse_request (take n s.recv_buffer)) [
    | none ↦ close_connection s
    | some req ↦ settle (record s { recv_buffer = drop n s.recv_buffer }) (serve s req)
  ]
]

unfoldable pub on_read : Server → ErrorCode → Text → Server × Action
on_read s ec bytes =
    if failed ec
    then close_connection s
    else process (record s { recv_buffer = s.recv_buffer ++ bytes })

unfoldable pub on_write : Server → ErrorCode → Bool → Server × Action
on_write s ec close =
    if failed ec then close_connection s else if close then close_connection s else (s, looks_again)

-- "Location: " and "Moved Permanently"
abbrev location : Text
location = 76 ∷ 111 ∷ 99 ∷ 97 ∷ 116 ∷ 105 ∷ 111 ∷ 110 ∷ 58 ∷ 32 ∷ []

abbrev moved_permanently : Text
moved_permanently =
    77 ∷ 111 ∷ 118 ∷ 101 ∷ 100 ∷ 32 ∷ 80 ∷ 101 ∷ 114 ∷ 109 ∷ 97 ∷ 110 ∷ 101 ∷ 110 ∷ 116 ∷ 108 ∷ 121
    ∷ []

unfoldable pub redirect_handler : Text → Handler
redirect_handler target method req headers =
    some (send_response 301 moved_permanently 0 (location ++ (target ++ crlf)))
