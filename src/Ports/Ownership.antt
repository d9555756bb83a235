-- ===== src/Ports/Ownership.antt =====
-- Binding as the sockets see it: who owns an endpoint after bind, unbind and rebind.
use libsimulator.Base.Errors.{ErrorCode, no_error}
use libsimulator.Base.{
  ℕ, ◌≤◌, none, ◌≡◌, ◌≢◌, refl, false, ◌∷◌, some, inl, inr, arith, is_some, ◌∙◌,
}
use libsimulator.Net.Address.{Endpoint, endpoint_eq_iff, endpoint_eq_self}
use libsimulator.Ports.{
  Table, Sockets, Bound, find, bind_in, enter, bind_socket, bind_udp_socket, unbind_in,
  unbind_socket, rebind_socket,
}
use libsimulator.Ports.Table.{find-unbind_in, find-assign}
use libsimulator.Ports.Binding.{Entered, Assigns, InRange, bind_in-Entered, bind_in-Assigns}

-- What a bind returned and left of one of the two tables.
abbrev pub listen_bound : Sockets × Endpoint × ErrorCode → Bound
listen_bound r = record {
  table = r.0.listen_sockets;
  next = r.0.next_bind_port;
  endpoint = r.1;
  ec = r.2;
}

abbrev pub udp_bound : Sockets × Endpoint × ErrorCode → Bound
udp_bound r = record {
  table = r.0.udp_sockets;
  next = r.0.next_bind_port;
  endpoint = r.1;
  ec = r.2;
}

-- `bind_socket`, with the next port in [2000, 65534]. Either it reports no error and enters the
-- endpoint that it returns, which was free, for the socket; or it reports an error, returns the
-- empty endpoint and leaves the table. A privileged port is refused with access_denied; another port
-- that is given is taken as it is, and refused with address_in_use only if it was bound; for port 0
-- it takes the first free port of the address from the next port on, and reports address_in_use only
-- if all ports from there to 65530 are bound. The next port stays in its range, and the UDP
-- table is left alone.
pub bind_socket-Assigns :
    (s : Sockets) (socket : ℕ) (ep : Endpoint)
    → InRange s.next_bind_port
    → let r = bind_socket s socket ep in
      Entered s.listen_sockets socket (listen_bound r)
      × Assigns s.listen_sockets s.next_bind_port ep (listen_bound r)
      × (r.0.udp_sockets ≡ s.udp_sockets)
unfolding bind_socket
bind_socket-Assigns s socket ep r = (
  bind_in-Entered s.listen_sockets s.next_bind_port socket ep,
  bind_in-Assigns s.listen_sockets s.next_bind_port socket ep r,
  refl,
)

-- `bind_udp_socket` with the next port in [2000, 65534] does on the UDP table what `bind_socket` does
-- on its own: an endpoint that it returns without an error was free and is entered, an error
-- leaves the table, the port is the one given or the first free one from the next port on, with
-- access_denied and address_in_use in the same cases; the other table is left alone.
pub bind_udp_socket-Assigns :
    (s : Sockets) (socket : ℕ) (ep : Endpoint)
    → InRange s.next_bind_port
    → let r = bind_udp_socket s socket ep in
      Entered s.udp_sockets socket (udp_bound r)
      × Assigns s.udp_sockets s.next_bind_port ep (udp_bound r)
      × (r.0.listen_sockets ≡ s.listen_sockets)
unfolding bind_udp_socket
bind_udp_socket-Assigns s socket ep r = (
  bind_in-Entered s.udp_sockets s.next_bind_port socket ep,
  bind_in-Assigns s.udp_sockets s.next_bind_port socket ep r,
  refl,
)

find-entered :
    (t : Table) (socket : ℕ) (ep e : Endpoint)
    → is_some (find ep t) ≡ false
    → find e (unbind_in ((ep, socket) ∷ t) socket ep) ≡ find e t
unfolding find
find-entered t socket ep e free =
    find-unbind_in ((ep, socket) ∷ t) socket ep e
    ∙ ground (arith, endpoint_eq_iff ep e, endpoint_eq_self ep)

find-bind_in :
    (t : Table) (socket : ℕ) (e : Endpoint) (b : Bound)
    → Entered t socket b
    → b.ec ≡ no_error
    → find e (unbind_in b.table socket b.endpoint) ≡ find e t
find-bind_in t socket e b (inl (_, free, entered)) ok =
    rw entered (find-entered t socket b.endpoint e free)
find-bind_in t socket e b (inr (bad, none_given, left)) ok = ground arith

-- A socket that was bound with no error and is unbound by `unbind_socket` from the endpoint that it
-- was given leaves the table, as any lookup sees it, as it was.
pub unbind_socket-bind_socket :
    (s : Sockets) (socket : ℕ) (ep e : Endpoint)
    → (bind_socket s socket ep).2 ≡ no_error
    → find e
        (unbind_socket
          (bind_socket s socket ep).0
          socket
          (bind_socket s socket ep).1).listen_sockets
      ≡ find e s.listen_sockets
unfolding bind_socket unbind_socket
unbind_socket-bind_socket s socket ep e ok =
    find-bind_in s.listen_sockets socket e (bind_in s.listen_sockets s.next_bind_port socket ep)
      (bind_in-Entered s.listen_sockets s.next_bind_port socket ep) ok

-- When the entry of `prev` at an endpoint is handed to another socket, as a move of the socket does,
-- the endpoint names the new socket, and `prev` cannot unbind it.
pub unbind_socket-rebind_socket :
    (s : Sockets) (prev socket : ℕ) (ep e : Endpoint) (s' : Sockets)
    → find ep s.listen_sockets ≡ some prev
    → prev ≢ socket
    → rebind_socket s prev socket ep ≡ some s'
    → (find ep s'.listen_sockets ≡ some socket)
      × (find e (unbind_socket s' prev ep).listen_sockets ≡ find e s'.listen_sockets)
unfolding rebind_socket unbind_socket
unbind_socket-rebind_socket s prev socket ep e s' held ne moved = ground (
  arith,
  find-assign ep ep socket s.listen_sockets,
  endpoint_eq_self ep,
  find-unbind_in s'.listen_sockets prev ep e,
)

-- The tables with a listening socket more.
abbrev pub entered : Sockets → Endpoint → ℕ → Sockets
entered s ep socket = record s { listen_sockets = (ep, socket) ∷ s.listen_sockets }

-- A port that is free and not privileged is taken as it is given.
pub bind_socket_free :
    (s : Sockets) (socket : ℕ) (ep : Endpoint)
    → 1024 ≤ ep.port
    → find ep s.listen_sockets ≡ none
    → bind_socket s socket ep ≡ (entered s ep socket, ep, no_error)
unfolding bind_socket bind_in enter
bind_socket_free s socket ep h e = ground (arith, h, e)
