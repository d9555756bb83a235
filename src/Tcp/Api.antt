-- ===== src/Tcp/Api.antt =====
-- The calls of a TCP socket and the packets that reach it, as data, and runs of them.
use libsimulator.Base.{ℕ, Bool, List, [], ◌∷◌, Option, none, some}
use libsimulator.Net.Packet.{Packet}
use libsimulator.Net.Address.{Endpoint}
use libsimulator.Network.{Config, End}
use libsimulator.Tcp.{Effect, State, packet_dropped}
use libsimulator.Tcp.Write.{
  abort_send_handlers, write_some_impl, async_write_some_impl, async_wait_write_impl,
}
use libsimulator.Tcp.Input.{
  read_some_impl, async_read_some_impl, async_wait_read_impl, incoming_packet,
}
use libsimulator.Tcp.Cancel.{abort_recv_handlers, cancel}
use libsimulator.Tcp.Connect.{Host, bind, close_host, open_host, attach, async_connect, moved}

-- The functions of the header: a handler of the kind that waits is aborted first.
unfoldable pub async_read_some : State → List ℕ → ℕ → State
async_read_some s bufs handler = async_read_some_impl (abort_recv_handlers s) bufs handler

unfoldable pub async_wait_read : State → ℕ → State
async_wait_read s handler = async_wait_read_impl (abort_recv_handlers s) handler

unfoldable pub async_write_some : (List Effect → Packet → Bool) → State → List (List ℕ) → ℕ → State
async_write_some drops s bufs handler =
    async_write_some_impl drops (abort_send_handlers s) bufs handler

unfoldable pub async_wait_write : (List Effect → Packet → Bool) → State → ℕ → State
async_wait_write drops s handler = async_wait_write_impl drops (abort_send_handlers s) handler

pub data Call : Type 0 where
  writes : List (List ℕ) → Call
  async_writes : List (List ℕ) → ℕ → Call
  waits_write : ℕ → Call
  reads : List ℕ → Call
  async_reads : List ℕ → ℕ → Call
  waits_read : ℕ → Call
  incoming dropped : Packet → Call
  cancels closes : Call
  opens : ℕ → Bool → Call
  binds : Endpoint → Call
  connects : ℕ → Endpoint → ℕ → ℕ → ℕ × ℕ → Call
  attaches : ℕ → Endpoint → ℕ → Call
  moves : ℕ → Call

abbrev pub with_state : Host → State → Host
with_state h s = record h { state = s }

abbrev pub on_state : Host → Option State → Option Host
on_state h o = elim o [ none ↦ none | some s ↦ some (with_state h s) ]

module _ (drops : List Effect → Packet → Bool) (config : Config) (ends : ℕ → End) where
  unfoldable pub apply : Call → Host → Option Host
  apply (writes bufs) h = some (with_state h (write_some_impl drops h.state bufs).0)
  apply (async_writes bufs n) h = some (with_state h (async_write_some drops h.state bufs n))
  apply (waits_write n) h = some (with_state h (async_wait_write drops h.state n))
  apply (reads bufs) h = some (with_state h (read_some_impl h.state bufs).0)
  apply (async_reads bufs n) h = some (with_state h (async_read_some h.state bufs n))
  apply (waits_read n) h = some (with_state h (async_wait_read h.state n))
  apply (incoming p) h = on_state h (incoming_packet drops h.state p)
  apply (dropped p) h = on_state h (packet_dropped h.state p)
  apply cancels h = some (with_state h (cancel h.state))
  apply closes h = some (close_host drops h)
  apply (opens f v4) h = some (open_host drops h f v4)
  apply (binds ep) h = some (bind h ep).0
  apply (connects f target n id garbage) h = async_connect drops config ends h f target n id garbage
  apply (attaches f ep c) h = attach drops h f ep c
  apply (moves this) h = elim (moved h this) [ none ↦ none | some r ↦ some r.0 ]

  -- The calls one after the other; none is a call whose outcome is undefined.
  unfoldable pub apply_all : List Call → Host → Option Host
  apply_all [] h = some h
  apply_all (c ∷ cs) h = elim (apply c h) [ none ↦ none | some h' ↦ apply_all cs h' ]
