-- ===== src/Udp/Api/Once.antt =====
-- The receiving side of a UDP socket under any sequence of calls and packets.
use libsimulator.Base.{
  ℕ, ◌+◌, ◌≡◌, ◌≢◌, refl, List, [], ◌∷◌, Option, some, ◌==◌, if◌then◌else◌, arith,
}
use libsimulator.Net.Packet.{Packet}
use libsimulator.Udp.{State}
use libsimulator.Udp.Control.{abort_recv_handlers}
use libsimulator.Udp.Api.{Call, receives, async_receives, waits}
use libsimulator.Udp.Api.Handled.{total, IsReady, Handles, abort_recv_handlers-Aborted}

-- A call that brings so many of each handler does not fail.
record Handled (n : ℕ → ℕ) (s : State) (r : Option State) : Type 0 where
  after : State
  ok : r ≡ some after
  ready : IsReady after
  counted : (h : ℕ) → total h after ≡ total h s + n h

abbrev no_handler : ℕ → ℕ
no_handler h = 0

as_Handled :
    (n : ℕ → ℕ) (s t s' : State)
    → ((h : ℕ) → total h t ≡ total h s)
    → ((h : ℕ) → Handles h (n h) t s')
    → Handled n s (some s')
as_Handled n s t s' same all = record {
  after = s';
  ok = refl;
  ready = (all 0).ready;
  counted = λ h. omega (arith, (all h).counted, same h);
}

aborted :
    (s : State)
    → (n : ℕ → ℕ) (s' : State) → ((h : ℕ) → Handles h (n h) (abort_recv_handlers s) s')
    → Handled n s (some s')
aborted s n s' all =
    as_Handled n s (abort_recv_handlers s) s' (λ h. (abort_recv_handlers-Aborted h s).counted) all

-- The reads have a buffer, as their assertion asks.
abbrev pub HasBuffer : Call → Type 0
HasBuffer (receives bufs) = bufs ≢ []
HasBuffer (async_receives bufs handler) = bufs ≢ []
HasBuffer _ = Unit {0}

abbrev pub brings : Call → ℕ → ℕ
brings (async_receives bufs handler) h = if handler == h then 1 else 0
brings (waits handler) h = if handler == h then 1 else 0
brings _ h = 0

abbrev pub brought : List Call → ℕ → ℕ
brought [] h = 0
brought (c ∷ cs) h = brings c h + brought cs h
