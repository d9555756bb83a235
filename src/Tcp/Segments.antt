-- ===== src/Tcp/Segments.antt =====
-- What a write sends: the bytes of the buffers in order, cut into segments.
use libsimulator.Base.Errors.{
  failed, bad_descriptor, not_connected, ErrorCode, no_error, would_block,
}
use libsimulator.Base.{
  ℕ, ◌≡◌, ◌<◌, ◌⊎◌, inl, inr, refl, sym, subst, Bool, true, List, [], ◌∷◌, ◌++◌, not, arith,
  if◌then◌else◌, length, option_rule, if_rule, All, is_some,
}
use libsimulator.Net.Packet.{Packet}
use libsimulator.Net.Hops.{Route}
use libsimulator.Tcp.{Effect, State, remote_hops}
use libsimulator.Tcp.Write.{
  finished, write_some_impl, write_some_on, Written, window_full, send_buffers,
}
use libsimulator.Tcp.Runs.{Run, content}
use libsimulator.Tcp.Cuts.{IsSegment, Cuts, buffers-Cuts}
use libsimulator.Tcp.Sends.{payloads, concat}

module _ (drops : List Effect → Packet → Bool) where
  -- Nothing was sent, or the buffers from the front on, up to their end or to a full window.
  pub data Wrote (s : State) (bytes : List ℕ) : State × ErrorCode × ℕ → Type 0 where
    refused : (ec : ErrorCode) → failed ec ≡ true → Wrote s bytes (s, ec, 0)
    wrote :
        (s' : State) (ret : ℕ) (pieces : List Packet) (rest : List ℕ)
        → payloads s'.log ≡ payloads s.log ++ pieces
        → bytes ≡ content pieces ++ rest
        → ret ≡ length (content pieces)
        → Run s.socket.next_outgoing_seq pieces s'.socket.next_outgoing_seq
        → All (IsSegment s.socket.mss) pieces
        → (rest ≡ []) ⊎ (window_full s' ≡ true)
        → Wrote s bytes (s', no_error, ret)

  finished-Wrote :
      (s : State) (bytes : List ℕ) (w : Written) (c : Cuts drops s bytes 0 w)
      → Wrote s bytes (finished w)
  finished-Wrote s bytes w c =
      option_rule (Wrote s bytes) w.stop
        (λ e.
          wrote w.state w.ret c.pieces c.rest c.sends.log c.in_order (omega (arith, c.counted))
            c.sends.run c.small (inl (c.all e)))
        (λ ec e.
          subst (λ x. Wrote s bytes (w.state, x, w.ret)) (sym (c.stopped ec e).0)
            (wrote w.state w.ret c.pieces c.rest c.sends.log c.in_order (omega (arith, c.counted))
              c.sends.run c.small (inr (c.stopped ec e).1)))

  write_on-Wrote :
      (c : ℕ) (s : State) (bufs : List (List ℕ))
      → 0 < s.socket.mss
      → Wrote s (concat bufs) (write_some_on drops c s bufs)
  unfolding write_some_on
  write_on-Wrote c s bufs m =
      if_rule (Wrote s (concat bufs)) (is_some s.socket.connect_handler)
        (λ _. refused would_block refl)
        (λ _. by_hops (remote_hops (s.channels c) s.socket.bound_to))
    where
      by_hops :
          (hops : Route)
          → Wrote s (concat bufs) (elim hops [
            | [] ↦ (s, not_connected, 0)
            | h ∷ hs ↦
                if window_full s
                then (s, would_block, 0)
                else finished (send_buffers drops c s (h ∷ hs) bufs 0)
          ])
      by_hops [] = refused not_connected refl
      by_hops (h ∷ hs) =
          if_rule (Wrote s (concat bufs)) (window_full s) (λ _. refused would_block refl)
            (λ _.
              finished-Wrote s (concat bufs) (send_buffers drops c s (h ∷ hs) bufs 0)
                (buffers-Cuts drops c s (h ∷ hs) bufs 0 m))

  -- A write with an mss above 0 either sends nothing, changes nothing and reports an error; or it
  -- reports none, and what it puts on the network, whichever packets are dropped there at once, are
  -- segments of 1 to mss bytes with consecutive numbers that carry together exactly the bytes that it
  -- reports, from the front of the buffers on. It stops short of their end only when the congestion window
  -- is full.
  pub write_some_impl-Wrote :
      (s : State) (bufs : List (List ℕ))
      → 0 < s.socket.mss
      → Wrote s (concat bufs) (write_some_impl drops s bufs)
  unfolding write_some_impl
  write_some_impl-Wrote s bufs m =
      if_rule (Wrote s (concat bufs)) (not s.socket.is_open) (λ _. refused bad_descriptor refl)
        (λ _.
          option_rule (Wrote s (concat bufs)) s.socket.channel (λ _. refused not_connected refl)
            (λ c _. write_on-Wrote c s bufs m))
