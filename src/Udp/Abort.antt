-- ===== src/Udp/Abort.antt =====
-- What the end of pending calls does to a writer that waits.
use libsimulator.Base.Errors.{no_error, operation_aborted}
use libsimulator.Base.{ℕ, ◌≡◌, refl, [], ◌∷◌, ◌++◌, none, some, arith}
use libsimulator.Udp.{State, calls_wait_send}
use libsimulator.Udp.Control.{abort_send_handlers, abort_recv_handlers, cancel_recv_timer, called}

-- When only a handler waits for the socket to be writable, aborting the calls that send posts a call of the member
-- that holds it and then clears the member: the call that was posted runs a null handler.
pub abort_send_handlers_null :
    (s : State) (h : ℕ)
    → s.0.send_handler ≡ none
    → s.0.wait_send_handler ≡ some h
    → ((abort_send_handlers s).1 ≡ s.1 ++ calls_wait_send operation_aborted ∷ [])
      × (called (abort_send_handlers s) (calls_wait_send operation_aborted) ≡ none)
unfolding abort_send_handlers called
abort_send_handlers_null s h n w = (ground (arith, n, w), refl)

-- When a handler waits for the socket to be writable and none for a datagram, aborting the calls that receive ends
-- that wait too: a call of the handler is posted without an error, as if the socket were writable.
pub abort_recv_handlers_early :
    (s : State) (h t : ℕ)
    → s.0.recv_handler ≡ none
    → s.0.wait_recv_handler ≡ none
    → s.0.wait_send_handler ≡ some h
    → s.0.recv_timer ≡ some t
    → let r = abort_recv_handlers s in
      (r.1 ≡ s.1 ++ calls_wait_send no_error ∷ [])
      × (called r (calls_wait_send no_error) ≡ some (h, no_error))
unfolding abort_recv_handlers cancel_recv_timer called
abort_recv_handlers_early s h t a b w e = (ground (arith, a, b, w, e), ground (arith, a, b, w, e))
