-- ===== src/Udp/Api/Handled.antt =====
-- Every handler of a receive or a wait is completed once, and none is called that is not there.
use libsimulator.Base.Errors.{
  ErrorCode, no_error, operation_aborted, would_block, bad_descriptor, invalid_argument,
  is_would_block,
}
use libsimulator.Base.{
  ℕ, ◌+◌, ◌-◌, ◌≡◌, ◌≢◌, refl, ◌∙◌, true, false, not, List, [], ◌∷◌, ◌++◌, Option, none, some, ◌==◌,
  if◌then◌else◌, arith, if_rule, length,
}
use libsimulator.Net.Packet.{Packet}
use libsimulator.Net.Address.{endpoint_eq, no_endpoint}
use libsimulator.Udp.{
  Socket, State, Effect, received, notified, calls_wait_send, Received, fails, gets, emit,
  receive_open, completed, async_wait_receive_impl, copy_out,
}
use libsimulator.Udp.Control.{post_if, cancel_recv_timer, abort_recv_handlers}

-- How often a handler was completed, and whether it waits.
abbrev pub done_by : ℕ → Effect → ℕ
done_by h (received k ec from bytes) = if k == h then 1 else 0
done_by h (notified k ec) = if k == h then 1 else 0
done_by h _ = 0

unfoldable pub done : ℕ → List Effect → ℕ
done h [] = 0
done h (e ∷ es) = done_by h e + done h es

abbrev pub holds : ℕ → Option ℕ → ℕ
holds h none = 0
holds h (some k) = if k == h then 1 else 0

abbrev pub total : ℕ → State → ℕ
total h s = done h s.1 + holds h s.0.recv_handler + holds h s.0.wait_recv_handler

done-append : (h : ℕ) (xs ys : List Effect) → done h (xs ++ ys) ≡ done h xs + done h ys
unfolding done
done-append h [] ys = omega arith
done-append h (x ∷ xs) ys = omega (arith, done-append h xs ys)

pub done_snoc :
    (h : ℕ) (xs : List Effect) (e : Effect) → done h (xs ++ e ∷ []) ≡ done h xs + done_by h e
unfolding done
done_snoc h xs e = omega (arith, done-append h xs (e ∷ []))

-- The kind of handler that waits is the one that a wake-up looks for, and a read that waits has a buffer.
pub record IsReady (s : State) : Type 0 where
  pub reading : s.0.recv_null_buffers ≡ true → s.0.recv_handler ≡ none
  pub waiting : s.0.recv_null_buffers ≡ false → s.0.wait_recv_handler ≡ none
  pub buffered : s.0.recv_buffer ≡ [] → s.0.recv_handler ≡ none

-- What a call leaves when it brings so many handlers.
pub record Handles (h n : ℕ) (s s' : State) : Type 0 where
  pub ready : IsReady s'
  pub counted : total h s' ≡ total h s + n

-- No handler waits.
pub record IsIdle (s : State) : Type 0 where
  pub no_read : s.0.recv_handler ≡ none
  pub no_wait : s.0.wait_recv_handler ≡ none

pub record Aborted (h : ℕ) (s s' : State) : Type 0 where
  pub idle : IsIdle s'
  pub counted : total h s' ≡ total h s

pub cancel_recv_timer-done :
    (h : ℕ) (s : State)
    → (done h (cancel_recv_timer s).1 ≡ done h s.1)
      × ((cancel_recv_timer s).0.recv_handler ≡ s.0.recv_handler)
      × ((cancel_recv_timer s).0.wait_recv_handler ≡ s.0.wait_recv_handler)
unfolding cancel_recv_timer
cancel_recv_timer-done h s = ground (arith, done_snoc h s.1 (calls_wait_send no_error))

pub abort_recv_handlers-Aborted : (h : ℕ) (s : State) → Aborted h s (abort_recv_handlers s)
unfolding abort_recv_handlers
abort_recv_handlers-Aborted h s = record {
  idle = record { no_read = refl; no_wait = refl };
  counted = by_handlers s.0.recv_handler s.0.wait_recv_handler;
}
  where
    by_handlers :
        (r w : Option ℕ)
        → (let s1 = post_if s r (λ k. received k operation_aborted none []) in
            let s2 = post_if s1 w (λ k. notified k operation_aborted) in
            done h (cancel_recv_timer s2).1 + 0 + 0)
          ≡ done h s.1 + holds h r + holds h w
    by_handlers none none = omega (arith, (cancel_recv_timer-done h s).0)
    by_handlers (some k) none =
        let e = received k operation_aborted none [] in
        omega (arith, (cancel_recv_timer-done h (emit s e)).0, done_snoc h s.1 e)
    by_handlers none (some k) =
        let e = notified k operation_aborted in
        omega (arith, (cancel_recv_timer-done h (emit s e)).0, done_snoc h s.1 e)
    by_handlers (some k) (some l) =
        let e = received k operation_aborted none [] in
        let f = notified l operation_aborted in
        omega (
          arith,
          (cancel_recv_timer-done h (emit (emit s e) f)).0,
          done_snoc h s.1 e,
          done_snoc h (s.1 ++ e ∷ []) f,
        )

-- Where a call takes effect: the error codes never make a receive wait, but that of an empty queue.
completed-Handles :
    (h handler : ℕ) (bufs : List ℕ) (s : State) (k : Socket) (r : Received)
    → IsIdle s
    → k.wait_recv_handler ≡ none
    → bufs ≢ []
    → Handles h (holds h (some handler)) s (completed s handler bufs (k, r))
unfolding completed
completed-Handles h handler bufs s k (gets from bytes) i w b = record {
  ready = record { reading = λ _. refl; waiting = λ _. w; buffered = λ _. refl };
  counted = ground (
    arith,
    done_snoc h s.1 (received handler no_error (some from) bytes),
    i.no_read,
    i.no_wait,
    w,
  );
}
completed-Handles h handler bufs s k (fails ec) i w b =
    if_rule (λ (s' : State). Handles h (holds h (some handler)) s s') (is_would_block ec)
      (λ _. record {
        ready = record { reading = λ e. cc; waiting = λ _. w; buffered = λ e. absurd (b e) };
        counted = ground (arith, i.no_read, i.no_wait, w);
      })
      (λ _. record {
        ready = record { reading = λ _. refl; waiting = λ _. w; buffered = λ _. refl };
        counted =
            ground (arith, done_snoc h s.1 (received handler ec none []), i.no_read, i.no_wait, w);
      })

pub receive_open-kept :
    (k : Socket) (bufs : List ℕ)
    → ((receive_open k bufs).0.recv_handler ≡ k.recv_handler)
      × ((receive_open k bufs).0.wait_recv_handler ≡ k.wait_recv_handler)
unfolding receive_open
receive_open-kept k bufs =
    if_rule P (not k.is_open) (λ _. (refl, refl))
      (λ _.
        if_rule P (endpoint_eq k.bound_to no_endpoint) (λ _. (refl, refl))
          (λ _. by_queue k.incoming_queue))
  where
    P : Socket × Received → Type 0
    P r = (r.0.recv_handler ≡ k.recv_handler) × (r.0.wait_recv_handler ≡ k.wait_recv_handler)

    by_queue :
        (q : List Packet)
        → P (elim q [
          | [] ↦ (k, fails would_block)
          | p ∷ ps ↦
              let r = copy_out bufs p.buffer in
              (
                record k { incoming_queue = ps; queue_size = k.queue_size - length r.0 },
                gets p.from r.0,
              )
        ])
    by_queue [] = (refl, refl)
    by_queue (p ∷ ps) = (refl, refl)

pub receive_open-Handles :
    (h handler : ℕ) (bufs : List ℕ) (s : State)
    → bufs ≢ []
    → IsIdle s
    → Handles h (holds h (some handler)) s (completed s handler bufs (receive_open s.0 bufs))
receive_open-Handles h handler bufs s b i =
    let r = receive_open s.0 bufs in
    completed-Handles h handler bufs s r.0 r.1 i ((receive_open-kept s.0 bufs).1 ∙ i.no_wait) b

pub async_wait_receive_impl-Handles :
    (h handler : ℕ) (s : State)
    → IsIdle s
    → Handles h (holds h (some handler)) s (async_wait_receive_impl s handler)
unfolding async_wait_receive_impl
async_wait_receive_impl-Handles h handler s i =
    if_rule P (not s.0.is_open) (λ _. posted bad_descriptor)
      (λ _.
        if_rule P (endpoint_eq s.0.bound_to no_endpoint) (λ _. posted invalid_argument)
          (λ _. by_queue s.0.incoming_queue))
  where
    P : State → Type 0
    P s' = Handles h (holds h (some handler)) s s'

    posted : (ec : ErrorCode) → P (emit s (notified handler ec))
    posted ec = record {
      ready = record {
        reading = λ _. i.no_read;
        waiting = λ _. i.no_wait;
        buffered = λ _. i.no_read;
      };
      counted = omega (arith, done_snoc h s.1 (notified handler ec));
    }

    by_queue :
        (q : List Packet)
        → P (elim q [
          | p ∷ ps ↦ emit s (notified handler no_error)
          | [] ↦ (record s.0 { recv_null_buffers = true; wait_recv_handler = some handler }, s.1)
        ])
    by_queue (p ∷ ps) = posted no_error
    by_queue [] = record {
      ready = record { reading = λ _. i.no_read; waiting = λ e. cc; buffered = λ _. i.no_read };
      counted = ground (arith, i.no_read, i.no_wait);
    }
