-- ===== src/Queue/Link/Reach.antt =====
-- What holds of a link after any sequence of steps.
use libsimulator.Base.{
  ℕ, ◌+◌, ◌≤◌, ◌<◌, ◌≡◌, refl, sym, ap, subst, false, List, [], ◌∷◌, ◌++◌, Option, none, some,
  arith, ltb, ◌==◌, length, if_rule, ltb-false, zero_or_suc, ◌⊎◌, inl, inr,
}
use libsimulator.Net.Packet.{Packet, packet_size}
use libsimulator.Queue.{
  TimedPacket, Queue, Effect, incoming_packet, enqueue, dequeue, timed, tail_drops, accept,
  begin_send_on, go_on, sent_on, begin_send, begin_send_next_packet, next_packet_sent,
}
use libsimulator.Queue.Accounting.{total, undroppable, IsCounted}
use libsimulator.Queue.Link.{
  Pending, idle, begins, sends, Link, observe, accepts, arrived, woken, Step, arrives, begins_now,
  sent_now, Reaches, here, next, fresh,
}
use libsimulator.Queue.Link.Tracks.{
  Tracks, Tracks-enqueue, Tracks-depart, Spaced, last_time, Spaced-depart, last_time-depart,
}
use libsimulator.Queue.Link.Invariant.{
  SameConfig, cost, Armed, Inv, enqueue-IsCounted, dequeue-IsCounted,
}

module _ (transmit : ℕ → ℕ → ℕ) (bandwidth delay limit : ℕ) where
  -- What begin_send_next_packet does from a state in which nothing is pending and `x` is in front.
  begin_send-Inv :
      (l : Link) (x : TimedPacket) (xs : List TimedPacket)
      → l.queue.queue ≡ x ∷ xs
      → SameConfig bandwidth delay limit l.queue
      → IsCounted l.queue
      → Tracks l.queue.forwarding_latency l.accepted l.departed l.queue.queue
      → Spaced (cost transmit l.queue.bandwidth) 0 l.departed
      → last_time (cost transmit l.queue.bandwidth) 0 l.departed ≤ l.now
      → let r = begin_send transmit l.queue l.now x in
        Inv transmit bandwidth delay limit (observe (record l { queue = r.0 }) (r.1 ∷ []))
  unfolding begin_send
  begin_send-Inv l x xs e k c t s past =
      if_rule Started (ltb l.now x.ts)
        (λ _. record {
          same = k;
          counted = c;
          armed = front (begins x.ts) refl;
          tracks = t;
          spaced = s;
          past = past;
        })
        λ due.
          if_rule Started (l.queue.bandwidth == 0)
            (λ free. record {
              same = k;
              counted = record { counted = c.counted; bounded = c.bounded };
              armed = front (sends l.now) (ltb-false _ _ due, ground arith);
              tracks = t;
              spaced = s;
              past = past;
            })
            λ limited. record {
              same = k;
              counted = record { counted = c.counted; bounded = c.bounded };
              armed =
                  front (sends (l.now + line_time))
                    (omega (arith, ltb-false _ _ due), ground arith);
              tracks = t;
              spaced = s;
              past = past;
            }
    where
      Started : Queue × Effect → Type 0
      Started r = Inv transmit bandwidth delay limit (observe (record l { queue = r.0 }) (r.1 ∷ []))

      line_time : ℕ
      line_time = transmit l.queue.bandwidth (packet_size x.pkt)

      front :
          (pending : Pending)
          → Armed transmit pending l.queue.bandwidth
              (last_time (cost transmit l.queue.bandwidth) 0 l.departed)
              (x ∷ xs)
          → Armed transmit pending l.queue.bandwidth
              (last_time (cost transmit l.queue.bandwidth) 0 l.departed)
              l.queue.queue
      front pending a =
          subst
            (Armed transmit pending l.queue.bandwidth
              (last_time (cost transmit l.queue.bandwidth) 0 l.departed))
            (sym e) a

  Armed-behind :
      (pending : Pending) (rate : ℕ) (y : TimedPacket) (last : ℕ) (xs : List TimedPacket)
      → 0 < length xs
      → Armed transmit pending rate last xs
      → Armed transmit pending rate last (xs ++ y ∷ [])
  Armed-behind idle rate y last [] h a = absurd (omega arith)
  Armed-behind (begins t) rate y last [] h a = absurd a
  Armed-behind (sends t) rate y last [] h a = absurd a
  Armed-behind idle rate y last (x ∷ xs) h a = absurd a
  Armed-behind (begins t) rate y last (x ∷ xs) h a = a
  Armed-behind (sends t) rate y last (x ∷ xs) h a = a

  accepts-begin_send :
      (q : Queue) (x : TimedPacket) (now at : ℕ) (log : List (Packet × ℕ)) (p : Packet)
      → accepts ((begin_send transmit q now x).1 ∷ []) log p at ≡ log ++ (p, at) ∷ []
  unfolding begin_send
  accepts-begin_send q x now at log p = ground arith

  abbrev entering : Link → ℕ → Packet → Link
  entering l now p = record l {
    now = now;
    queue = enqueue l.queue now p;
    accepted = l.accepted ++ (p, now) ∷ [];
  }

  accept-Inv :
      (l : Link) (now : ℕ) (p : Packet) (q : List TimedPacket)
      → l.queue.queue ≡ q
      → l.now ≤ now
      → tail_drops l.queue p ≡ false
      → Inv transmit bandwidth delay limit l
      → let r = accept transmit l.queue now p q in
        Inv transmit bandwidth delay limit (
          observe
            (record l { now = now; queue = r.0; accepted = accepts r.1 l.accepted p now })
            r.1)
  unfolding accept
  accept-Inv l now p [] e h fits i =
      rw (accepts-begin_send (enqueue l.queue now p) (timed l.queue now p) now now l.accepted p) (
        begin_send-Inv (entering l now p) (timed l.queue now p) []
          (ap (λ q. q ++ timed l.queue now p ∷ []) e) i.same
          (enqueue-IsCounted transmit l.queue now p fits i.counted)
          (Tracks-enqueue _ l.accepted l.departed l.queue.queue p now i.tracks) i.spaced
          (omega (arith, i.past)))
  accept-Inv l now p (x ∷ xs) e h fits i = record {
    same = i.same;
    counted = enqueue-IsCounted transmit l.queue now p fits i.counted;
    armed =
        Armed-behind l.pending l.queue.bandwidth (timed l.queue now p) _ l.queue.queue
          (rw e (omega arith)) i.armed;
    tracks = Tracks-enqueue _ l.accepted l.departed l.queue.queue p now i.tracks;
    spaced = i.spaced;
    past = omega (arith, i.past);
  }

  -- A dropped packet, and one that is accepted.
  arrived-Inv :
      (l : Link) (now : ℕ) (p : Packet)
      → l.now ≤ now
      → Inv transmit bandwidth delay limit l
      → Inv transmit bandwidth delay limit (arrived transmit l now p)
  unfolding arrived incoming_packet
  arrived-Inv l now p h i =
      if_rule
        (λ (r : Queue × List Effect). Inv transmit bandwidth delay limit (
          observe (record l { now = now; queue = r.0; accepted = accepts r.1 l.accepted p now })
            r.1))
        (tail_drops l.queue p)
        (λ _. record {
          same = i.same;
          counted = i.counted;
          armed = i.armed;
          tracks = i.tracks;
          spaced = i.spaced;
          past = omega (arith, i.past);
        })
        (λ fits. accept-Inv l now p l.queue.queue refl h fits i)

  -- `P` holds of the value, if there is one.
  abbrev Each {ℓ} : {A : Type ℓ} → (A → Type 0) → Option A → Type 0
  Each P none = Unit
  Each P (some a) = P a

  woken_begin-Inv :
      (l : Link) (now t : ℕ) (xs : List TimedPacket)
      → l.queue.queue ≡ xs
      → l.now ≤ now
      → Inv transmit bandwidth delay limit l
      → Each
          (λ r. Inv transmit bandwidth delay limit (woken transmit l now r.0 (r.1 ∷ [])))
          (begin_send_on transmit l.queue now xs)
  unfolding begin_send_on
  woken_begin-Inv l now t [] e h i = tt
  woken_begin-Inv l now t (x ∷ xs) e h i =
      begin_send-Inv (record l { now = now; pending = idle }) x xs e i.same i.counted i.tracks
        i.spaced (omega (arith, i.past))

  go_on-Inv :
      (l : Link) (xs : List TimedPacket)
      → l.queue.queue ≡ xs
      → l.pending ≡ idle
      → SameConfig bandwidth delay limit l.queue
      → IsCounted l.queue
      → Tracks l.queue.forwarding_latency l.accepted l.departed l.queue.queue
      → Spaced (cost transmit l.queue.bandwidth) 0 l.departed
      → last_time (cost transmit l.queue.bandwidth) 0 l.departed ≤ l.now
      → let r = go_on transmit l.queue l.now xs in
        Inv transmit bandwidth delay limit (observe (record l { queue = r.0 }) r.1)
  unfolding go_on
  go_on-Inv l [] e pe k c t s past = record {
    same = k;
    counted = c;
    armed = rw (pe, e) tt;
    tracks = t;
    spaced = s;
    past = past;
  }
  go_on-Inv l (x ∷ xs) e pe k c t s past = begin_send-Inv l x xs e k c t s past

  -- The state between forward_packet and the start of the next packet.
  abbrev departing : Link → ℕ → TimedPacket → List TimedPacket → Link
  departing l now x xs = record l {
    now = now;
    queue = dequeue l.queue x xs;
    pending = idle;
    departed = l.departed ++ (x.pkt, now) ∷ [];
  }

  woken_sent-Inv :
      (l : Link) (now t : ℕ) (xs : List TimedPacket)
      → l.queue.queue ≡ xs
      → l.now ≤ now
      → l.pending ≡ sends t
      → t ≤ now
      → Inv transmit bandwidth delay limit l
      → Each
          (λ r. Inv transmit bandwidth delay limit (woken transmit l now r.0 r.1))
          (sent_on transmit l.queue now xs)
  unfolding sent_on
  woken_sent-Inv l now t [] e h pe due i = tt
  woken_sent-Inv l now t (x ∷ xs) e h pe due i =
      go_on-Inv (departing l now x xs) xs refl refl i.same
        (dequeue-IsCounted transmit l.queue x xs e i.counted)
        (Tracks-depart _ l.accepted l.departed x xs now (omega (arith, armed.0))
          (subst (Tracks l.queue.forwarding_latency l.accepted l.departed) e i.tracks))
        (Spaced-depart (cost transmit l.queue.bandwidth) 0 l.departed x.pkt now
          (omega (arith, armed.1)) i.spaced)
        (omega (arith, last_time-depart (cost transmit l.queue.bandwidth) 0 l.departed x.pkt now))
    where
      armed :
          (x.ts ≤ t)
          × (last_time (cost transmit l.queue.bandwidth) 0 l.departed
                + cost transmit l.queue.bandwidth x.pkt
              ≤ t)
      armed =
          subst
            (λ p.
              Armed transmit p l.queue.bandwidth
                (last_time (cost transmit l.queue.bandwidth) 0 l.departed) (x ∷ xs))
            pe
            (subst
              (Armed transmit l.pending l.queue.bandwidth
                (last_time (cost transmit l.queue.bandwidth) 0 l.departed))
              e i.armed)

  pub Step-Inv :
      {l m : Link}
      → Step transmit l m
      → Inv transmit bandwidth delay limit l
      → Inv transmit bandwidth delay limit m
  unfolding begin_send_next_packet next_packet_sent
  Step-Inv {l} (arrives now p h) i = arrived-Inv l now p h i
  Step-Inv {l} (begins_now now t q e h pe due r) i =
      subst (Each (λ r. Inv transmit bandwidth delay limit (woken transmit l now r.0 (r.1 ∷ [])))) r
        (woken_begin-Inv l now t l.queue.queue refl h i)
  Step-Inv {l} (sent_now now t q es h pe due r) i =
      subst (Each (λ r. Inv transmit bandwidth delay limit (woken transmit l now r.0 r.1))) r
        (woken_sent-Inv l now t l.queue.queue refl h pe due i)

  pub Reaches-Inv :
      {l m : Link}
      → Inv transmit bandwidth delay limit l
      → Reaches transmit l m
      → Inv transmit bandwidth delay limit m
  Reaches-Inv i here = i
  Reaches-Inv i (next r s) = Step-Inv s (Reaches-Inv i r)

  pub fresh-Inv : (now : ℕ) → Inv transmit bandwidth delay limit (fresh bandwidth delay limit now)
  unfolding fresh
  fresh-Inv now = record {
    same = (refl, refl, refl);
    counted = record { counted = refl; bounded = λ h. omega arith };
    armed = tt;
    tracks = tt;
    spaced = tt;
    past = omega arith;
  }

-- After any steps from a fresh queue, what it accepted is, in the same order, what it forwarded,
-- each packet at least the propagation delay after it arrived, followed by what it holds; with a
-- limited rate each packet was forwarded at least its transmission time after the one before it;
-- the bytes counted are those of the packets held, and unless the limit is 0, which means none, they
-- exceed it by no more than the held packets that may not be dropped.
pub Reaches-Tracks :
    (transmit : ℕ → ℕ → ℕ) (bandwidth delay limit now : ℕ) (l : Link)
    → Reaches transmit (fresh bandwidth delay limit now) l
    → Tracks delay l.accepted l.departed l.queue.queue
      × Spaced (cost transmit bandwidth) 0 l.departed
      × (l.queue.queue_size ≡ total l.queue.queue)
      × ((limit ≡ 0) ⊎ (l.queue.queue_size ≤ limit + undroppable l.queue.queue))
Reaches-Tracks transmit bandwidth delay limit now l r =
    let i =
      Reaches-Inv transmit bandwidth delay limit (fresh-Inv transmit bandwidth delay limit now) r in
    (
      subst (λ d. Tracks d l.accepted l.departed l.queue.queue) i.same.1 i.tracks,
      subst (λ b. Spaced (cost transmit b) 0 l.departed) i.same.0 i.spaced,
      i.counted.counted,
      elim (zero_or_suc limit) [
        | inl e ↦ inl e
        | inr (n, e) ↦ inr (
            subst (λ m. 0 < m → l.queue.queue_size ≤ m + undroppable l.queue.queue) i.same.2
              i.counted.bounded (omega (arith, e)))
      ],
    )
