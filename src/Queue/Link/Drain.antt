-- ===== src/Queue/Link/Drain.antt =====
-- The handlers of a link never meet an empty queue, and they empty it.
use libsimulator.Base.{
  ℕ, zero, suc, ◌+◌, ◌*◌, ◌≤◌, ◌<◌, ◌≡◌, ◌≢◌, refl, ap, subst, ◌∙◌, List, [], ◌∷◌, none, arith,
  length, max,
}
use libsimulator.Queue.{
  TimedPacket, Queue, forwarded, dequeue, begin_send, begin_send_next_packet, next_packet_sent,
  begin_send_on, go_on, sent_on,
}
use libsimulator.Queue.Link.{
  Pending, idle, begins, sends, Link, woken, Step, begins_now, sent_now, Reaches, here, next, fresh,
}
use libsimulator.Queue.Link.Reach.{Step-Inv, Reaches-Inv, fresh-Inv}
use libsimulator.Queue.Link.Invariant.{Armed, Inv}

module _ (transmit : ℕ → ℕ → ℕ) where
  -- The handler that is due finds its front packet, and nothing is pending only at an empty queue.
  abbrev pub Attended : Pending → Queue → ℕ → Type 0
  Attended idle q now = q.queue ≡ []
  Attended (begins t) q now = begin_send_next_packet transmit q now ≢ none
  Attended (sends t) q now = next_packet_sent transmit q now ≢ none

  attended :
      (pending : Pending) (q : Queue) (now rate last : ℕ) (xs : List TimedPacket)
      → q.queue ≡ xs
      → Armed transmit pending rate last xs
      → Attended pending q now
  unfolding begin_send_next_packet next_packet_sent begin_send_on sent_on
  attended idle q now rate last [] e a = e
  attended idle q now rate last (x ∷ xs) e a = absurd a
  attended (begins t) q now rate last [] e a = absurd a
  attended (begins t) q now rate last (x ∷ xs) e a = rw e (λ n. cc)
  attended (sends t) q now rate last [] e a = absurd a
  attended (sends t) q now rate last (x ∷ xs) e a = rw e (λ n. cc)

  Reaches-trans :
      {l m n : Link} → Reaches transmit l m → Reaches transmit m n → Reaches transmit l n
  Reaches-trans r here = r
  Reaches-trans r (next s t) = next (Reaches-trans r s) t

  -- One handler run from a state in which something is queued.
  abbrev work : Pending → List TimedPacket → ℕ
  work (begins t) q = 2 * length q + 1
  work _ q = 2 * length q

  work_pos : (p : Pending) (q : List TimedPacket) → 0 < length q → 0 < work p q
  work_pos idle q h = omega arith
  work_pos (begins t) q h = omega arith
  work_pos (sends t) q h = omega arith

  work-le : (p : Pending) (q : List TimedPacket) → work p q ≤ 2 * length q + 1
  work-le idle q = omega arith
  work-le (begins t) q = omega arith
  work-le (sends t) q = omega arith

  abbrev Works : Link → Type 0
  Works l =
      (m : Link) × Step transmit l m
      × (work m.pending m.queue.queue < work l.pending l.queue.queue)
      × (m.accepted ≡ l.accepted)

  abbrev begun : Link → TimedPacket → ℕ → Link
  begun l x now = let r = begin_send transmit l.queue now x in woken transmit l now r.0 (r.1 ∷ [])

  -- At its time the front packet is put on the line.
  begun-work :
      (l : Link) (x : TimedPacket) (now : ℕ)
      → x.ts ≤ now
      → (work (begun l x now).pending (begun l x now).queue.queue ≡ 2 * length l.queue.queue)
        × ((begun l x now).accepted ≡ l.accepted)
  unfolding begin_send
  begun-work l x now h = ground arith

  abbrev gone : Link → TimedPacket → List TimedPacket → ℕ → Link
  gone l x xs now =
      let r = go_on transmit (dequeue l.queue x xs) now xs in
      woken transmit l now r.0 (forwarded x.pkt ∷ r.1)

  gone-work :
      (l : Link) (x : TimedPacket) (xs : List TimedPacket) (now : ℕ)
      → (work (gone l x xs now).pending (gone l x xs now).queue.queue ≤ 2 * length xs + 1)
        × ((gone l x xs now).accepted ≡ l.accepted)
  unfolding go_on begin_send
  gone-work l x [] now = (omega arith, refl)
  gone-work l x (y ∷ ys) now = ground arith

  works :
      (l : Link) (pending : Pending) (rate last : ℕ) (xs : List TimedPacket)
      → l.pending ≡ pending
      → l.queue.queue ≡ xs
      → Armed transmit pending rate last xs
      → 0 < length xs
      → Works l
  unfolding begin_send_next_packet next_packet_sent begin_send_on sent_on
  works l pending rate last [] pe e a h = absurd (omega arith)
  works l idle rate last (x ∷ xs) pe e a h = absurd a
  works l (begins t) rate last (x ∷ xs) pe e a h =
      let now : ℕ = max l.now t in
      let (less, same) = begun-work l x now (omega (arith, a)) in
      (
        begun l x now,
        begins_now now t _ _ (omega arith) pe (omega arith)
            (ap (begin_send_on transmit l.queue now) e),
        omega (arith, less, ap (λ p. work p l.queue.queue) pe),
        same,
      )
  works l (sends t) rate last (x ∷ xs) pe e a h =
      let now : ℕ = max l.now t in
      let (less, same) = gone-work l x xs now in
      (
        gone l x xs now,
        sent_now now t (go_on transmit (dequeue l.queue x xs) now xs).0
            (forwarded x.pkt ∷ (go_on transmit (dequeue l.queue x xs) now xs).1) (omega arith) pe
            (omega arith) (ap (sent_on transmit l.queue now) e),
        omega (arith, less, ap length e, ap (λ p. work p l.queue.queue) pe),
        same,
      )

  -- With enough steps left for the work, the queue is emptied.
  drain :
      (fuel bandwidth delay limit : ℕ) (l : Link) (xs : List TimedPacket)
      → l.queue.queue ≡ xs
      → Inv transmit bandwidth delay limit l
      → work l.pending l.queue.queue ≤ fuel
      → (m : Link) × Reaches transmit l m × (m.queue.queue ≡ []) × (m.accepted ≡ l.accepted)
  drain fuel bandwidth delay limit l [] e i h = (l, here, e, refl)
  drain zero bandwidth delay limit l (x ∷ xs) e i h =
      absurd (omega (arith, work_pos l.pending l.queue.queue (rw e (omega arith))))
  drain (suc fuel) bandwidth delay limit l (x ∷ xs) e i h =
      let (m, step, less, same) =
        works l l.pending l.queue.bandwidth _ (x ∷ xs) refl e
          (subst (Armed transmit l.pending l.queue.bandwidth _) e i.armed) (omega arith) in
      let (n, reached, empty, kept) =
        drain fuel bandwidth delay limit m m.queue.queue refl
          (Step-Inv transmit bandwidth delay limit step i) (omega (arith, less)) in
      (n, Reaches-trans (next here step) reached, empty, kept ∙ same)

-- After any steps from a fresh queue, the handler that the queue waits for finds a packet when it
-- runs, and no handler is pending only if the queue is empty.
pub Reaches-Attended :
    (transmit : ℕ → ℕ → ℕ) (bandwidth delay limit start now : ℕ) (l : Link)
    → Reaches transmit (fresh bandwidth delay limit start) l
    → Attended transmit l.pending l.queue now
Reaches-Attended transmit bandwidth delay limit start now l r =
    let i =
      Reaches-Inv transmit bandwidth delay limit (fresh-Inv transmit bandwidth delay limit start)
        r in
    attended transmit l.pending l.queue now _ _ l.queue.queue refl i.armed

-- After any steps from a fresh queue, its pending handlers alone can run until it is empty, with no
-- further packet accepted on the way.
pub Reaches-drained :
    (transmit : ℕ → ℕ → ℕ) (bandwidth delay limit start : ℕ) (l : Link)
    → Reaches transmit (fresh bandwidth delay limit start) l
    → (m : Link) × Reaches transmit l m × (m.queue.queue ≡ []) × (m.accepted ≡ l.accepted)
Reaches-drained transmit bandwidth delay limit start l r =
    drain transmit (2 * length l.queue.queue + 1) bandwidth delay limit l l.queue.queue refl
      (Reaches-Inv transmit bandwidth delay limit (fresh-Inv transmit bandwidth delay limit start)
        r)
      (work-le transmit l.pending l.queue.queue)
