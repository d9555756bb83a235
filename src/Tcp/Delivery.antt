-- ===== src/Tcp/Delivery.antt =====
-- From a write at one end to the stream of bytes at the other: what the network may lose, repeat and
-- reorder in between.
use libsimulator.Base.Errors.{ErrorCode}
use libsimulator.Base.{
  ℕ, zero, suc, ◌≡◌, ◌≤◌, ◌<◌, refl, sym, ap, subst, ◌∙◌, Bool, true, false, List, [], ◌∷◌, ◌++◌,
  some, arith, ◌==◌, length, take, if◌then◌else◌, option_rule, if_rule, All, All-append,
}
use libsimulator.Net.Packet.{Packet}
use libsimulator.Tcp.{Effect, Socket, State, look_up, delete}
use libsimulator.Tcp.Input.{is_error}
use libsimulator.Tcp.Order.{take_early, emplace, sequenced}
use libsimulator.Tcp.Runs.{Run, stop, content, IsCopy, Run-content}
use libsimulator.Tcp.Reassembly.{Arrives, arrivals, arrivals-Ordered}
use libsimulator.Tcp.Write.{write_some_impl}
use libsimulator.Tcp.Sends.{payloads, concat}
use libsimulator.Tcp.Segments.{Wrote, write_some_impl-Wrote}
use libsimulator.Tcp.Stream.{stream}

-- What holds of every packet that arrives holds of every packet that is kept or taken.
module _ (P : Packet → Type 0) where
  abbrev Holds : List (ℕ × Packet) → Type 0
  Holds = All (λ e. P e.1)

  look_up-Holds :
      (i : ℕ) (m : List (ℕ × Packet)) (p : Packet) → Holds m → look_up i m ≡ some p → P p
  unfolding look_up
  look_up-Holds i [] p h e = ground arith
  look_up-Holds i ((j, q) ∷ m) p h e = by_key h.0 (look_up-Holds i m p h.1) (j == i) e
    where
      by_key :
          P q
          → (look_up i m ≡ some p → P p)
          → (b : Bool) → (if b then some q else look_up i m) ≡ some p
          → P p
      by_key hq ih true e = subst P (cc) hq
      by_key hq ih false e = ih e

  delete-Holds : (i : ℕ) (m : List (ℕ × Packet)) → Holds m → Holds (delete i m)
  unfolding delete
  delete-Holds i [] h = tt
  delete-Holds i ((j, q) ∷ m) h =
      if_rule Holds (j == i) (λ _. h.1) (λ _. (h.0, delete-Holds i m h.1))

  take_early-Holds :
      (fuel : ℕ) (m : List (ℕ × Packet)) (seq : ℕ)
      → Holds m
      → Holds (take_early fuel m seq).0 × All P (take_early fuel m seq).1
  unfolding take_early
  take_early-Holds zero m seq h = (h, tt)
  take_early-Holds (suc fuel) m seq h =
      option_rule (λ (r : List (ℕ × Packet) × List Packet × ℕ). Holds r.0 × All P r.1)
        (look_up seq m) (λ _. (h, tt))
        (λ p e.
          let (kept, taken) =
            take_early-Holds fuel (delete seq m) (suc seq) (delete-Holds seq m h) in
          (kept, (look_up-Holds seq m p h e, taken)))

  emplace-Holds : (p : Packet) (m : List (ℕ × Packet)) → P p → Holds m → Holds (emplace p m)
  emplace-Holds p m hp h = option_rule Holds (look_up p.seq_nr m) (λ _. (hp, h)) (λ q _. h)

  sequenced-Holds :
      (k : Socket) (p : Packet)
      → P p
      → All P k.incoming_queue
      → Holds k.reorder_buffer
      → All P (sequenced k p).incoming_queue × Holds (sequenced k p).reorder_buffer
  unfolding sequenced
  sequenced-Holds k p hp hq hm =
      let (kept, taken) =
        take_early-Holds (length k.reorder_buffer) k.reorder_buffer (suc k.next_incoming_seq) hm in
      if_rule (λ (k' : Socket). All P k'.incoming_queue × Holds k'.reorder_buffer)
        (p.seq_nr == k.next_incoming_seq)
        (λ _. (All-append P k.incoming_queue _ hq (hp, taken), kept))
        (λ _. (hq, emplace-Holds p k.reorder_buffer hp hm))

  arrivals-Holds :
      (k : Socket) (ps : List Packet)
      → All P ps
      → All P k.incoming_queue
      → Holds k.reorder_buffer
      → All P (arrivals k ps).incoming_queue
  arrivals-Holds k [] hp hq hm = hq
  arrivals-Holds k (p ∷ ps) hp hq hm =
      let (hq', hm') = sequenced-Holds k p hp.0 hq hm in
      arrivals-Holds (sequenced k p) ps hp.1 hq' hm'

-- A packet that carries what the sent packet of its number carried, and no error.
abbrev pub IsDelivery : List Packet → Packet → Type 0
IsDelivery sent p = IsCopy sent p × (is_error p ≡ false)

stream-content : (ps sent : List Packet) → All (IsDelivery sent) ps → stream ps ≡ content ps
unfolding stream content
stream-content [] sent h = refl
stream-content (p ∷ ps) sent h = ground (arith, h.0.1, stream-content ps sent h.1)

copies : (ps sent : List Packet) → All (IsDelivery sent) ps → All (IsCopy sent) ps
copies [] sent h = tt
copies (p ∷ ps) sent h = (h.0.0, copies ps sent h.1)

take-append : (xs ys : List ℕ) → take (length xs) (xs ++ ys) ≡ xs
take-append [] ys = refl
take-append (x ∷ xs) ys = ap (◌∷◌ x) (take-append xs ys)

-- The network brings packets to a socket in this state: each a delivery of one of the packets sent,
-- and of the numbers between the two all.
pub record Brought (k : Socket) (sent : List Packet) (first last : ℕ) (ps : List Packet)
    : Type 0 where
  pub nothing_read : k.incoming_queue ≡ []
  pub nothing_early : k.reorder_buffer ≡ []
  pub agreed : k.next_incoming_seq ≡ first
  pub deliveries : All (IsDelivery sent) ps
  pub all_come : (i : ℕ) → first ≤ i → i < last → Arrives i ps

content-Brought :
    (k : Socket) (sent : List Packet) (first last : ℕ) (ps : List Packet)
    → Brought k sent first last ps
    → Run first sent last
    → stream (arrivals k ps).incoming_queue ≡ content sent
unfolding look_up
content-Brought k sent first last ps b r =
    let n = k.next_incoming_seq in
    let (o, far) =
      arrivals-Ordered k ps last (rw b.nothing_early tt) (rw b.nothing_early refl)
        (λ i l h. b.all_come i (omega (arith, b.agreed, l)) h) in
    let kept =
      arrivals-Holds (IsDelivery sent) k ps b.deliveries (rw b.nothing_read tt)
        (rw b.nothing_early tt) in
    let taken : (arrivals k ps).incoming_queue ≡ o.taken =
      o.added ∙ ap (λ q. q ++ o.taken) b.nothing_read in
    let good = subst (All (IsDelivery sent)) taken kept in
    ap stream taken
    ∙ stream-content o.taken sent good
    ∙ Run-content (subst (λ m. Run m o.taken (arrivals k ps).next_incoming_seq) b.agreed o.run) r
        (copies o.taken sent good) far

take_all :
    (bytes front rest : List ℕ) (n : ℕ)
    → bytes ≡ front ++ rest
    → n ≡ length front
    → take n bytes ≡ front
take_all bytes front rest n e h = rw (e, h) (take-append front rest)

-- End to end: a socket with an mss above 0 that has sent nothing before writes some buffers,
-- and the packets that it puts on the network come to a socket that has received nothing before and
-- expects the first of their numbers, in any order, repeated or not, until each number has come. Then
-- the stream to be read there is exactly the bytes that the write reports as written, from the
-- front of its buffers on.
pub write_some_impl-delivered :
    (drops : List Effect → Packet → Bool) (s : State) (bufs : List (List ℕ)) (k : Socket)
    (ps : List Packet)
    → 0 < s.socket.mss
    → payloads s.log ≡ []
    → Brought k
        (payloads (write_some_impl drops s bufs).0.log)
        s.socket.next_outgoing_seq
        (write_some_impl drops s bufs).0.socket.next_outgoing_seq
        ps
    → stream (arrivals k ps).incoming_queue ≡ take (write_some_impl drops s bufs).2 (concat bufs)
unfolding content
write_some_impl-delivered drops s bufs k ps m l b =
    by_result (write_some_impl drops s bufs) (write_some_impl-Wrote drops s bufs m) b
  where
    by_result :
        (r : State × ErrorCode × ℕ)
        → Wrote drops s (concat bufs) r
        → Brought k (payloads r.0.log) s.socket.next_outgoing_seq r.0.socket.next_outgoing_seq ps
        → stream (arrivals k ps).incoming_queue ≡ take r.2 (concat bufs)
    by_result _ (Wrote.refused ec e) b =
        content-Brought k (payloads s.log) _ _ ps b (rw l stop) ∙ rw l refl
    by_result _ (Wrote.wrote s' ret pieces rest log bytes count run small end) b =
        let sent : payloads s'.log ≡ pieces = log ∙ ap (λ q. q ++ pieces) l in
        content-Brought k (payloads s'.log) _ _ ps b
          (subst (λ q. Run s.socket.next_outgoing_seq q s'.socket.next_outgoing_seq) (sym sent) run)
        ∙ ap content sent
        ∙ sym (take_all (concat bufs) (content pieces) rest ret bytes count)
