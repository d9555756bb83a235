-- ===== src/Tcp/Cuts.antt =====
-- How a write cuts the bytes of its buffers into segments, and numbers them.
use libsimulator.Base.Errors.{ErrorCode, no_error}
use libsimulator.Base.{
  ℕ, zero, suc, ◌≡◌, ◌≤◌, ◌<◌, refl, sym, ap, subst, ◌∙◌, ◌+◌, min, Bool, true, false, List, [],
  ◌∷◌, ◌++◌, append-nil, append_assoc, none, some, arith, length, take, drop, take-append-drop,
  length-take, length-drop, length-append, elim_rule, if_rule, All, All-append, is_some,
  is_some-false,
}
use libsimulator.Net.Packet.{Packet}
use libsimulator.Net.Hops.{Route}
use libsimulator.Tcp.{Effect, State, sent, send_on, accounted, numbered, emit}
use libsimulator.Tcp.Write.{
  Written, window_full, next_seq, new_segment, send_segment, send_chunks, send_buffers,
}
use libsimulator.Tcp.Input.{is_error}
use libsimulator.Tcp.Runs.{Run, stop, go, content, content-append}
use libsimulator.Tcp.Sends.{
  payloads, concat, payloads-append, Emits, Sends, none-Sends, returned-Emits, Sends-trans,
}

abbrev pub IsSegment : ℕ → Packet → Type 0
IsSegment mss p = (0 < length p.buffer) × (length p.buffer ≤ mss) × (is_error p ≡ false)

module _ (drops : List Effect → Packet → Bool) where
  pub send_on-Emits :
      (c : ℕ) (s : State) (p : Packet) → Emits s (send_on drops c s p) (numbered c s p ∷ [])
  unfolding send_on payloads
  send_on-Emits c s p =
      let s' = emit (accounted c s p) (sent (numbered c s p)) in
      let logged : Emits s s' (numbered c s p ∷ []) = record {
        mss = refl;
        next = refl;
        log = payloads-append s.log (sent (numbered c s p) ∷ []);
      } in
      if_rule (λ r. Emits s r (numbered c s p ∷ [])) (drops s.log (numbered c s p))
        (λ _.
          let r = returned-Emits c s' (numbered c s p) in
          record { mss = r.mss; next = r.next; log = r.log ∙ append-nil _ ∙ logged.log })
        (λ _. logged)

  abbrev segment : ℕ → State → Route → List ℕ → Packet
  segment c s hops bytes = numbered c (next_seq s) (new_segment s hops bytes)

  segment-Sends :
      (c : ℕ) (s : State) (hops : Route) (bytes : List ℕ)
      → Sends s (send_segment drops c s hops bytes) (segment c s hops bytes ∷ [])
  segment-Sends c s hops bytes =
      let r = send_on-Emits c (next_seq s) (new_segment s hops bytes) in
      record {
        mss = r.mss;
        run =
            subst (Run s.socket.next_outgoing_seq (segment c s hops bytes ∷ [])) (sym r.next)
              (go refl stop);
        log = r.log;
      }

  -- What a write came to, from the bytes that it was given and the number it started from.
  pub record Cuts (s : State) (bytes : List ℕ) (ret : ℕ) (w : Written) : Type 0 where
    pub pieces : List Packet
    pub sends : Sends s w.state pieces
    pub rest : List ℕ
    pub in_order : bytes ≡ content pieces ++ rest
    pub counted : w.ret ≡ ret + length (content pieces)
    pub small : All (IsSegment s.socket.mss) pieces
    pub all : w.stop ≡ none → rest ≡ []
    pub stopped : (e : ErrorCode) → w.stop ≡ some e → (e ≡ no_error) × (window_full w.state ≡ true)

  chunks-Cuts :
      (fuel c : ℕ) (s : State) (hops : Route) (bytes : List ℕ) (ret : ℕ)
      → 0 < s.socket.mss
      → length bytes ≤ fuel
      → Cuts s bytes ret (send_chunks drops fuel c s hops bytes ret)
  unfolding send_chunks content
  chunks-Cuts zero c s hops [] ret m h = record {
    pieces = [];
    sends = none-Sends s;
    rest = [];
    in_order = refl;
    counted = omega arith;
    small = tt;
    all = λ _. refl;
    stopped = λ e q. ground arith;
  }
  chunks-Cuts zero c s hops (b ∷ bs) ret m h = ground arith
  chunks-Cuts (suc fuel) c s hops [] ret m h = record {
    pieces = [];
    sends = none-Sends s;
    rest = [];
    in_order = refl;
    counted = omega arith;
    small = tt;
    all = λ _. refl;
    stopped = λ e q. ground arith;
  }
  chunks-Cuts (suc fuel) c s hops (b ∷ bs) ret m h =
      let n = min (length (b ∷ bs)) s.socket.mss in
      let piece = take n (b ∷ bs) in
      let s' = send_segment drops c s hops piece in
      let one = segment-Sends c s hops piece in
      let len : length piece ≡ n = omega (arith, length-take n (b ∷ bs)) in
      elim_rule (Cuts s (b ∷ bs) ret) (window_full s')
        (λ full. record {
          pieces = segment c s hops piece ∷ [];
          sends = one;
          rest = drop n (b ∷ bs);
          in_order =
              sym (take-append-drop n (b ∷ bs))
              ∙ ap (λ xs. xs ++ drop n (b ∷ bs)) (sym (append-nil piece));
          counted = omega (arith, len, length-append piece []);
          small = ((omega arith, omega arith, refl), tt);
          all = λ q. ground arith;
          stopped = λ e q. ground arith;
        })
        (λ _.
          let r =
            chunks-Cuts fuel c s' hops (drop n (b ∷ bs)) (ret + n)
              (subst (λ k. 0 < k) (sym one.mss) m) (omega (arith, length-drop n (b ∷ bs))) in
          record {
            pieces = segment c s hops piece ∷ r.pieces;
            sends = Sends-trans one r.sends;
            rest = r.rest;
            in_order =
                sym (take-append-drop n (b ∷ bs))
                ∙ ap (piece ++◌) r.in_order
                ∙ sym (append_assoc piece (content r.pieces) r.rest);
            counted = omega (arith, len, r.counted, length-append piece (content r.pieces));
            small = (
              (omega arith, omega arith, refl),
              subst (λ k. All (IsSegment k) r.pieces) one.mss r.small,
            );
            all = r.all;
            stopped = r.stopped;
          })

  Cuts-append :
      (s : State) (b bs : List ℕ) (ret : ℕ) {w w' : Written}
      → (one : Cuts s b ret w) → one.rest ≡ []
      → Cuts w.state bs w.ret w'
      → Cuts s (b ++ bs) ret w'
  Cuts-append s b bs ret {w} {w'} one e r = record {
    pieces = one.pieces ++ r.pieces;
    sends = Sends-trans one.sends r.sends;
    rest = r.rest;
    in_order =
        ap (λ xs. xs ++ bs) (one.in_order ∙ ap (content one.pieces ++◌) e ∙ append-nil _)
        ∙ ap (content one.pieces ++◌) r.in_order
        ∙ sym (append_assoc (content one.pieces) (content r.pieces) r.rest)
        ∙ ap (λ xs. xs ++ r.rest) (sym (content-append one.pieces r.pieces));
    counted = omega (
      arith,
      one.counted,
      r.counted,
      ap length (content-append one.pieces r.pieces),
      length-append (content one.pieces) (content r.pieces),
    );
    small =
        All-append (IsSegment s.socket.mss) one.pieces r.pieces one.small
          (subst (λ k. All (IsSegment k) r.pieces) one.sends.mss r.small);
    all = r.all;
    stopped = r.stopped;
  }

  pub buffers-Cuts :
      (c : ℕ) (s : State) (hops : Route) (bufs : List (List ℕ)) (ret : ℕ)
      → 0 < s.socket.mss
      → Cuts s (concat bufs) ret (send_buffers drops c s hops bufs ret)
  unfolding send_buffers concat content
  buffers-Cuts c s hops [] ret m = record {
    pieces = [];
    sends = none-Sends s;
    rest = [];
    in_order = refl;
    counted = omega arith;
    small = tt;
    all = λ _. refl;
    stopped = λ e q. ground arith;
  }
  buffers-Cuts c s hops (b ∷ bs) ret m =
      let w = send_chunks drops (length b) c s hops b ret in
      let one = chunks-Cuts (length b) c s hops b ret m (omega arith) in
      elim_rule (Cuts s (b ++ concat bs) ret) (is_some w.stop)
        (λ h. record {
          pieces = one.pieces;
          sends = one.sends;
          rest = one.rest ++ concat bs;
          in_order =
              ap (λ xs. xs ++ concat bs) one.in_order
              ∙ append_assoc (content one.pieces) one.rest (concat bs);
          counted = one.counted;
          small = one.small;
          all = λ q. ground arith;
          stopped = one.stopped;
        })
        (λ h.
          Cuts-append s b (concat bs) ret one (one.all (is_some-false w.stop h))
            (buffers-Cuts c w.state hops bs w.ret (subst (λ k. 0 < k) (sym one.sends.mss) m)))
