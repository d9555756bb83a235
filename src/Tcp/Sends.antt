-- ===== src/Tcp/Sends.antt =====
-- What the sending of packets adds to the log, and which numbers it takes.
use libsimulator.Base.{
  ℕ, ◌≡◌, refl, sym, ap, ◌∙◌, List, [], ◌∷◌, ◌++◌, append-nil, append_assoc, none, option_rule,
  if_rule,
}
use libsimulator.Net.Packet.{Packet}
use libsimulator.Tcp.{Effect, State, sent, dropped_on, returned, recently_cut}
use libsimulator.Tcp.Runs.{Run, stop, Run-append}

-- The packets sent, in order.
unfoldable pub payloads : List Effect → List Packet
payloads [] = []
payloads (sent p ∷ es) = p ∷ payloads es
payloads (_ ∷ es) = payloads es

unfoldable pub concat : List (List ℕ) → List ℕ
concat [] = []
concat (b ∷ bs) = b ++ concat bs

pub payloads-append : (xs ys : List Effect) → payloads (xs ++ ys) ≡ payloads xs ++ payloads ys
unfolding payloads
payloads-append [] ys = refl
payloads-append (Effect.sent p ∷ es) ys = ap (◌∷◌ p) (payloads-append es ys)
payloads-append (Effect.has_read h ec b ∷ es) ys = payloads-append es ys
payloads-append (Effect.has_written h ec n ∷ es) ys = payloads-append es ys
payloads-append (Effect.notified h ec ∷ es) ys = payloads-append es ys
payloads-append (Effect.recv_timer_cancelled ∷ es) ys = payloads-append es ys
payloads-append (Effect.connect_timer_started t h ec ∷ es) ys = payloads-append es ys

-- What the sending of packets leaves as it was, and what it adds to the log.
pub record Emits (s s' : State) (pieces : List Packet) : Type 0 where
  pub mss : s'.socket.mss ≡ s.socket.mss
  pub next : s'.socket.next_outgoing_seq ≡ s.socket.next_outgoing_seq
  pub log : payloads s'.log ≡ payloads s.log ++ pieces

-- The same when each packet takes the next number.
pub record Sends (s s' : State) (pieces : List Packet) : Type 0 where
  pub mss : s'.socket.mss ≡ s.socket.mss
  pub run : Run s.socket.next_outgoing_seq pieces s'.socket.next_outgoing_seq
  pub log : payloads s'.log ≡ payloads s.log ++ pieces

pub same-Emits :
    (s s' : State)
    → s'.socket.mss ≡ s.socket.mss
    → s'.socket.next_outgoing_seq ≡ s.socket.next_outgoing_seq
    → s'.log ≡ s.log
    → Emits s s' []
same-Emits s s' m n l = record { mss = m; next = n; log = ap payloads l ∙ sym (append-nil _) }

pub none-Sends : (s : State) → Sends s s []
none-Sends s = record { mss = refl; run = stop; log = sym (append-nil _) }

pub dropped_on-Emits : (c : ℕ) (s : State) (p : Packet) → Emits s (dropped_on c s p) []
unfolding dropped_on
dropped_on-Emits c s p =
    if_rule (λ r. Emits s r []) (recently_cut s.socket p) (λ _. same-Emits s _ refl refl refl)
      (λ _. same-Emits s _ refl refl refl)

pub returned-Emits : (c : ℕ) (s : State) (p : Packet) → Emits s (returned c s p) []
unfolding returned
returned-Emits c s p =
    option_rule (λ r. Emits s r []) p.drop_fun (λ _. same-Emits s s refl refl refl)
      (λ f _. dropped_on-Emits c s (record p { drop_fun = none }))

pub Sends-trans :
    {s s1 s2 : State} {xs ys : List Packet} → Sends s s1 xs → Sends s1 s2 ys → Sends s s2 (xs ++ ys)
Sends-trans {s} {s1} {s2} {xs} {ys} a b = record {
  mss = b.mss ∙ a.mss;
  run = Run-append a.run b.run;
  log = b.log ∙ ap (◌++ ys) a.log ∙ append_assoc (payloads s.log) xs ys;
}
