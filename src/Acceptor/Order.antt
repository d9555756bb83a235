-- ===== src/Acceptor/Order.antt =====
-- The order in which an acceptor serves connections.
use libsimulator.Base.Errors.{ErrorCode}
use libsimulator.Base.{
  ℕ, ◌≡◌, refl, subst, sym, ap, ◌∙◌, ◌⊎◌, inl, inr, true, List, [], ◌∷◌, ◌++◌, append-nil,
  append_assoc, Option, none, some, arith, if_rule, option_rule,
}
use libsimulator.Net.Hops.{Route}
use libsimulator.Acceptor.{
  Acceptor, Handler, Effect, attached, State, cancel, accept, accept_next, check_accept_queue,
  async_accept, incoming_syn, listen,
}

-- The channels that were attached to a socket, in order.
unfoldable pub served : List Effect → List ℕ
served [] = []
served (attached h c ∷ es) = c ∷ served es
served (_ ∷ es) = served es

served-append : (xs ys : List Effect) → served (xs ++ ys) ≡ served xs ++ served ys
unfolding served
served-append [] ys = refl
served-append (Effect.attached h c ∷ es) ys = ap (c ∷◌) (served-append es ys)
served-append (Effect.sent p ∷ es) ys = served-append es ys
served-append (Effect.completed h ec ∷ es) ys = served-append es ys

pub data Call : Type 0 where
  accepts : Handler → Call
  syn : ℕ → Call
  cancels : Call
  listens : Option ℕ → Call

module _ (route_to : ℕ → Route) (connects : Handler → ℕ → ErrorCode) where
  abbrev pub apply : State → Call → State
  apply s (accepts h) = async_accept route_to connects s h
  apply s (syn c) = incoming_syn route_to connects s c
  apply s cancels = cancel s
  apply s (listens limit) = ((listen s.0 limit).0, s.1)

  abbrev pub apply_all : State → List Call → State
  apply_all s [] = s
  apply_all s (c ∷ cs) = apply_all (apply s c) cs

  -- The connections that the calls bring.
  abbrev pub brought : List Call → List ℕ
  brought [] = []
  brought (accepts h ∷ cs) = brought cs
  brought (syn c ∷ cs) = c ∷ brought cs
  brought (cancels ∷ cs) = brought cs
  brought (listens limit ∷ cs) = brought cs

  abbrev pub all_conns : State → List ℕ
  all_conns s = served s.1 ++ s.0.incoming_conns

  -- No handler waits while a connection waits.
  abbrev pub Idle : State → Type 0
  Idle s = (s.0.waiting ≡ none) ⊎ (s.0.incoming_conns ≡ [])

  record Keeps (conns : List ℕ) (s : State) : Type 0 where
    still_open : s.0.is_open ≡ true
    order : all_conns s ≡ conns
    idle : Idle s

  next-Keeps :
      (s : State) (w : Option Handler) (conns : List ℕ)
      → s.0.waiting ≡ w
      → s.0.incoming_conns ≡ conns
      → s.0.is_open ≡ true
      → Keeps (all_conns s) (accept_next route_to connects s w conns)
  unfolding accept_next accept served
  next-Keeps s none conns e f o = record { still_open = o; order = refl; idle = inl e }
  next-Keeps s (some h) [] e f o = record { still_open = o; order = refl; idle = inr f }
  next-Keeps s (some h) (c ∷ cs) e f o = record {
    still_open = o;
    order =
        ap (λ xs. xs ++ cs) (served-append s.1 _)
        ∙ append_assoc (served s.1) (c ∷ []) cs
        ∙ ap (served s.1 ++◌) (sym f);
    idle = inl refl;
  }

  check-Keeps :
      (s : State)
      → s.0.is_open ≡ true
      → Keeps (all_conns s) (check_accept_queue route_to connects s)
  unfolding check_accept_queue
  check-Keeps s o =
      if_rule (Keeps (all_conns s)) s.0.is_open
        (λ _. next-Keeps s s.0.waiting s.0.incoming_conns refl refl o) (λ n. ground arith)

  cancel_lem :
      (s : State)
      → ((cancel s).0.is_open ≡ s.0.is_open)
        × (served (cancel s).1 ++ (cancel s).0.incoming_conns ≡ all_conns s)
  unfolding cancel served
  cancel_lem s =
      option_rule (λ (r : State). (r.0.is_open ≡ s.0.is_open) × (all_conns r ≡ all_conns s))
        s.0.waiting (λ _. (refl, refl))
        (λ h _. (
          refl,
          ap (λ xs. xs ++ s.0.incoming_conns) (served-append s.1 _ ∙ append-nil (served s.1)),
        ))

  cancel-Idle : (s : State) → Idle (cancel s)
  unfolding cancel
  cancel-Idle s = option_rule Idle s.0.waiting (λ e. inl e) (λ h _. inl refl)

  -- `listen` sets the limit at most.
  listen_lem :
      (a : Acceptor) (limit : Option ℕ)
      → ((listen a limit).0.is_open ≡ a.is_open)
        × ((listen a limit).0.incoming_conns ≡ a.incoming_conns)
        × ((listen a limit).0.waiting ≡ a.waiting)
  unfolding listen
  listen_lem a limit = ground arith

  apply-Keeps :
      (s : State) (c : Call)
      → Idle s
      → s.0.is_open ≡ true
      → Keeps (all_conns s ++ brought (c ∷ [])) (apply s c)
  unfolding async_accept incoming_syn
  apply-Keeps s (accepts h) i o =
      let (same, conns) = cancel_lem s in
      let waits : State = (record (cancel s).0 { waiting = some h }, (cancel s).1) in
      subst (λ xs. Keeps xs (check_accept_queue route_to connects waits))
        (conns ∙ sym (append-nil (all_conns s))) (check-Keeps waits (same ∙ o))
  apply-Keeps s cancels i o =
      let (same, conns) = cancel_lem s in
      record {
        still_open = same ∙ o;
        order = conns ∙ sym (append-nil (all_conns s));
        idle = cancel-Idle s;
      }
  apply-Keeps s (listens limit) i o =
      let (same, conns, waiting) = listen_lem s.0 limit in
      record {
        still_open = same ∙ o;
        order = ap (served s.1 ++◌) conns ∙ sym (append-nil (all_conns s));
        idle = elim i [ inl e ↦ inl (waiting ∙ e) | inr e ↦ inr (conns ∙ e) ];
      }
  apply-Keeps s (syn c) i o =
      let joined : State = (record s.0 { incoming_conns = s.0.incoming_conns ++ c ∷ [] }, s.1) in
      subst (λ xs. Keeps xs (check_accept_queue route_to connects joined))
        (sym (append_assoc (served s.1) s.0.incoming_conns (c ∷ []))) (check-Keeps joined o)

  brought-cons : (c : Call) (cs : List Call) → brought (c ∷ cs) ≡ brought (c ∷ []) ++ brought cs
  brought-cons (accepts h) cs = refl
  brought-cons (syn c) cs = refl
  brought-cons cancels cs = refl
  brought-cons (listens limit) cs = refl

  -- Over any sequence of async_accept, cancel, listen and arrivals of a SYN at an acceptor that is open, with any
  -- limit that listen sets, the connections that were served, followed by those that wait, are
  -- exactly the connections that came, in the order in which they came; and no handler waits while a
  -- connection waits.
  pub apply_all-in_order :
      (s : State) (cs : List Call)
      → s.0.is_open ≡ true
      → Idle s
      → (all_conns (apply_all s cs) ≡ all_conns s ++ brought cs) × Idle (apply_all s cs)
  apply_all-in_order s [] o i = (sym (append-nil (all_conns s)), i)
  apply_all-in_order s (c ∷ cs) o i =
      let k = apply-Keeps s c i o in
      let (order, idle) = apply_all-in_order (apply s c) cs k.still_open k.idle in
      (
        order
            ∙ ap (λ xs. xs ++ brought cs) k.order
            ∙ append_assoc (all_conns s) (brought (c ∷ [])) (brought cs)
            ∙ ap (all_conns s ++◌) (sym (brought-cons c cs)),
        idle,
      )
