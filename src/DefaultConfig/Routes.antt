-- ===== src/DefaultConfig/Routes.antt =====
-- The routes that the default configuration hands out stay what they are and are never shared.
use libsimulator.Base.{
  ℕ, ◌≡◌, ◌≢◌, ◌<◌, refl, sym, ap, subst, ◌∙◌, ◌+◌, ◌⊎◌, inl, inr, Bool, true, false, List, [], ◌∷◌,
  Option, none, some, arith, if◌then◌else◌, option_rule, Bool-cases, length,
}
use libsimulator.Net.Address.{Address, address_eq, address_eq_iff}
use libsimulator.Net.Hops.{Route}
use libsimulator.DefaultConfig.{
  DefaultConfig, made_queue, find_modem, modem_in, modem_out, incoming_route, outgoing_route,
}

-- A request for a route.
pub data Request : Type 0 where
  inward outward : Address → Request

unfoldable pub answer : DefaultConfig → Request → DefaultConfig × Route
answer c (inward a) = incoming_route c a
answer c (outward a) = outgoing_route c a

unfoldable pub answer_all : DefaultConfig → List Request → DefaultConfig
answer_all c [] = c
answer_all c (r ∷ rs) = answer_all (answer c r).0 rs

-- The modem of the request, if it was made.
unfoldable pub modem_of : DefaultConfig → Request → Option ℕ
modem_of c (inward a) = find_modem a c.incoming
modem_of c (outward a) = find_modem a c.outgoing

-- Every modem has a number below the next one, and no two share it.
pub record Apart (c : DefaultConfig) : Type 0 where
  pub below : (r : Request) (n : ℕ) → modem_of c r ≡ some n → n < c.next
  pub apart : (r s : Request) (n : ℕ) → modem_of c r ≡ some n → modem_of c s ≡ some n → r ≡ s

-- What an answer leaves: the modem of the request, and those that were there.
record Answers (c : DefaultConfig) (r : Request) (x : DefaultConfig × Route) : Type 0 where
  modem : ℕ
  route : x.1 ≡ modem ∷ []
  has : modem_of x.0 r ≡ some modem
  kept : (s : Request) (n : ℕ) → modem_of c s ≡ some n → modem_of x.0 s ≡ some n
  apart : Apart c → Apart x.0

same_request : Request → Request → Bool
same_request (inward a) (inward b) = address_eq a b
same_request (outward a) (outward b) = address_eq a b
same_request (inward a) (outward b) = false
same_request (outward a) (inward b) = false

same_request-eq : (r s : Request) → same_request r s ≡ true → r ≡ s
unfolding same_request
same_request-eq (inward a) (inward b) e = ap inward ((address_eq_iff a b).0 e)
same_request-eq (outward a) (outward b) e = ap outward ((address_eq_iff a b).0 e)
same_request-eq (inward a) (outward b) e = ground arith
same_request-eq (outward a) (inward b) e = ground arith

same_request_self : (r : Request) → same_request r r ≡ true
unfolding same_request
same_request_self (inward a) = (address_eq_iff a a).1 refl
same_request_self (outward a) = (address_eq_iff a a).1 refl

-- The state behind the making of a modem.
record Adds (c : DefaultConfig) (r : Request) (x : DefaultConfig) : Type 0 where
  next : x.next ≡ c.next + 1
  absent : modem_of c r ≡ none
  modems : (s : Request) → modem_of x s ≡ (if same_request r s then some c.next else modem_of c s)

-- The request is the one that the modem was made for, or the modem was there.
Adds-cases :
    (c x : DefaultConfig) (r s : Request) (n : ℕ)
    → Adds c r x
    → modem_of x s ≡ some n
    → ((r ≡ s) × (n ≡ c.next)) ⊎ (modem_of c s ≡ some n)
Adds-cases c x r s n d e = elim (Bool-cases (same_request r s)) [
  | inl t ↦ inl (same_request-eq r s t, ground (arith, d.modems s))
  | inr t ↦ inr (ground (arith, d.modems s))
]

Adds-Apart : (c x : DefaultConfig) (r : Request) → Adds c r x → Apart c → Apart x
Adds-Apart c x r d p = record {
  below = λ s n e. elim (Adds-cases c x r s n d e) [
    | inl w ↦ omega (arith, w.1, d.next)
    | inr w ↦ omega (arith, p.below s n w, d.next)
  ];
  apart = λ s t n e f. elim (Adds-cases c x r s n d e) [
    | inl w ↦ elim (Adds-cases c x r t n d f) [
      | inl v ↦ sym w.0 ∙ v.0
      | inr v ↦ ground (arith, w.1, p.below t n v)
    ]
    | inr w ↦ elim (Adds-cases c x r t n d f) [
      | inl v ↦ ground (arith, v.1, p.below s n w)
      | inr v ↦ p.apart s t n w v
    ]
  ];
}

Adds-Answers : (c x : DefaultConfig) (r : Request) → Adds c r x → Answers c r (x, c.next ∷ [])
Adds-Answers c x r d = record {
  modem = c.next;
  route = refl;
  has = ground (arith, d.modems r, same_request_self r);
  kept = λ s n e. elim (Bool-cases (same_request r s)) [
    | inl t ↦
        let w = subst (λ q. modem_of c q ≡ none) (same_request-eq r s t) d.absent in
        ground (arith, w)
    | inr t ↦ ground (arith, d.modems s)
  ];
  apart = Adds-Apart c x r d;
}

there : (c : DefaultConfig) (r : Request) (n : ℕ) → modem_of c r ≡ some n → Answers c r (c, n ∷ [])
there c r n e = record { modem = n; route = refl; has = e; kept = λ s k h. h; apart = λ d. d }

inward-modems :
    (c : DefaultConfig) (a : Address) (s : Request)
    → modem_of (record (made_queue c modem_in) { incoming = (a, c.next) ∷ c.incoming }) s
      ≡ (if same_request (inward a) s then some c.next else modem_of c s)
unfolding modem_of find_modem same_request
inward-modems c a (inward b) = refl
inward-modems c a (outward b) = refl

outward-modems :
    (c : DefaultConfig) (a : Address) (s : Request)
    → modem_of (record (made_queue c modem_out) { outgoing = (a, c.next) ∷ c.outgoing }) s
      ≡ (if same_request (outward a) s then some c.next else modem_of c s)
unfolding modem_of find_modem same_request
outward-modems c a (inward b) = refl
outward-modems c a (outward b) = refl

answer-Answers : (c : DefaultConfig) (r : Request) → Answers c r (answer c r)
unfolding answer incoming_route outgoing_route modem_of find_modem same_request
answer-Answers c (inward a) =
    option_rule (Answers c (inward a)) (find_modem a c.incoming)
      (λ e.
        Adds-Answers c _ (inward a)
          (record { next = refl; absent = e; modems = inward-modems c a }))
      (λ n e. there c (inward a) n e)
answer-Answers c (outward a) =
    option_rule (Answers c (outward a)) (find_modem a c.outgoing)
      (λ e.
        Adds-Answers c _ (outward a)
          (record { next = refl; absent = e; modems = outward-modems c a }))
      (λ n e. there c (outward a) n e)

answer_all-Apart :
    (c : DefaultConfig) (rs : List Request)
    → Apart c
    → Apart (answer_all c rs)
      × ((s : Request) (n : ℕ) → modem_of c s ≡ some n → modem_of (answer_all c rs) s ≡ some n)
unfolding answer_all
answer_all-Apart c [] p = (p, λ s n e. e)
answer_all-Apart c (r ∷ rs) p =
    let a = answer-Answers c r in
    let (q, kept) = answer_all-Apart (answer c r).0 rs (a.apart p) in
    (q, λ s n e. kept s n (a.kept s n e))

-- A request for a modem that is there gets it.
answer_again :
    (c : DefaultConfig) (r : Request) (n : ℕ) → modem_of c r ≡ some n → (answer c r).1 ≡ n ∷ []
answer_again c r n e =
    let a = answer-Answers c r in
    let same : some a.modem ≡ some n = sym a.has ∙ a.kept r n e in
    let k : a.modem ≡ n = cc in a.route ∙ ap (λ m. m ∷ []) k

-- In a configuration whose modems have numbers of their own, let two requests differ in the address or the
-- direction. The first is answered by one queue. After any further requests it gets the same
-- queue again, and the second one gets another queue.
pub answer-stable :
    (c : DefaultConfig) (r s : Request) (rs : List Request)
    → Apart c
    → r ≢ s
    → let later = answer_all (answer c r).0 rs in
      (length (answer c r).1 ≡ 1)
      × ((answer later r).1 ≡ (answer c r).1)
      × ((answer later s).1 ≢ (answer c r).1)
answer-stable c r s rs p d =
    let a = answer-Answers c r in
    let (q, kept) = answer_all-Apart (answer c r).0 rs (a.apart p) in
    let later = answer_all (answer c r).0 rs in
    let b = answer-Answers later s in
    (
      ap length a.route,
      answer_again later r a.modem (kept r a.modem a.has) ∙ sym a.route,
      λ e.
          let routes : b.modem ∷ [] ≡ a.modem ∷ [] = sym b.route ∙ e ∙ a.route in
          let same : b.modem ≡ a.modem = cc in
          d (
            sym (
              (b.apart q).apart s r a.modem (b.has ∙ ap some same)
                (b.kept r a.modem (kept r a.modem a.has)))),
    )
