-- ===== src/Ports/Binding.antt =====
-- What bind, unbind and rebind do to the tables.
use libsimulator.Base.Errors.{no_error, access_denied, address_in_use, failed}
use libsimulator.Base.{
  ℕ, ◌≤◌, ◌<◌, ◌≡◌, ◌⊎◌, refl, ap, true, false, ◌&&◌, ◌∷◌, Option, none, some, inl, inr, arith, ltb,
  ◌==◌, Bool-cases, is_some, sym, subst, if_rule,
}
use libsimulator.Net.Address.{Endpoint, no_endpoint}
use libsimulator.Ports.{
  Table, Bound, refuse, enter, find, with_port, probe, following_port, bind_in,
}
use libsimulator.Ports.Probe.{Probed, AllTaken, probe-Probed}

-- What `bind` of a socket at `ep` leaves of a table.
abbrev pub Entered : Table → ℕ → Bound → Type 0
Entered t socket b =
    ((b.ec ≡ no_error)
      × (is_some (find b.endpoint t) ≡ false)
      × (b.table ≡ (b.endpoint, socket) ∷ t))
    ⊎ ((failed b.ec ≡ true) × (b.endpoint ≡ no_endpoint) × (b.table ≡ t))

enter-Entered :
    (t : Table) (n socket : ℕ) (r : Option Endpoint) → Entered t socket (enter t n socket r)
unfolding enter
enter-Entered t n socket none = inr (refl, refl, refl)
enter-Entered t n socket (some ep) =
    if_rule (Entered t socket) (is_some (find ep t)) (λ _. inr (refl, refl, refl))
      (λ free. inl (refl, free, refl))

pub bind_in-Entered :
    (t : Table) (n socket : ℕ) (ep : Endpoint) → Entered t socket (bind_in t n socket ep)
unfolding bind_in
bind_in-Entered t n socket ep =
    if_rule (Entered t socket) (ltb ep.port 1024 && ltb 0 ep.port) (λ _. inr (refl, refl, refl))
      λ _.
        if_rule (Entered t socket) (ep.port == 0) (λ _. enter-Entered t _ socket _)
          (λ _. enter-Entered t n socket (some ep))

-- The next port to hand out lies in the range that the simulation uses.
abbrev pub InRange : ℕ → Type 0
InRange p = (2000 ≤ p) × (p ≤ 65534)

-- Which port a successful bind takes, and which error a failed one reports.
pub record Assigns (t : Table) (n : ℕ) (ep : Endpoint) (b : Bound) : Type 0 where
  pub next_in_range : InRange b.next
  pub privileged : 0 < ep.port → ep.port < 1024 → b.ec ≡ access_denied
  pub given :
      1024 ≤ ep.port
      → ((b.ec ≡ no_error) × (b.endpoint ≡ ep))
        ⊎ ((b.ec ≡ address_in_use) × (is_some (find ep t) ≡ true))
  pub chosen :
      ep.port ≡ 0
      → ((b.ec ≡ no_error)
          × (b.endpoint ≡ with_port ep b.endpoint.port)
          × (n ≤ b.endpoint.port)
          × (b.endpoint.port ≤ 65534)
          × AllTaken t ep n b.endpoint.port)
        ⊎ ((b.ec ≡ address_in_use) × AllTaken t ep n 65531)

following_port-InRange : (p : ℕ) → InRange p → InRange (following_port p)
unfolding following_port
following_port-InRange p r = ground arith

enter-chosen :
    (t : Table) (n m socket : ℕ) (ep : Endpoint) (r : Option Endpoint)
    → n ≤ 65534
    → Probed t (with_port ep n) r
    → let b = enter t m socket r in
      ((b.ec ≡ no_error)
        × (b.endpoint ≡ with_port ep b.endpoint.port)
        × (n ≤ b.endpoint.port)
        × (b.endpoint.port ≤ 65534)
        × AllTaken t ep n b.endpoint.port)
      ⊎ ((b.ec ≡ address_in_use) × AllTaken t ep n 65531)
unfolding enter
enter-chosen t n m socket ep none h (taken, all) = inr (refl, all)
enter-chosen t n m socket ep (some r) h (free, same, lo, hi, all) =
    rw free (inl (refl, same, lo, ground arith, all))

enter-next : (t : Table) (n socket : ℕ) (r : Option Endpoint) → (enter t n socket r).next ≡ n
unfolding enter
enter-next t n socket r = ground arith

bind_in_given :
    (t : Table) (n socket : ℕ) (ep : Endpoint)
    → 1024 ≤ ep.port
    → bind_in t n socket ep ≡ enter t n socket (some ep)
unfolding bind_in
bind_in_given t n socket ep h = ground arith

bind_in_any :
    (t : Table) (n socket : ℕ) (ep : Endpoint)
    → ep.port ≡ 0
    → bind_in t n socket ep ≡ enter t (following_port n) socket (probe 65531 t (with_port ep n))
unfolding bind_in
bind_in_any t n socket ep e = ground arith

bind_in_privileged :
    (t : Table) (n socket : ℕ) (ep : Endpoint)
    → 0 < ep.port
    → ep.port < 1024
    → bind_in t n socket ep ≡ refuse t n access_denied
unfolding bind_in
bind_in_privileged t n socket ep lo hi = ground arith

enter_given :
    (t : Table) (n socket : ℕ) (ep : Endpoint)
    → let b = enter t n socket (some ep) in
      ((b.ec ≡ no_error) × (b.endpoint ≡ ep))
      ⊎ ((b.ec ≡ address_in_use) × (is_some (find ep t) ≡ true))
unfolding enter
enter_given t n socket ep = elim (Bool-cases (is_some (find ep t))) [
  | inl taken ↦ rw taken (inr (refl, refl))
  | inr free ↦ rw free (inl (refl, refl))
]

bind_in-next :
    (t : Table) (n socket : ℕ) (ep : Endpoint) → InRange n → InRange (bind_in t n socket ep).next
unfolding bind_in
bind_in-next t n socket ep r =
    if_rule (λ (b : Bound). InRange b.next) (ltb ep.port 1024 && ltb 0 ep.port) (λ _. r)
      λ _.
        if_rule (λ (b : Bound). InRange b.next) (ep.port == 0)
          (λ _.
            subst InRange (sym (enter-next t (following_port n) socket _))
              (following_port-InRange n r))
          (λ _. subst InRange (sym (enter-next t n socket (some ep))) r)

pub bind_in-Assigns :
    (t : Table) (n socket : ℕ) (ep : Endpoint) → InRange n → Assigns t n ep (bind_in t n socket ep)
bind_in-Assigns t n socket ep r = record {
  next_in_range = bind_in-next t n socket ep r;
  privileged = λ lo hi. ap (λ (b : Bound). b.ec) (bind_in_privileged t n socket ep lo hi);
  given = λ h. rw (bind_in_given t n socket ep h) (enter_given t n socket ep);
  chosen = λ e. rw (bind_in_any t n socket ep e) (
      enter-chosen t n _ socket ep _ r.1
        (probe-Probed 65531 t (with_port ep n) (omega arith) (omega arith)));
}
