-- ===== src/Ports/Probe.antt =====
-- The search for a free port.
use libsimulator.Base.{
  ℕ, zero, suc, ◌+◌, ◌≤◌, ◌<◌, ◌≡◌, refl, true, false, Option, none, some, inl, inr, ◌⊎◌, arith,
  ltb, ◌==◌, Bool-cases, is_some, elim_rule, ltb-false, subst,
}
use libsimulator.Net.Address.{Endpoint}
use libsimulator.Ports.{Table, find, with_port, probe}

abbrev Taken : Table → Endpoint → ℕ → Type 0
Taken t ep p = is_some (find (with_port ep p) t) ≡ true

-- All ports in the range are taken at this address.
abbrev pub AllTaken : Table → Endpoint → ℕ → ℕ → Type 0
AllTaken t ep lo hi = (p : ℕ) → lo ≤ p → p < hi → Taken t ep p

-- The result is the first free port at the address, or there is none.
abbrev pub Probed : Table → Endpoint → Option Endpoint → Type 0
Probed t ep (some r) =
    (is_some (find r t) ≡ false)
    × (r ≡ with_port ep r.port)
    × (ep.port ≤ r.port)
    × ((r.port ≡ ep.port) ⊎ (r.port ≤ 65530))
    × AllTaken t ep ep.port r.port
Probed t ep none = Taken t ep ep.port × AllTaken t ep ep.port 65531

AllTaken-cons :
    (t : Table) (ep : Endpoint) (hi : ℕ)
    → Taken t ep ep.port
    → AllTaken t ep (ep.port + 1) hi
    → AllTaken t ep ep.port hi
AllTaken-cons t ep hi first rest p lo h = elim (Bool-cases (p == ep.port)) [
  | inl e ↦ rw (at p e) first
  | inr n ↦ rest p (ground arith) h
]
  where
    at : (p : ℕ) → (p == ep.port) ≡ true → p ≡ ep.port
    at p e = ground arith

Probed-next :
    (t : Table) (ep : Endpoint) (r : Option Endpoint)
    → Taken t ep ep.port
    → ep.port + 1 ≤ 65530
    → Probed t (with_port ep (ep.port + 1)) r
    → Probed t ep r
Probed-next t ep none taken h (_, all) = (taken, AllTaken-cons t ep 65531 taken all)
Probed-next t ep (some r) taken h (free, same, lo, hi, all) =
    (free, same, omega arith, omega arith, AllTaken-cons t ep r.port taken all)

pub probe-Probed :
    (fuel : ℕ) (t : Table) (ep : Endpoint)
    → 0 < fuel
    → 65531 ≤ fuel + ep.port
    → Probed t ep (probe fuel t ep)
unfolding probe
probe-Probed zero t ep pos enough = absurd (omega arith)
probe-Probed (suc fuel) t ep pos enough =
    elim_rule (Probed t ep) (is_some (find ep t))
      (λ taken.
        elim_rule (Probed t ep) (ltb 65530 (ep.port + 1))
          (λ last. (taken, λ p lo h. subst (Taken t ep) (at p last lo h) taken))
          (λ more. Probed-next t ep _ taken (ltb-false _ _ more) (
            probe-Probed fuel t (with_port ep (ep.port + 1)) (omega (arith, ltb-false _ _ more))
              (omega arith))))
      (λ free. (free, refl, omega arith, inl refl, λ p lo h. absurd (omega arith)))
  where
    at : (p : ℕ) → ltb 65530 (ep.port + 1) ≡ true → ep.port ≤ p → p < 65531 → ep.port ≡ p
    at p last lo h = ground arith
